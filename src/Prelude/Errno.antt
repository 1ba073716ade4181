-- ===== src/Prelude/Errno.antt =====
-- The error numbers that the modelled functions return, negated as the kernel returns them.
use linux_kernel.Prelude.Int.{ℤ, negsuc}

abbrev pub eperm : ℤ
eperm = negsuc 0

abbrev pub esrch : ℤ
esrch = negsuc 2

abbrev pub eio : ℤ
eio = negsuc 4

abbrev pub enomem : ℤ
enomem = negsuc 11

abbrev pub efault : ℤ
efault = negsuc 13

abbrev pub einval : ℤ
einval = negsuc 21

abbrev pub erestartsys : ℤ
erestartsys = negsuc 511

abbrev pub ebusy : ℤ
ebusy = negsuc 15
