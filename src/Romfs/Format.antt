-- ===== src/Romfs/Format.antt =====
-- The on-disk format of romfs, and the device below it. The numbers are those of the file format
-- (<linux/romfs_fs.h>); the functions of romfs's storage.c, which is not in the repository, are a
-- record of functions.
use linux_kernel.Prelude.{
  ℕ, ◌+◌, ◌-◌, ◌*◌, ◌/◌, ◌%◌, ◌^◌, Bool, Option, none, some, List, if◌then◌else◌, ltb, get_or, ◌==◌,
  same_text,
}
use linux_kernel.Prelude.Int.{ℤ}

abbrev pub romfh_size : ℕ
romfh_size = 16

abbrev pub romfs_maxfn : ℕ
romfs_maxfn = 128

abbrev pub page_size : ℕ
page_size = 4096

-- x & ROMFH_MASK, which clears the four low bits.
abbrev pub mask : ℕ → ℕ
mask x = x / 16 * 16

-- x & ROMFH_TYPE
abbrev pub fh_type : ℕ → ℕ
fh_type x = x % 8

-- x & ROMFH_EXEC
abbrev pub fh_exec : ℕ → Bool
fh_exec x = x / 8 % 2 == 1

unfoldable pub be32 : List ℕ → ℕ → ℕ
be32 b i =
    get_or b i 0 * 2 ^ 24
    + get_or b (i + 1) 0 * 2 ^ 16
    + get_or b (i + 2) 0 * 2 ^ 8
    + get_or b (i + 3) 0

-- struct romfs_inode without the checksum, which is not looked at.
pub record RomfsInode : Type 0 where
  pub next : ℕ
  pub spec : ℕ
  pub size : ℕ

unfoldable pub decode : List ℕ → RomfsInode
unfolding be32
decode b = record { next = be32 b 0; spec = be32 b 4; size = be32 b 8 }

-- An `int` that holds a u32 and is converted to `unsigned long`: the sign is extended.
abbrev pub sign_extend : ℕ → ℕ
sign_extend x = if ltb x (2 ^ 31) then x else x + 2 ^ 64 - 2 ^ 32

-- What romfs_dev_read brings: the bytes, or a negative error.
pub data Read : Type 0 where
  bytes : List ℕ → Read
  fault : ℤ → Read

-- romfs_dev_read, romfs_dev_strnlen, romfs_dev_strcmp and romfs_maxsize of a mounted image.
pub record Dev : Type 0 where
  pub read : ℕ → ℕ → Read
  pub strnlen : ℕ → ℕ → ℤ
  pub strcmp : ℕ → List ℕ → ℕ → ℤ
  pub maxsize : ℕ

-- A module parameter is a NULL pointer until it is given; strcmp with it is then a fault, `none`.
abbrev pub is_param : List ℕ → Option (List ℕ) → Option Bool
is_param name none = none
is_param name (some p) = some (same_text name p)
