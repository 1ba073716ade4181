-- ===== src/Mtest.antt =====
-- "project_memory space/mtest/mtest.c": /proc/mtest, which reads and writes a byte of any process.
-- Page tables, pids, kstrtoul and the copies to and from the user are parameters.
pub mod Commands
pub mod Access
pub mod Reading
mod Tests
use linux_kernel.Prelude.{
  ℕ, zero, suc, ◌+◌, ◌-◌, ◌*◌, ◌/◌, ◌%◌, Bool, true, false, ◌||◌, not, Option, none, some, List, [],
  ◌∷◌, ◌++◌, if◌then◌else◌, ◌==◌, ltb, leb, set, take, length, same_text,
}
use linux_kernel.Prelude.Words.{sub64}
use linux_kernel.Prelude.Int.{ℤ, pos}
use linux_kernel.Prelude.Errno.{efault}

-- What the page tables of a process hold for an address: which levels are none or bad, and the page
-- frame of the pte, or `none` if pte_offset_kernel gives NULL.
pub record Tables : Type 0 where
  pub pgd_bad : Bool
  pub p4d_bad : Bool
  pub pud_bad : Bool
  pub pmd_bad : Bool
  pub frame : Option ℕ

-- get_addr: the place in physical memory, which the kernel maps as a whole, or `none` for -1.
unfoldable pub get_addr : (ℕ → Tables) → ℕ → Option ℕ
get_addr walk addr =
    let w = walk addr in
    let place : Option ℕ = elim w.frame [ none ↦ none | some f ↦ some (f * 4096 + addr % 4096) ] in
    if w.pgd_bad || (w.p4d_bad || (w.pud_bad || w.pmd_bad)) then none else place

-- The module's output buffer, and the physical memory, byte by byte.
pub record State : Type 0 where
  pub output : List ℕ
  pub memory : ℕ → ℕ

-- What the handlers call: kstrtoul of a text (`none` if it refuses the text and leaves the variable
-- alone), and pid_task(find_get_pid(pid)) (`none` for NULL, or for a task with no address space).
pub record Env : Type 0 where
  pub kstrtoul : List ℕ → Option ℕ
  pub find : ℕ → Option (ℕ → Tables)

-- How a call ends: with a value; by a fault of the kernel; by a store outside an array; or by using
-- a variable that was never set.
pub data Outcome : Type 0 where
  returns : ℤ → State → Outcome
  fault overrun unset : Outcome

-- A C string: what stands before the first zero.
abbrev pub c_string : List ℕ → List ℕ
c_string [] = []
c_string (x ∷ xs) = let rest = x ∷ c_string xs in if x == 0 then [] else rest

-- The tokens that strsep gives one after the other for the delimiter " ".
abbrev pub prepend : ℕ → List (List ℕ) → List (List ℕ)
prepend x [] = (x ∷ []) ∷ []
prepend x (t ∷ ts) = (x ∷ t) ∷ ts

unfoldable pub tokens : List ℕ → List (List ℕ)
tokens [] = [] ∷ []
tokens (x ∷ xs) = let rest = tokens xs in if x == 32 then [] ∷ rest else prepend x rest

-- The local variables target_pid, addr and content; `none` is a variable that was not set.
pub record Args : Type 0 where
  pub target_pid : Option ℕ
  pub addr : Option ℕ
  pub content : Option ℕ

abbrev pub keep_or : Option ℕ → Option ℕ → Option ℕ
keep_or old none = old
keep_or old (some v) = some v

-- The word of number `count` is a pid, an address (after "0x"), or a value.
abbrev pub set_arg : Env → ℕ → List ℕ → Args → Args
set_arg e zero token a = record a { target_pid = keep_or a.target_pid (e.kstrtoul token) }
set_arg e (suc zero) token a = record a { addr = keep_or a.addr (e.kstrtoul (48 ∷ 120 ∷ token)) }
set_arg e (suc (suc zero)) token a = record a { content = keep_or a.content (e.kstrtoul token) }
set_arg e (suc (suc (suc n))) token a = a

-- The loop over the tokens, which passes over empty ones. A read takes two words, a write three.
unfoldable pub parse_args : Env → ℕ → ℕ → List (List ℕ) → Args → Args
parse_args e words count [] a = a
parse_args e words count ([] ∷ ts) a = parse_args e words count ts a
parse_args e words count ((x ∷ xs) ∷ ts) a =
    parse_args e words (if ltb count words then suc count else count) ts
      (if ltb count words then set_arg e count (x ∷ xs) a else a)

-- output[0] = *vaddr; output[1] = '\0'.
abbrev pub read_byte : State → ℕ → State
read_byte s at = record s { output = set (set s.output 0 (s.memory at)) 1 0 }

-- *vaddr = (char)content, where vaddr points to an unsigned long: eight bytes are stored, the char
-- with its sign extended.
abbrev pub sign_byte : ℕ → ℕ
sign_byte c = if ltb c 128 then 0 else 255

abbrev pub store_long : (ℕ → ℕ) → ℕ → ℕ → ℕ → ℕ
store_long memory at c q =
    if q == at
    then c
    else if ltb at q
    then (if ltb q (at + 8) then sign_byte c else memory q)
    else memory q

abbrev pub write_byte : State → ℕ → ℕ → State
write_byte s at content = record s { memory = store_long s.memory at (content % 256) }

-- The place for the pid and the address: get_addr reads task->mm with no test of the task, and its
-- callers use what it returns with no test for -1.
pub data Place : Type 0 where
  place : ℕ → Place
  no_place : Outcome → Place

abbrev pub of_task : Option (ℕ → Tables) → ℕ → Place
of_task none addr = no_place fault
of_task (some walk) addr = elim (get_addr walk addr) [ none ↦ no_place fault | some at ↦ place at ]

unfoldable pub resolve : Env → Option ℕ → Option ℕ → Place
resolve e none addr = no_place unset
resolve e (some pid) none = no_place unset
resolve e (some pid) (some addr) = of_task (e.find pid) addr

abbrev pub no_args : Args
no_args = record { target_pid = none; addr = none; content = none }

unfoldable pub do_read : Env → State → ℤ → Args → Outcome
do_read e s ret a = elim (resolve e a.target_pid a.addr) [
  | no_place o ↦ o
  | place at ↦ returns ret (read_byte s at)
]

unfoldable pub do_write : Env → State → ℤ → Args → Outcome
do_write e s ret a = elim (resolve e a.target_pid a.addr) [
  | no_place o ↦ o
  | place at ↦ elim a.content [ none ↦ unset | some c ↦ returns ret (write_byte s at c) ]
]

-- The command: "r" is 114 and "w" is 119. Another first token changes nothing.
unfoldable pub dispatch : Env → State → ℤ → List (List ℕ) → Outcome
dispatch e s ret [] = returns ret s
dispatch e s ret (command ∷ ts) =
    if same_text command (114 ∷ [])
    then do_read e s ret (parse_args e 2 0 ts no_args)
    else if same_text command (119 ∷ [])
    then do_write e s ret (parse_args e 3 0 ts no_args)
    else returns ret s

-- After copy_from_user: tmp_buffer[len - 1] and tmp_buffer[len] are stored to, and tmp_buffer has 128
-- elements.
unfoldable pub run_command : Env → State → ℕ → List ℕ → Outcome
run_command e s len input =
    if len == 0 || len == 128
    then overrun
    else dispatch e s (pos (len + 1)) (tokens (c_string (take (len - 1) input ++ (32 ∷ []))))

-- The text that copy_from_user brings is `none` if it fails.
unfoldable pub proc_write : Env → State → ℕ → ℕ → Option (List ℕ) → Outcome
proc_write e s len at copied =
    if ltb 0 at || ltb 128 len
    then returns efault s
    else elim copied [ none ↦ returns efault s | some input ↦ run_command e s len input ]

abbrev pub strlen : List ℕ → ℕ
strlen output = length (c_string output)

-- A read: the number of bytes copied from the start of the buffer, the position after it, and the
-- value returned. The length is below 2^31, so `count` fits its int.
pub record Read : Type 0 where
  pub copied : ℕ
  pub at : ℕ
  pub ret : ℤ

unfoldable pub proc_read : State → ℕ → ℕ → Bool → Read
proc_read s len at copies =
    let left = sub64 (strlen s.output) at in
    let count = if ltb len left then len else left in
    if copies
    then record { copied = count; at = at + count; ret = pos count }
    else record { copied = 0; at = at; ret = efault }
