-- ===== src/Watch.antt =====
-- "project_Benchmark/src/watch.c": /proc/watch, which counts the pages that a process has accessed
-- and its times. Page tables, pids and the copies to and from the user are parameters.
pub mod Digits
pub mod Output
pub mod Pages
pub mod Counting
pub mod Reading
mod Tests
use linux_kernel.Prelude.{
  ℕ, zero, suc, ◌+◌, ◌-◌, ◌*◌, ◌/◌, ◌%◌, ◌^◌, Bool, true, false, ◌||◌, not, Option, none, some,
  List, [], ◌∷◌, ◌++◌, if◌then◌else◌, ◌==◌, ltb, leb, set,
}
use linux_kernel.Prelude.Words.{u32_mod, u64_mod, add32, add64, sub64}
use linux_kernel.Prelude.Int.{ℤ, pos}
use linux_kernel.Prelude.Errno.{efault}

abbrev pub max_size : ℕ
max_size = 128

-- NSEC_PER_SEC / USER_HZ, with USER_HZ = 100.
unfoldable pub nsecc_to_clock_t : ℕ → ℕ
nsecc_to_clock_t x = x / 10000000

-- The digits of a number, the lowest first. 20 rounds are enough below 2^64.
unfoldable pub low_digits : ℕ → ℕ → List ℕ
low_digits zero tmp = []
low_digits (suc n) tmp = if tmp == 0 then [] else (tmp % 10 + 48) ∷ low_digits n (tmp / 10)

-- The copy of tmp_output from its end.
abbrev pub rev_onto : List ℕ → List ℕ → List ℕ
rev_onto [] ys = ys
rev_onto (x ∷ xs) ys = rev_onto xs (x ∷ ys)

-- Stores from a position of the buffer on, one after the other.
abbrev pub put : List ℕ → ℕ → List ℕ → List ℕ
put output p [] = output
put output p (x ∷ xs) = put (set output p x) (p + 1) xs

unfoldable pub int2char : ℕ → ℕ → List ℕ → List ℕ
int2char memory_count p output =
    if memory_count == 0
    then put output p (48 ∷ 32 ∷ 0 ∷ [])
    else put output p (rev_onto (low_digits 20 memory_count) (32 ∷ 0 ∷ []))

abbrev pub strlen : List ℕ → ℕ
strlen [] = 0
strlen (x ∷ xs) = let rest = suc (strlen xs) in if x == 0 then 0 else rest

-- What cpu_measure reads of a process in one round: the times of the exited threads, and the pairs
-- of utime and stime of the threads.
pub record Times : Type 0 where
  pub utime : ℕ
  pub stime : ℕ
  pub threads : List (ℕ × ℕ)

abbrev pub add_threads : List (ℕ × ℕ) → ℕ × ℕ → ℕ × ℕ
add_threads [] (u, s) = (u, s)
add_threads ((tu, ts) ∷ ts') (u, s) = add_threads ts' (add64 u tu, add64 s ts)

abbrev pub one_round : Times → ℕ × ℕ → ℕ × ℕ
one_round t (u, s) = add_threads t.threads (add64 u t.utime, add64 s t.stime)

-- The loop over the sequence lock: a second round, which takes the lock, if the first was disturbed.
unfoldable pub cpu_measure : Times → Option Times → ℕ × ℕ
cpu_measure t none = one_round t (0, 0)
cpu_measure t (some again) = one_round again (one_round t (0, 0))

-- What the page tables hold for an address: which levels are none or bad, and the place of the pte.
pub record Walk : Type 0 where
  pub pgd_bad : Bool
  pub p4d_bad : Bool
  pub pud_bad : Bool
  pub pmd_bad : Bool
  pub pte : Option ℕ

-- The address space: the areas in their order, the tables, and the ptes by their places.
pub record Mm : Type 0 where
  pub areas : List (ℕ × ℕ)
  pub walk : ℕ → Walk

abbrev pub kernel_space : ℕ
kernel_space = 0xFFFF800000000000

abbrev pub accessed : ℕ → Bool
accessed pte = pte / 32 % 2 == 1

abbrev pub clear_accessed : ℕ → ℕ
clear_accessed pte = pte - pte / 32 % 2 * 32

abbrev pub store : (ℕ → ℕ) → ℕ → ℕ → ℕ → ℕ
store ptes k v j = if j == k then v else ptes j

abbrev pub at_pte : Option ℕ → (ℕ → ℕ) × ℕ → (ℕ → ℕ) × ℕ
at_pte none (ptes, count) = (ptes, count)
at_pte (some k) (ptes, count) =
    (store ptes k (clear_accessed (ptes k)), if accessed (ptes k) then add32 count 1 else count)

-- One round of the inner loop at an address.
unfoldable pub measure_page : Mm → ℕ → (ℕ → ℕ) × ℕ → (ℕ → ℕ) × ℕ
measure_page mm addr st =
    let w = mm.walk addr in
    if leb kernel_space addr || (w.pgd_bad || (w.p4d_bad || (w.pud_bad || w.pmd_bad)))
    then st
    else at_pte w.pte st

-- The pages of an area, from the page `i` on.
abbrev pub area_pages : ℕ → ℕ → List ℕ
area_pages start zero = []
area_pages start (suc n) = start ∷ area_pages (start + 4096) n

-- The page count of an area is stored in an int; if that is negative, no page is walked.
abbrev pub page_number : ℕ → ℕ → ℕ
page_number vm_start vm_end =
    let n = (vm_end - vm_start) / 4096 % u32_mod in if ltb n (2 ^ 31) then n else 0

abbrev pub pages : List (ℕ × ℕ) → List ℕ
pages [] = []
pages ((vm_start, vm_end) ∷ areas) =
    area_pages vm_start (page_number vm_start vm_end) ++ pages areas

unfoldable pub measure_pages : Mm → List ℕ → (ℕ → ℕ) × ℕ → (ℕ → ℕ) × ℕ
measure_pages mm [] st = st
measure_pages mm (addr ∷ addrs) st = measure_pages mm addrs (measure_page mm addr st)

-- The ptes after it, and the number of pages accessed: an int, by its pattern of 32 bits.
unfoldable pub ram_measure : Mm → (ℕ → ℕ) → (ℕ → ℕ) × ℕ
ram_measure mm ptes = measure_pages mm (pages mm.areas) (ptes, 0)

-- The module's variables.
pub record Watch : Type 0 where
  pub output : List ℕ
  pub out_len : ℕ
  pub pid_measured : ℤ

-- What the measured process shows: its address space, and its times. A kernel thread and a zombie have
-- no address space, and ram_measure faults on them; they are not of this type.
pub record Process : Type 0 where
  pub mm : Mm
  pub times : Times
  pub again : Option Times
  pub cutime : ℕ
  pub cstime : ℕ

abbrev pub append_number : ℕ → Watch → Watch
append_number n w =
    let output = int2char n w.out_len w.output in
    record w { output = output; out_len = strlen output }

-- "-1 -1 -1 -1 -1 "
abbrev pub gone_text : List ℕ
gone_text = 45 ∷ 49 ∷ 32 ∷ 45 ∷ 49 ∷ 32 ∷ 45 ∷ 49 ∷ 32 ∷ 45 ∷ 49 ∷ 32 ∷ 45 ∷ 49 ∷ 32 ∷ []

-- An int, by its pattern, converted to unsigned long long: a negative one is extended by its sign.
abbrev pub int_to_u64 : ℕ → ℕ
int_to_u64 n = if ltb n (2 ^ 31) then n else n + (u64_mod - u32_mod)

-- What a read at position 0 does first; find_get_pid has found a process or none.
unfoldable pub update_status : Option Process → (ℕ → ℕ) → Watch → Watch × (ℕ → ℕ)
update_status none ptes w =
    let output = put w.output 0 (gone_text ++ (0 ∷ [])) in
    (record w { output = output; out_len = strlen output }, ptes)
update_status (some p) ptes w =
    let measured = ram_measure p.mm ptes in
    let times = cpu_measure p.times p.again in
    let pages' = append_number (int_to_u64 measured.1) (record w { out_len = 0 }) in
    let utime = append_number (nsecc_to_clock_t (times.0)) pages' in
    let stime = append_number (nsecc_to_clock_t (times.1)) utime in
    let cutime = append_number (nsecc_to_clock_t p.cutime) stime in
    (append_number (nsecc_to_clock_t p.cstime) cutime, measured.0)

-- The number of bytes to copy. The loff_t is converted to the unsigned type of `len`. The result is an
-- int, which holds it as the kernel gives a read a length below 2^31.
unfoldable pub copy_count : ℕ → ℕ → ℕ → ℕ
copy_count out_len len at = if ltb len (sub64 out_len at) then len else sub64 out_len at

-- A read: the variables and the ptes after it, the position, the number of bytes copied from the
-- position on, and the value returned.
pub record Reads : Type 0 where
  pub watch : Watch
  pub ptes : ℕ → ℕ
  pub at : ℕ
  pub copied : ℕ
  pub ret : ℤ

unfoldable pub proc_read : Option Process → (ℕ → ℕ) → Watch → ℕ → ℕ → Bool → Reads
proc_read process ptes w len at copies =
    let updated = if at == 0 then update_status process ptes w else (w, ptes) in
    let count = copy_count (updated.0).out_len len at in
    if copies
    then record {
      watch = updated.0;
      ptes = updated.1;
      at = at + count;
      copied = count;
      ret = pos count;
    }
    else record { watch = updated.0; ptes = updated.1; at = at; copied = 0; ret = efault }

-- proc_write after the number is parsed (`none` if kstrtoint_from_user fails): the variables, the
-- ptes, the position and the value returned.
unfoldable pub proc_write : (ℤ → Option Process) → (ℕ → ℕ) → Watch → Option ℤ → ℕ → ℕ → Reads
proc_write find ptes w parsed len at =
    let refused : Reads = record { watch = w; ptes = ptes; at = at; copied = 0; ret = efault } in
    let accepted : Reads = elim parsed [
      | none ↦ refused
      | some pid ↦ record {
        watch = record w { pid_measured = pid };
        ptes = elim (find pid) [ none ↦ ptes | some p ↦ (ram_measure p.mm ptes).0 ];
        at = at + len;
        copied = 0;
        ret = pos len;
      }
    ] in
    if ltb 0 at then refused else accepted
