-- ===== src/Watch/Reading.antt =====
-- What later reads copy, and what cpu_measure adds up.
use linux_kernel.Prelude.{
  ℕ, ◌+◌, ◌-◌, ◌%◌, ◌^◌, ◌≤◌, ◌<◌, ◌≡◌, refl, min, Bool, true, false, List, [], ◌∷◌, arith,
  if◌then◌else◌, ◌==◌, Option, none, some,
}
use linux_kernel.Prelude.Words.{add64}
use linux_kernel.Prelude.Int.{pos}
use linux_kernel.Prelude.Errno.{efault}
use linux_kernel.Watch.{
  Watch, Process, Times, copy_count, proc_read, cpu_measure, add_threads, one_round,
}

-- The sums of utime and of stime, not yet reduced modulo 2^64.
abbrev pub thread_sums : List (ℕ × ℕ) → ℕ × ℕ
thread_sums [] = (0, 0)
thread_sums ((u, s) ∷ ts) = (u + (thread_sums ts).0, s + (thread_sums ts).1)

abbrev pub total : Times → ℕ × ℕ
total t = (t.utime + (thread_sums t.threads).0, t.stime + (thread_sums t.threads).1)

copy_count_inside :
    (out_len len at : ℕ)
    → at ≤ out_len
    → out_len < 2 ^ 31
    → copy_count out_len len at ≡ min len (out_len - at)
unfolding copy_count
copy_count_inside out_len len at h k = ground arith

-- A read at a position behind 0 and inside the text: the text stays as it is, as many bytes are copied
-- as are asked for or are left, the position moves behind them and their number is returned; if
-- the copy fails, the position stays and -EFAULT is returned.
pub proc_read_later :
    (process : Option Process) (ptes : ℕ → ℕ) (w : Watch) (len at : ℕ) (copies : Bool)
    → 0 < at
    → at ≤ w.out_len
    → w.out_len < 2 ^ 31
    → let n = min len (w.out_len - at) in
      proc_read process ptes w len at copies ≡ (
        if copies
        then record { watch = w; ptes = ptes; at = at + n; copied = n; ret = pos n }
        else record { watch = w; ptes = ptes; at = at; copied = 0; ret = efault })
unfolding proc_read
proc_read_later process ptes w len at copies h k l =
    let later : (at == 0) ≡ false = ground arith in
    rw (later, copy_count_inside w.out_len len at k l) refl

-- A read at a position behind the text: all the bytes asked for are copied, from behind the text.
pub proc_read_behind :
    (process : Option Process) (ptes : ℕ → ℕ) (w : Watch) (len at : ℕ)
    → w.out_len < at
    → at < 2 ^ 63
    → len < 2 ^ 31
    → (proc_read process ptes w len at true).copied ≡ len
unfolding proc_read copy_count
proc_read_behind process ptes w len at h k l =
    let later : (at == 0) ≡ false = ground arith in rw later (ground arith)

add_threads_lem :
    (ts : List (ℕ × ℕ)) (u s : ℕ)
    → ((add_threads ts (u, s)).0 % 2 ^ 64 ≡ (u + (thread_sums ts).0) % 2 ^ 64)
      × ((add_threads ts (u, s)).1 % 2 ^ 64 ≡ (s + (thread_sums ts).1) % 2 ^ 64)
add_threads_lem [] u s = (omega arith, omega arith)
add_threads_lem ((tu, ts) ∷ rest) u s =
    let (hu, hs) = add_threads_lem rest (add64 u tu) (add64 s ts) in (omega arith, omega arith)

one_round_lem :
    (t : Times) (st : ℕ × ℕ)
    → ((one_round t st).0 % 2 ^ 64 ≡ (st.0 + (total t).0) % 2 ^ 64)
      × ((one_round t st).1 % 2 ^ 64 ≡ (st.1 + (total t).1) % 2 ^ 64)
one_round_lem t (u, s) =
    let (hu, hs) = add_threads_lem t.threads (add64 u t.utime) (add64 s t.stime) in
    (omega arith, omega arith)

-- Without a disturbance cpu_measure gives the sums over the exited threads and the threads of the
-- process; a second round adds its sums to those of the first. All this is modulo 2^64.
pub cpu_measure_lem :
    (t : Times) (again : Times)
    → let once = cpu_measure t none in
      let twice = cpu_measure t (some again) in
      (once.0 % 2 ^ 64 ≡ (total t).0 % 2 ^ 64)
      × (once.1 % 2 ^ 64 ≡ (total t).1 % 2 ^ 64)
      × (twice.0 % 2 ^ 64 ≡ ((total t).0 + (total again).0) % 2 ^ 64)
      × (twice.1 % 2 ^ 64 ≡ ((total t).1 + (total again).1) % 2 ^ 64)
unfolding cpu_measure
cpu_measure_lem t again =
    let (u, s) = one_round_lem t (0, 0) in
    let (u', s') = one_round_lem again (one_round t (0, 0)) in
    (omega arith, omega arith, omega arith, omega arith)
