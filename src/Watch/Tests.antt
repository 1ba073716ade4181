-- ===== src/Watch/Tests.antt =====
-- A process with two pages and two threads, and the theorems at it.
use linux_kernel.Prelude.{
  ℕ, ◌%◌, ◌≡◌, refl, false, [], ◌∷◌, arith, if◌then◌else◌, ◌==◌, none, some, replicate,
}
use linux_kernel.Prelude.Words.{u32_mod}
use linux_kernel.Prelude.Int.{pos}
use linux_kernel.Watch.{
  Watch, Process, Times, Mm, update_status, int_to_u64, ram_measure, measure_pages, measure_page,
  pages, cpu_measure, nsecc_to_clock_t, strlen,
}
use linux_kernel.Watch.Output.{report, Shows, update_status_lem}
use linux_kernel.Watch.Pages.{place}
use linux_kernel.Watch.Counting.{
  Apart, empty, apart, none_left, other, count_set, all_pages, ram_measure_lem,
}

abbrev mm : Mm
mm = record {
  areas = (4096, 12288) ∷ [];
  walk = λ addr. record {
    pgd_bad = false;
    p4d_bad = false;
    pud_bad = false;
    pmd_bad = false;
    pte = some (if addr == 4096 then 0 else 1);
  };
}

abbrev ptes : ℕ → ℕ
ptes k = if k == 0 then 0x27 else 0x7

abbrev times : Times
times = record { utime = 50000000; stime = 0; threads = (30000000, 20000000) ∷ (0, 10000000) ∷ [] }

abbrev process : Process
process = record { mm = mm; times = times; again = none; cutime = 0; cstime = 0 }

abbrev watch : Watch
watch = record { output = replicate 128 0; out_len = 10; pid_measured = pos 7 }

one_page : (ram_measure mm ptes).1 ≡ 1
unfolding ram_measure measure_pages measure_page
one_page = refl

update_status_lem_example :
    let w' = (update_status (some process) ptes watch).0 in
    let times = cpu_measure process.times process.again in
    Shows
      (report (
        int_to_u64 (ram_measure process.mm ptes).1
        ∷ nsecc_to_clock_t (times.0)
        ∷ nsecc_to_clock_t (times.1)
        ∷ nsecc_to_clock_t process.cutime
        ∷ nsecc_to_clock_t process.cstime
        ∷ []))
      w'
    × (w'.out_len ≡ strlen w'.output)
update_status_lem_example = update_status_lem process ptes watch refl

different : Apart mm (all_pages mm.areas)
unfolding place
different = apart (λ k h. other (λ e. ground arith) none_left) (apart (λ k h. none_left) empty)

ram_measure_lem_example : (ram_measure mm ptes).1 ≡ count_set mm ptes (all_pages mm.areas) % u32_mod
ram_measure_lem_example = ram_measure_lem mm ptes (omega arith, tt) different

-- An area of 2^31 pages is not walked, and a count of 2^32 - 1 is shown as 2^64 - 1.
large_area : pages ((0, 0x80000000000) ∷ []) ≡ []
large_area = refl

negative_count : int_to_u64 0xFFFFFFFF ≡ 0xFFFFFFFFFFFFFFFF
negative_count = refl
