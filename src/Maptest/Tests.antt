-- ===== src/Maptest/Tests.antt =====
-- A text of two characters in frame 5, mapped into an area of two pages.
use linux_kernel.Prelude.{
  ℕ, ◌+◌, ◌-◌, ◌%◌, ◌≡◌, refl, true, ap, sym, Option, none, some, List, [], ◌∷◌, arith, length,
  get_or, ltb, if◌then◌else◌,
}
use linux_kernel.Prelude.Int.{pos}
use linux_kernel.Maptest.{
  State, Mapping, MapsFrames, maptest_init, proc_mmap, proc_mmap_shows, copy_text, load, frame_at,
}

abbrev consecutive : ℕ → ℕ → ℕ → Mapping
consecutive start pfn size = record { start = start; size = size; frame_of = λ i. pfn + i }

abbrev remap : ℕ → ℕ → ℕ → Option Mapping
remap start pfn size = some (consecutive start pfn size)

some_injective_lem : (a b : Mapping) → some a ≡ some b → a ≡ b
some_injective_lem a b h = cc

remap-MapsFrames : MapsFrames remap
remap-MapsFrames = record {
  frames = λ start pfn size m h.
      let e = some_injective_lem (consecutive start pfn size) m h in
      (
        ap (λ (x : Mapping). x.start) (sym e),
        ap (λ (x : Mapping). x.size) (sym e),
        λ i k. ap (λ (x : Mapping). x.frame_of i) (sym e),
      );
}

abbrev content : List ℕ
content = 104 ∷ 105 ∷ []

abbrev blank : State
blank = record { page = none; memory = λ q. q % 256 }

proc_mmap_shows_example :
    let memory = copy_text blank.memory 5 content in
    let m = consecutive 8192 5 (16384 - 8192) in
    (maptest_init content true (some 5) blank
      ≡ some (record { page = some 5; memory = memory }, pos 0))
    × (proc_mmap remap 5 8192 16384 ≡ (some m, pos 0))
    × (m.size ≡ 16384 - 8192)
    × (load memory m 5000 ≡ (
        if ltb 5000 (length content)
        then get_or content 5000 0
        else blank.memory (frame_at 5 + 5000)))
proc_mmap_shows_example =
    proc_mmap_shows remap content blank 5 8192 16384 5000 (consecutive 8192 5 (16384 - 8192))
      remap-MapsFrames refl (omega arith)
