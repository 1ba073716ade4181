-- ===== src/Watch/Counting.antt =====
-- What the number is that ram_measure returns.
use linux_kernel.Prelude.{
  ℕ, ◌+◌, ◌-◌, ◌/◌, ◌%◌, ◌^◌, ◌<◌, ◌++◌, ◌≡◌, ◌≢◌, refl, ap, ◌∙◌, List, [], ◌∷◌, arith,
  if◌then◌else◌, if_cases, ◌==◌, Option, none, some,
}
use linux_kernel.Prelude.Words.{u32_mod}
use linux_kernel.Watch.{
  Mm, accessed, clear_accessed, store, at_pte, measure_page, page_number, area_pages, pages,
  measure_pages, ram_measure,
}
use linux_kernel.Watch.Pages.{place, measure_page-place}

abbrev pub set_here : (ℕ → ℕ) → Option ℕ → ℕ
set_here ptes none = 0
set_here ptes (some k) = if accessed (ptes k) then 1 else 0

-- How many of the addresses have a pte whose access bit is set.
unfoldable pub count_set : Mm → (ℕ → ℕ) → List ℕ → ℕ
count_set mm ptes [] = 0
count_set mm ptes (a ∷ rest) = set_here ptes (place mm a) + count_set mm ptes rest

-- No address has its pte at that place.
pub data Fresh (mm : Mm) (k : ℕ) : List ℕ → Type 0 where
  none_left : Fresh mm k []
  other : {a : ℕ} {rest : List ℕ} → place mm a ≢ some k → Fresh mm k rest → Fresh mm k (a ∷ rest)

-- Different addresses have different ptes.
pub data Apart (mm : Mm) : List ℕ → Type 0 where
  empty : Apart mm []
  apart :
      {a : ℕ} {rest : List ℕ}
      → ((k : ℕ) → place mm a ≡ some k → Fresh mm k rest)
      → Apart mm rest
      → Apart mm (a ∷ rest)

set_here-store :
    (ptes : ℕ → ℕ) (k v : ℕ) (o : Option ℕ)
    → o ≢ some k
    → set_here (store ptes k v) o ≡ set_here ptes o
set_here-store ptes k v none h = refl
set_here-store ptes k v (some j) h =
    if_cases (λ x. (if accessed x then 1 else 0) ≡ set_here ptes (some j)) (j == k)
      (λ e. absurd (h (ap some (ground arith)))) (λ _. refl)

count_set-store :
    (mm : Mm) (ptes : ℕ → ℕ) (k v : ℕ) {addrs : List ℕ}
    → Fresh mm k addrs
    → count_set mm (store ptes k v) addrs ≡ count_set mm ptes addrs
unfolding count_set
count_set-store mm ptes k v none_left = refl
count_set-store mm ptes k v (other {a = a} h f) =
    rw (set_here-store ptes k v (place mm a) h, count_set-store mm ptes k v f) refl

-- What one address adds, and that it does not change the others.
at_pte_count :
    (mm : Mm) (ptes : ℕ → ℕ) (c : ℕ) (rest : List ℕ) (o : Option ℕ)
    → ((k : ℕ) → o ≡ some k → Fresh mm k rest)
    → let st = at_pte o (ptes, c) in
      (st.1 + count_set mm st.0 rest) % u32_mod
      ≡ (c + (set_here ptes o + count_set mm ptes rest)) % u32_mod
at_pte_count mm ptes c rest none f = omega arith
at_pte_count mm ptes c rest (some k) f =
    let same = count_set-store mm ptes k (clear_accessed (ptes k)) (f k refl) in
    ground (arith, same)

at_pte_below :
    (o : Option ℕ) (ptes : ℕ → ℕ) (c : ℕ) → c < u32_mod → (at_pte o (ptes, c)).1 < u32_mod
at_pte_below none ptes c l = l
at_pte_below (some k) ptes c l = ground arith

measure_pages_count :
    (mm : Mm) (st : (ℕ → ℕ) × ℕ) {addrs : List ℕ}
    → Apart mm addrs
    → st.1 < u32_mod
    → (measure_pages mm addrs st).1 ≡ (st.1 + count_set mm st.0 addrs) % u32_mod
unfolding measure_pages count_set
measure_pages_count mm st empty l = omega arith
measure_pages_count mm (ptes, c) (apart {a = a} {rest = rest} f p) l =
    measure_pages_count mm (measure_page mm a (ptes, c)) p
      (rw (measure_page-place mm a (ptes, c)) (at_pte_below (place mm a) ptes c l))
    ∙ ap (λ s. (s.1 + count_set mm s.0 rest) % u32_mod) (measure_page-place mm a (ptes, c))
    ∙ at_pte_count mm ptes c rest (place mm a) f

-- All pages of all areas.
abbrev pub all_pages : List (ℕ × ℕ) → List ℕ
all_pages [] = []
all_pages ((vm_start, vm_end) ∷ areas) =
    area_pages vm_start ((vm_end - vm_start) / 4096) ++ all_pages areas

-- Each area has fewer than 2^31 pages.
abbrev pub Small : List (ℕ × ℕ) → Type 0
Small [] = Unit {0}
Small ((vm_start, vm_end) ∷ areas) = ((vm_end - vm_start) / 4096 < 2 ^ 31) × Small areas

pages-Small : (areas : List (ℕ × ℕ)) → Small areas → pages areas ≡ all_pages areas
pages-Small [] h = refl
pages-Small ((vm_start, vm_end) ∷ areas) h =
    let n : page_number vm_start vm_end ≡ (vm_end - vm_start) / 4096 =
      (let l = h.0 in ground arith) in
    ap (λ k. area_pages vm_start k ++ pages areas) n
    ∙ ap (λ xs. area_pages vm_start ((vm_end - vm_start) / 4096) ++ xs) (pages-Small areas h.1)

-- If different pages of the address space have different ptes, and each area has fewer than 2^31
-- pages, ram_measure returns, modulo 2^32, the number of the pages whose access bit was set, those of
-- kernel addresses and of missing tables left out.
pub ram_measure_lem :
    (mm : Mm) (ptes : ℕ → ℕ)
    → Small mm.areas
    → Apart mm (all_pages mm.areas)
    → (ram_measure mm ptes).1 ≡ count_set mm ptes (all_pages mm.areas) % u32_mod
unfolding ram_measure
ram_measure_lem mm ptes small h =
    ap (λ xs. (measure_pages mm xs (ptes, 0)).1) (pages-Small mm.areas small)
    ∙ measure_pages_count mm (ptes, 0) h (omega arith)
    ∙ ap (λ n. n % u32_mod) (omega arith)
