-- ===== src/Watch/Pages.antt =====
-- ram_measure counts the pages whose access bit is set and clears the bits.
use linux_kernel.Prelude.{
  ℕ, ◌≡◌, refl, ap, ◌∙◌, fun_ext, Bool, true, false, ◌||◌, List, [], ◌∷◌, arith, if◌then◌else◌,
  if_cases, ◌==◌, leb, Option, none, some,
}
use linux_kernel.Watch.{
  Mm, kernel_space, accessed, clear_accessed, store, at_pte, measure_page, pages, measure_pages,
  ram_measure,
}

-- The place of the pte of an address, if ram_measure gets to it.
unfoldable pub place : Mm → ℕ → Option ℕ
place mm addr =
    let w = mm.walk addr in
    if leb kernel_space addr || (w.pgd_bad || (w.p4d_bad || (w.pud_bad || w.pmd_bad)))
    then none
    else w.pte

-- measure_page, by that place.
pub measure_page-place :
    (mm : Mm) (addr : ℕ) (st : (ℕ → ℕ) × ℕ) → measure_page mm addr st ≡ at_pte (place mm addr) st
unfolding measure_page place
measure_page-place mm addr st =
    let w = mm.walk addr in
    by_test (leb kernel_space addr || (w.pgd_bad || (w.p4d_bad || (w.pud_bad || w.pmd_bad))))
  where
    by_test :
        (b : Bool)
        → (if b then st else at_pte (mm.walk addr).pte st)
          ≡ at_pte (if b then none else (mm.walk addr).pte) st
    by_test true = refl
    by_test false = refl

clear_accessed_lem : (pte : ℕ) → accessed (clear_accessed pte) ≡ false
clear_accessed_lem pte = ground arith

clear_accessed_idle : (pte : ℕ) → accessed pte ≡ false → clear_accessed pte ≡ pte
clear_accessed_idle pte h = ground arith

store_idle : (ptes : ℕ → ℕ) (k : ℕ) → store ptes k (ptes k) ≡ ptes
store_idle ptes k =
    fun_ext (λ j. if_cases (λ v. v ≡ ptes j) (j == k) (λ h. ap ptes (ground arith)) (λ h. refl))

at_pte_stays :
    (o : Option ℕ) (st : (ℕ → ℕ) × ℕ) (j : ℕ)
    → accessed (st.0 j) ≡ false
    → accessed ((at_pte o st).0 j) ≡ false
at_pte_stays none (ptes, c) j h = h
at_pte_stays (some k) (ptes, c) j h =
    if_cases (λ v. accessed v ≡ false) (j == k) (λ _. clear_accessed_lem (ptes k)) (λ _. h)

measure_page_stays :
    (mm : Mm) (addr : ℕ) (st : (ℕ → ℕ) × ℕ) (j : ℕ)
    → accessed (st.0 j) ≡ false
    → accessed ((measure_page mm addr st).0 j) ≡ false
measure_page_stays mm addr st j h =
    rw (measure_page-place mm addr st) (at_pte_stays (place mm addr) st j h)

measure_pages_stays :
    (mm : Mm) (addrs : List ℕ) (st : (ℕ → ℕ) × ℕ) (j : ℕ)
    → accessed (st.0 j) ≡ false
    → accessed ((measure_pages mm addrs st).0 j) ≡ false
unfolding measure_pages
measure_pages_stays mm [] st j h = h
measure_pages_stays mm (a ∷ rest) st j h =
    measure_pages_stays mm rest (measure_page mm a st) j (measure_page_stays mm a st j h)

-- No page of the list has its access bit set.
data AllClear (mm : Mm) (ptes : ℕ → ℕ) : List ℕ → Type 0 where
  none_left : AllClear mm ptes []
  page :
      {a : ℕ} {rest : List ℕ}
      → ((k : ℕ) → place mm a ≡ some k → accessed (ptes k) ≡ false)
      → AllClear mm ptes rest
      → AllClear mm ptes (a ∷ rest)

at_pte_clears :
    (o : Option ℕ) (st : (ℕ → ℕ) × ℕ) (k : ℕ) → o ≡ some k → accessed ((at_pte o st).0 k) ≡ false
at_pte_clears none st k h = absurd (ground arith)
at_pte_clears (some i) (ptes, c) k h =
    if_cases (λ v. accessed v ≡ false) (k == i) (λ _. clear_accessed_lem (ptes i))
      (λ n. absurd (ground arith))

measure_pages-AllClear :
    (mm : Mm) (addrs : List ℕ) (st : (ℕ → ℕ) × ℕ) → AllClear mm (measure_pages mm addrs st).0 addrs
unfolding measure_pages
measure_pages-AllClear mm [] st = none_left
measure_pages-AllClear mm (a ∷ rest) st =
    page
      (λ k h.
        measure_pages_stays mm rest (measure_page mm a st) k
          (rw (measure_page-place mm a st) (at_pte_clears (place mm a) st k h)))
      (measure_pages-AllClear mm rest (measure_page mm a st))

at_pte_idle :
    (o : Option ℕ) (ptes : ℕ → ℕ) (c : ℕ)
    → ((k : ℕ) → o ≡ some k → accessed (ptes k) ≡ false)
    → at_pte o (ptes, c) ≡ (ptes, c)
at_pte_idle none ptes c h = refl
at_pte_idle (some k) ptes c h =
    rw (clear_accessed_idle (ptes k) (h k refl), store_idle ptes k, h k refl) refl

measure_pages_idle :
    (mm : Mm) (ptes : ℕ → ℕ) (c : ℕ) {addrs : List ℕ}
    → AllClear mm ptes addrs
    → measure_pages mm addrs (ptes, c) ≡ (ptes, c)
unfolding measure_pages
measure_pages_idle mm ptes c none_left = refl
measure_pages_idle mm ptes c (page {a = a} {rest = rest} h l) =
    ap (measure_pages mm rest)
      (measure_page-place mm a (ptes, c) ∙ at_pte_idle (place mm a) ptes c h)
    ∙ measure_pages_idle mm ptes c l

-- A second ram_measure of the same address space, with no access in between, counts no page and
-- changes no pte.
pub ram_measure_twice :
    (mm : Mm) (ptes : ℕ → ℕ) → ram_measure mm (ram_measure mm ptes).0 ≡ ((ram_measure mm ptes).0, 0)
unfolding ram_measure
ram_measure_twice mm ptes =
    measure_pages_idle mm _ 0 (measure_pages-AllClear mm (pages mm.areas) (ptes, 0))
