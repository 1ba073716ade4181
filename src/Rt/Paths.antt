-- ===== src/Rt/Paths.antt =====
-- The way from an entity to the root, which for_each_sched_rt_entity takes.
use mathlib.Core.Path.{subst}
use linux_kernel.Prelude.{
  ◌≢◌, ℕ, zero, suc, ◌<◌, ◌≤◌, ◌≡◌, refl, sym, ap, ◌∙◌, inl, inr, true, false, Option, none, some,
  List, [], ◌∷◌, arith, ◌==◌, Bool-cases,
}
use linux_kernel.Wrr.Queue.{contains}
use linux_kernel.Rt.{RtEntity, path}
use linux_kernel.Rt.Invariant.{IsTree, group-parent}

-- Each entity of the list is followed by its parent, and the last has none.
abbrev pub Climbs : (ℕ → RtEntity) → List ℕ → Type 0
Climbs es [] = Unit {0}
Climbs es (x ∷ []) = (es x).parent ≡ none
Climbs es (x ∷ y ∷ ys) = ((es x).parent ≡ some y) × Climbs es (y ∷ ys)

pub Climbs-tail : (es : ℕ → RtEntity) (x : ℕ) (ys : List ℕ) → Climbs es (x ∷ ys) → Climbs es ys
Climbs-tail es x [] c = tt
Climbs-tail es x (y ∷ ys) c = c.1

module _ {level : ℕ → ℕ} {levels : ℕ} {es : ℕ → RtEntity} (t : IsTree level levels es) where
  -- Enough fuel for the whole way.
  pub path-Climbs : (n se : ℕ) → level se < n → Climbs es (path n es se)
  unfolding path
  path-Climbs zero se l = tt
  path-Climbs (suc zero) se l = by_parent (es se).parent refl
    where
      by_parent :
          (o : Option ℕ) → (es se).parent ≡ o → Climbs es (se ∷ elim o [ none ↦ [] | some p ↦ [] ])
      by_parent none e = e
      by_parent (some p) e = absurd (let u = t.up se p e in omega arith)
  path-Climbs (suc (suc m)) se l = by_parent (es se).parent refl (λ p k. path-Climbs (suc m) p k)
    where
      by_parent :
          (o : Option ℕ)
          → (es se).parent ≡ o
          → ((p : ℕ) → level p < suc m → Climbs es (path (suc m) es p))
          → Climbs es (se ∷ elim o [ none ↦ [] | some p ↦ path (suc m) es p ])
      by_parent none e r = e
      by_parent (some p) e r = (e, let u = t.up se p e in r p (omega arith))

  pub path-contains : (n se : ℕ) → level se < n → contains se (path n es se) ≡ true
  unfolding path contains
  path-contains zero se l = absurd (omega arith)
  path-contains (suc n) se l = ground arith

  pub Climbs-lower :
      (x : ℕ) (ys : List ℕ)
      → Climbs es (x ∷ ys)
      → (y : ℕ) → contains y ys ≡ true
      → level y < level x
  unfolding contains
  Climbs-lower x [] c y h = absurd (cc)
  Climbs-lower x (z ∷ ys) c y h = elim (Bool-cases (z == y)) [
    | inl e ↦
        (let u = t.up x z c.0 in
          let same = ap level (let k : z ≡ y = ground arith in k) in omega arith)
    | inr e ↦
        (let u = t.up x z c.0 in let r = Climbs-lower z ys c.1 y (ground arith) in omega arith)
  ]

  at_most :
      (z : ℕ) (ys : List ℕ)
      → Climbs es (z ∷ ys)
      → (y : ℕ) → contains y (z ∷ ys) ≡ true
      → level y ≤ level z
  unfolding contains
  at_most z ys c y h = elim (Bool-cases (z == y)) [
    | inl e ↦ (let same = ap level (let k : z ≡ y = ground arith in k) in omega arith)
    | inr e ↦ (let r = Climbs-lower z ys c y (ground arith) in omega arith)
  ]

  -- The entity that stands for the rt_rq of the first one comes next.
  pub Climbs-parent :
      (x : ℕ) (ys : List ℕ)
      → Climbs es (x ∷ ys)
      → (q : ℕ) → (es q).my_q ≡ some (es x).rt_rq
      → contains q ys ≡ true
  unfolding contains
  Climbs-parent x [] c q m = absurd (let p = group-parent t x q m in cc)
  Climbs-parent x (y ∷ ys) c q m =
      let p = group-parent t x q m in let same : y ≡ q = some_eq (sym c.0 ∙ p) in ground arith
    where
      some_eq : {a b : ℕ} → some a ≡ some b → a ≡ b
      some_eq h = cc

  -- The entities above are in other rt_rq's.
  pub Climbs-apart :
      (x : ℕ) (ys : List ℕ)
      → Climbs es (x ∷ ys)
      → (y : ℕ) → contains y ys ≡ true
      → ((es x).rt_rq == (es y).rt_rq) ≡ false
  unfolding contains
  Climbs-apart x [] c y h = absurd (cc)
  Climbs-apart x (z ∷ ys) c y h = elim (Bool-cases ((es x).rt_rq == (es y).rt_rq)) [
    | inl e ↦ absurd (
        let same : (es x).rt_rq ≡ (es y).rt_rq = ground arith in
        let p = group-parent t y z (t.in_group x z c.0 ∙ ap some same) in
        let u = t.up y z p in let below : level y ≤ level z = at_most z ys c.1 y h in omega arith)
    | inr e ↦ e
  ]

  pub path_cons : (n se : ℕ) → level se < n → (ups : List ℕ) × (path n es se ≡ se ∷ ups)
  unfolding path
  path_cons zero se l = absurd (omega arith)
  path_cons (suc n) se l = (_, refl)

  pub above_group :
      (x : ℕ) (ys : List ℕ)
      → Climbs es (x ∷ ys)
      → (y : ℕ) → contains y ys ≡ true
      → (es y).my_q ≢ none
  unfolding contains
  above_group x [] c y h m = absurd (cc)
  above_group x (z ∷ ys) c y h m = elim (Bool-cases (z == y)) [
    | inl e ↦
        some_group (t.in_group x z c.0)
          (ap (λ (k : ℕ). (es k).my_q) (let k : z ≡ y = ground arith in k) ∙ m)
    | inr e ↦ above_group z ys c.1 y (ground arith) m
  ]
    where
      some_group : {o : Option ℕ} {g : ℕ} → o ≡ some g → o ≢ none
      some_group a b = absurd (cc)

  -- Only the first entity of a path can be a task's.
  pub only_base :
      (n se : ℕ)
      → level se < n
      → (y : ℕ) → contains y (path n es se) ≡ true
      → (es y).my_q ≡ none
      → y ≡ se
  unfolding contains
  only_base n se l y h m =
      let (ups, way) = path_cons n se l in
      let climbs = subst (λ (xs : List ℕ). Climbs es xs) way (path-Climbs n se l) in
      let inside : contains y (se ∷ ups) ≡ true = ap (contains y) (sym way) ∙ h in
      elim (Bool-cases (se == y)) [
        | inl e ↦ ground arith
        | inr e ↦ absurd (above_group se ups climbs y (ground arith) m)
      ]
