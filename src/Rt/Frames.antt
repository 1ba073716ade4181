-- ===== src/Rt/Frames.antt =====
-- The loops over the way to the root leave the rt_rq of a group alone that none of the entities is queued in.
use mathlib.Core.Path.{subst}
use linux_kernel.Prelude.{
  ℕ, ◌≤◌, ◌≡◌, refl, sym, ap, ◌∙◌, inl, inr, false, Bool, List, [], ◌∷◌, arith, some, if◌then◌else◌,
  if_cases, ◌==◌, Bool-cases,
}
use linux_kernel.Rt.{
  RtEnv, RtEntity, RtState, path, on_rt_rq, left_out, still_busy, __enqueue_rt_entity,
  __dequeue_rt_entity, dequeue_path, enqueue_path, requeue_groups,
}
use linux_kernel.Rt.Methods.{requeue_rt_entity, requeue_path}
use linux_kernel.Rt.Invariant.{IsTree, group-parent}
use linux_kernel.Rt.Paths.{Climbs, path-Climbs, path_cons}

-- None of the entities is queued in `g`.
abbrev pub Apart : (ℕ → RtEntity) → ℕ → List ℕ → Type 0
Apart es g [] = Unit {0}
Apart es g (x ∷ xs) = (((es x).rt_rq == g) ≡ false) × Apart es g xs

-- What a change of other rt_rq's leaves.
pub record Spared (g : ℕ) (s t : RtState) : Type 0 where
  pub entities : t.entities ≡ s.entities
  pub rq : t.rqs g ≡ s.rqs g

pub Spared-refl : (g : ℕ) (s : RtState) → Spared g s s
Spared-refl g s = record { entities = refl; rq = refl }

pub Spared-trans : {g : ℕ} {s t u : RtState} → Spared g s t → Spared g t u → Spared g s u
Spared-trans a b = record { entities = b.entities ∙ a.entities; rq = b.rq ∙ a.rq }

module _ (e : RtEnv) (g : ℕ) where
  __enqueue_rt_entity-Spared :
      (s : RtState) (x : ℕ) (head : Bool)
      → ((s.entities x).rt_rq == g) ≡ false
      → Spared g s (__enqueue_rt_entity s x head)
  unfolding __enqueue_rt_entity
  __enqueue_rt_entity-Spared s x head h =
      if_cases (λ (t : RtState). Spared g s t) (left_out s x) (λ _. Spared-refl g s)
        (λ _. record { entities = refl; rq = rw h refl })

  __dequeue_rt_entity-Spared :
      (s : RtState) (x : ℕ)
      → ((s.entities x).rt_rq == g) ≡ false
      → Spared g s (__dequeue_rt_entity e s x)
  unfolding __dequeue_rt_entity
  __dequeue_rt_entity-Spared s x h = record { entities = refl; rq = rw h refl }

  pub dequeue_path-Spared :
      (s : RtState) (xs : List ℕ) → Apart s.entities g xs → Spared g s (dequeue_path e s xs)
  unfolding dequeue_path
  dequeue_path-Spared s [] a = Spared-refl g s
  dequeue_path-Spared s (x ∷ ups) a =
      let t = dequeue_path e s ups in
      let k = dequeue_path-Spared s ups a.1 in
      if_cases (λ (u : RtState). Spared g s u) (on_rt_rq t x)
        (λ _. Spared-trans k (__dequeue_rt_entity-Spared t x (rw (k.entities) a.0))) (λ _. k)

  pub enqueue_path-Spared :
      (s : RtState) (head : Bool) (xs : List ℕ)
      → Apart s.entities g xs
      → Spared g s (enqueue_path s head xs)
  unfolding enqueue_path
  enqueue_path-Spared s head [] a = Spared-refl g s
  enqueue_path-Spared s head (x ∷ ups) a =
      let t = __enqueue_rt_entity s x head in
      let k = __enqueue_rt_entity-Spared s x head a.0 in
      Spared-trans k (enqueue_path-Spared t head ups (rw (k.entities) a.1))

  pub requeue_groups-Spared :
      (s : RtState) (xs : List ℕ) → Apart s.entities g xs → Spared g s (requeue_groups s xs)
  unfolding requeue_groups
  requeue_groups-Spared s [] a = Spared-refl g s
  requeue_groups-Spared s (x ∷ ups) a =
      let t = if still_busy s x then __enqueue_rt_entity s x false else s in
      let k =
        if_cases (λ (u : RtState). Spared g s u) (still_busy s x)
          (λ _. __enqueue_rt_entity-Spared s x false a.0) (λ _. Spared-refl g s) in
      Spared-trans k (requeue_groups-Spared t ups (rw (k.entities) a.1))

  pub requeue_path-Spared :
      (s : RtState) (head : Bool) (xs : List ℕ)
      → Apart s.entities g xs
      → Spared g s (requeue_path s head xs)
  unfolding requeue_path requeue_rt_entity
  requeue_path-Spared s head [] a = Spared-refl g s
  requeue_path-Spared s head (x ∷ ups) a =
      let t = requeue_rt_entity s x head in
      let k =
        if_cases (λ (u : RtState). Spared g s u) (on_rt_rq s x)
          (λ _. record { entities = refl; rq = rw a.0 refl }) (λ _. Spared-refl g s) in
      Spared-trans k (requeue_path-Spared t head ups (rw (k.entities) a.1))

module _ {level : ℕ → ℕ} {levels : ℕ} {es : ℕ → RtEntity} (t : IsTree level levels es) where
  not_in_group :
      (se g x : ℕ) → (es se).my_q ≡ some g → level x ≤ level se → ((es x).rt_rq == g) ≡ false
  not_in_group se g x m l = elim (Bool-cases ((es x).rt_rq == g)) [
    | inl y ↦ absurd (
        let same : g ≡ (es x).rt_rq = ground arith in
        let p = group-parent t x se (m ∙ ap some same) in let u = t.up x se p in omega arith)
    | inr y ↦ y
  ]

  -- No entity at the level of a group's entity or above it is queued in that group.
  pub above-Apart :
      (se g x : ℕ) (ys : List ℕ)
      → (es se).my_q ≡ some g
      → level x ≤ level se
      → Climbs es (x ∷ ys)
      → Apart es g (x ∷ ys)
  above-Apart se g x [] m l c = (not_in_group se g x m l, tt)
  above-Apart se g x (y ∷ ys) m l c =
      let u = t.up x y c.0 in
      let rest = above-Apart se g y ys m (omega arith) c.1 in (not_in_group se g x m l, rest)

  pub group_path-Apart : (se g : ℕ) → (es se).my_q ≡ some g → Apart es g (path levels es se)
  group_path-Apart se g m =
      let (ups, way) = path_cons t levels se (t.deep se) in
      let climbs =
        subst (λ (xs : List ℕ). Climbs es xs) way (path-Climbs t levels se (t.deep se)) in
      subst (λ (xs : List ℕ). Apart es g xs) (sym way)
        (above-Apart se g se ups m (omega arith) climbs)
