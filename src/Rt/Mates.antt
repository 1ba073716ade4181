-- ===== src/Rt/Mates.antt =====
-- The queue of a task that is requeued with its groups.
use mathlib.Core.Path.{subst}
use linux_kernel.Prelude.{
  ℕ, zero, suc, ◌<◌, ◌≡◌, refl, ap, ◌∙◌, inl, inr, true, false, ◌||◌, Bool, List, [], ◌∷◌, ◌++◌,
  arith, if◌then◌else◌, if_cases, ◌==◌, Bool-cases,
}
use linux_kernel.Sched.{max_rt_prio}
use linux_kernel.Wrr.{remove}
use linux_kernel.Wrr.Queue.{contains}
use linux_kernel.Core.Setscheduler.Frames.{itself}
use linux_kernel.Rt.{RtEnv, RtRq, RtState, on_rt_rq, rq_of, rt_se_prio, set_rq, ancestors}
use linux_kernel.Rt.Methods.{
  linked_in, has_other, has_company, any_company, move, requeue_rt_entity, requeue_path,
  requeue_task_rt,
}
use linux_kernel.Rt.Invariant.{IsSound, contains-on}
use linux_kernel.Rt.Paths.{Climbs, path-Climbs, path_cons}
use linux_kernel.Rt.Frames.{Apart, above-Apart, requeue_path-Spared}

linked_in-contains :
    (n : ℕ) (q : ℕ → List ℕ) (se i : ℕ)
    → i < n
    → contains se (q i) ≡ true
    → ((j : ℕ) → (j == i) ≡ false → contains se (q j) ≡ false)
    → linked_in n q se ≡ q i
unfolding linked_in
linked_in-contains zero q se i l c h = absurd (omega arith)
linked_in-contains (suc n) q se i l c h = elim (Bool-cases (n == i)) [
  | inl y ↦
      (let same : n ≡ i = ground arith in
        let here = ap (λ (j : ℕ). contains se (q j)) same ∙ c in rw here (ap q same))
  | inr y ↦
      (let away = h n y in
        let rest = linked_in-contains n q se i (ground arith) c h in rw away rest)
]

module _ (e : RtEnv) {level : ℕ → ℕ} (u : RtState) (v : IsSound level u) (p : ℕ) where
  abbrev q : ℕ
  q = rt_se_prio u p

  -- What p's queue holds.
  abbrev mates : List ℕ
  mates = (rq_of u p).queue q

  alone_in : (o : on_rt_rq u p ≡ true) → linked_in max_rt_prio (rq_of u p).queue p ≡ mates
  alone_in o =
      let a = v.valid.arrays (u.entities p).rt_rq in
      let c = contains-on v.valid p o in
      linked_in-contains max_rt_prio (rq_of u p).queue p q (a.range q p c) c (λ j n. elsewhere j n)
    where
      elsewhere : (j : ℕ) → (j == q) ≡ false → contains p ((rq_of u p).queue j) ≡ false
      elsewhere j n = elim (Bool-cases (contains p ((rq_of u p).queue j))) [
        | inl y ↦
            absurd (let k = (v.valid.arrays (u.entities p).rt_rq).placed j p y in ground arith)
        | inr y ↦ y
      ]

  -- The entities above p are in other rt_rq's than p.
  ups-Apart :
      (ups : List ℕ) → Climbs u.entities (p ∷ ups) → Apart u.entities (u.entities p).rt_rq ups
  ups-Apart [] c = tt
  ups-Apart (x ∷ ups) c =
      above-Apart v.tree x (u.entities p).rt_rq x ups (v.tree.in_group p x c.0) (omega arith) c.1

  pub requeued_at_end :
      (o : on_rt_rq u p ≡ true)
      → ((requeue_task_rt u p false).rqs (u.entities p).rt_rq).queue q ≡ remove p mates ++ (p ∷ [])
  unfolding requeue_task_rt requeue_path requeue_rt_entity
  requeued_at_end o =
      let g = (u.entities p).rt_rq in
      let (ups, way) = path_cons v.tree u.levels p (v.tree.deep p) in
      let climbs =
        subst (λ (xs : List ℕ). Climbs u.entities xs) way
          (path-Climbs v.tree u.levels p (v.tree.deep p)) in
      let r = move (rq_of u p) q p false in
      let t = set_rq u g r in
      let first : requeue_rt_entity u p false ≡ t = ap (λ b. if b then t else u) o in
      let spared = requeue_path-Spared e g t false ups (ups-Apart ups climbs) in
      let rest = remove p mates ++ (p ∷ []) in
      ap (λ (xs : List ℕ). ((requeue_path u false xs).rqs g).queue q) way
      ∙ ap (λ (w : RtState). ((requeue_path w false ups).rqs g).queue q) first
      ∙ ap (λ (x : RtRq). x.queue q) (spared.rq ∙ ap (λ b. if b then r else u.rqs g) (itself g))
      ∙ ap (λ b. if b then rest else remove p mates) (itself q)

  pub company :
      (o : on_rt_rq u p ≡ true) → has_other mates ≡ true → any_company u (ancestors u p) ≡ true
  unfolding any_company has_company
  company o h =
      let (ups, way) = path_cons v.tree u.levels p (v.tree.deep p) in
      let here : has_company u p ≡ true = ap has_other (alone_in o) ∙ h in
      ap (any_company u) way ∙ ap (λ b. b || any_company u ups) here

pub requeue_entities :
    (s : RtState) (head : Bool) (xs : List ℕ) → (requeue_path s head xs).entities ≡ s.entities
unfolding requeue_path requeue_rt_entity
requeue_entities s head [] = refl
requeue_entities s head (x ∷ xs) =
    let t = requeue_rt_entity s x head in
    requeue_entities t head xs
    ∙ if_cases (λ (u : RtState). u.entities ≡ s.entities) (on_rt_rq s x) (λ _. refl) (λ _. refl)
