-- ===== src/Rt/Requeueing.antt =====
-- requeue_task_rt moves entities within their queues, and keeps the class's invariant.
use linux_kernel.Prelude.{
  ℕ, ◌≡◌, refl, sym, ap, ◌∙◌, inl, inr, true, false, not, Bool, List, [], ◌∷◌, arith, if_cases,
  ◌==◌, Bool-cases,
}
use linux_kernel.Sched.{max_rt_prio, update}
use linux_kernel.Wrr.{remove}
use linux_kernel.Wrr.Queue.{contains, Distinct, remove-absent, contains-remove, remove-Distinct}
use linux_kernel.Rt.{RtRq, RtState, is_empty, on_rt_rq, rt_se_prio, rq_of, set_rq, ancestors}
use linux_kernel.Rt.Methods.{move, requeue_rt_entity, requeue_path, requeue_task_rt, yield_task_rt}
use linux_kernel.Rt.Array.{total, IsArray, total-update, total-remove, contains-remove-Distinct}
use linux_kernel.Rt.Linking.{
  added, added-Distinct, length-added, added-is_empty, contains-is_empty, contains-update,
}
use linux_kernel.Rt.Invariant.{IsSound, contains-on}
use linux_kernel.Rt.Agreement.{SameArray, SameArray-update, Agree-rqs}
use linux_kernel.Rt.Accounting.{Agree-IsSound}

module _ (r : RtRq) (prio : ℕ → ℕ) (v : IsArray prio r) (se : ℕ) (head : Bool)
    (c : contains se (r.queue (prio se)) ≡ true) where
  abbrev p : ℕ
  p = prio se

  abbrev rest : ℕ → List ℕ
  rest i = remove se (r.queue i)

  abbrev moved : ℕ → List ℕ
  moved = update rest p (added head se (rest p))

  elsewhere : (i : ℕ) → (i == p) ≡ false → contains se (r.queue i) ≡ false
  elsewhere i e = elim (Bool-cases (contains se (r.queue i))) [
    | inl y ↦ absurd (let k = v.placed i se y in ground arith)
    | inr y ↦ y
  ]

  moved_members : (i q : ℕ) → contains q (moved i) ≡ contains q (r.queue i)
  moved_members i q =
      let u = contains-update head rest p se i q in
      let d = contains-remove-Distinct se q (r.queue i) (v.distinct i) in
      elim (Bool-cases (se == q)) [
        | inl e ↦ (let k = here i q e in ground arith)
        | inr e ↦ ground arith
      ]
    where
      here : (i q : ℕ) → (se == q) ≡ true → contains q (r.queue i) ≡ (p == i)
      here i q e =
          let same : q ≡ se = ground arith in
          ap (λ (x : ℕ). contains x (r.queue i)) same ∙ elim (Bool-cases (p == i)) [
            | inl y ↦
                (ap (λ (j : ℕ). contains se (r.queue j)) (let z : i ≡ p = ground arith in z)
                  ∙ c
                  ∙ sym y)
            | inr y ↦ (elsewhere i (ground arith) ∙ sym y)
          ]

  moved-is_empty : (i : ℕ) → is_empty (moved i) ≡ is_empty (r.queue i)
  moved-is_empty i = elim (Bool-cases (p == i)) [
    | inl y ↦ rw y (
        added-is_empty head se (rest p)
        ∙ sym (
            contains-is_empty se (r.queue i)
              (ap (λ (j : ℕ). contains se (r.queue j)) (ground arith) ∙ c)))
    | inr y ↦ rw y (
        ap (λ (xs : List ℕ). is_empty xs)
          (remove-absent se (r.queue i) (elsewhere i (ground arith))))
  ]

  moved-Distinct : (i : ℕ) → Distinct (moved i)
  moved-Distinct i =
      if_cases (λ (xs : List ℕ). Distinct xs) (p == i)
        (λ _.
          added-Distinct head se (rest p) (contains-remove se (r.queue p) (v.distinct p))
            (remove-Distinct se (r.queue p) (v.distinct p)))
        (λ _. remove-Distinct se (r.queue i) (v.distinct i))

  moved-total : total max_rt_prio moved ≡ total max_rt_prio r.queue
  moved-total =
      let l = v.range p se c in
      let u = total-update max_rt_prio rest p (added head se (rest p)) l in
      let n = length-added head se (rest p) in
      let w = total-remove max_rt_prio r.queue se p l c elsewhere in omega arith

  moved-IsArray : (f : ℕ → ℕ) → IsArray f r → IsArray f (move r p se head)
  moved-IsArray f w = record {
    bits = λ i l. w.bits i l ∙ ap not (sym (moved-is_empty i));
    delimiter = w.delimiter;
    distinct = moved-Distinct;
    placed = λ i q k. w.placed i q (sym (moved_members i q) ∙ k);
    range = λ i q k. w.range i q (sym (moved_members i q) ∙ k);
    count = w.count ∙ sym moved-total;
    address = λ i q k. w.address i q (sym (moved_members i q) ∙ k);
    highest = w.highest;
  }

  pub move-SameArray : SameArray r (move r p se head)
  move-SameArray = record {
    highest_prio = refl;
    rt_nr_running = refl;
    rt_se = refl;
    members = moved_members;
    array = moved-IsArray;
  }

requeue_rt_entity-IsSound :
    {level : ℕ → ℕ} (s : RtState) (se : ℕ) (head : Bool)
    → IsSound level s
    → IsSound level (requeue_rt_entity s se head)
unfolding requeue_rt_entity
requeue_rt_entity-IsSound {level = level} s se head v =
    let g = (s.entities se).rt_rq in
    if_cases (IsSound level) (on_rt_rq s se)
      (λ o.
        let same =
          move-SameArray (s.rqs g) (rt_se_prio s) (v.valid.arrays g) se head
            (contains-on v.valid se o) in
        let t = set_rq s g (move (rq_of s se) (rt_se_prio s se) se head) in
        Agree-IsSound s t
          (Agree-rqs s t refl refl (λ q. refl)
            (SameArray-update s g (move (rq_of s se) (rt_se_prio s se) se head) same))
          v)
      (λ _. v)

requeue_path-IsSound :
    {level : ℕ → ℕ} (s : RtState) (head : Bool) (xs : List ℕ)
    → IsSound level s
    → IsSound level (requeue_path s head xs)
unfolding requeue_path
requeue_path-IsSound s head [] v = v
requeue_path-IsSound s head (se ∷ ups) v =
    requeue_path-IsSound (requeue_rt_entity s se head) head ups
      (requeue_rt_entity-IsSound s se head v)

pub requeue_task_rt-IsSound :
    {level : ℕ → ℕ} (s : RtState) (p : ℕ) (head : Bool)
    → IsSound level s
    → IsSound level (requeue_task_rt s p head)
unfolding requeue_task_rt
requeue_task_rt-IsSound s p head v = requeue_path-IsSound s head (ancestors s p) v

pub yield_task_rt-IsSound :
    {level : ℕ → ℕ} (s : RtState) → IsSound level s → IsSound level (yield_task_rt s)
unfolding yield_task_rt
yield_task_rt-IsSound s v = requeue_task_rt-IsSound s s.curr false v
