-- ===== src/Rt/Leaving.antt =====
-- One entity leaves its queue: __dequeue_rt_entity.
use linux_kernel.Prelude.{
  ℕ, ◌≡◌, refl, ap, ◌∙◌, inl, inr, true, false, not, ◌&&◌, some, List, arith, if◌then◌else◌, ◌==◌,
  Bool-cases,
}
use linux_kernel.Sched.{max_rt_prio, update}
use linux_kernel.Wrr.{remove}
use linux_kernel.Wrr.Queue.{contains}
use linux_kernel.Rt.{
  RtEnv, RtRq, RtState, on_queues, on_rt_rq, rt_se_prio, rt_se_boosted, unlink, dec_rt_tasks,
  __dequeue_rt_entity,
}
use linux_kernel.Rt.Array.{contains-remove-Distinct, FindsFirst}
use linux_kernel.Rt.Linking.{unlink-IsArray}
use linux_kernel.Rt.Changes.{on_queues-remove, queue-dec_rt_tasks, rt_se-dec_rt_tasks}
use linux_kernel.Rt.Invariant.{IsValid, Fits, on-contains, contains-on, update-IsValid}

-- What a change of the queues leaves alone.
pub record Kept (s t : RtState) : Type 0 where
  pub tasks : t.tasks ≡ s.tasks
  pub entities : t.entities ≡ s.entities
  pub levels : t.levels ≡ s.levels
  pub curr : t.curr ≡ s.curr

-- The entities that are queued after `se` left.
pub record Left (se : ℕ) (s t : RtState) : Type 0 where
  pub kept : Kept s t
  pub valid : IsValid t
  pub on : (q : ℕ) → on_rt_rq t q ≡ (not (se == q) && on_rt_rq s q)

-- The entity that stands for the rt_rq of `se`, if there is one, is not queued.
abbrev pub ParentOff : RtState → ℕ → Type 0
ParentOff s se = (q : ℕ) → (s.entities q).my_q ≡ some (s.entities se).rt_rq → on_rt_rq s q ≡ false

module _ (e : RtEnv) (finds : FindsFirst e) (s : RtState) (v : IsValid s) (se : ℕ)
    (o : on_rt_rq s se ≡ true) (off : ParentOff s se) where
  abbrev g : ℕ
  g = (s.entities se).rt_rq

  abbrev prio : ℕ
  prio = rt_se_prio s se

  abbrev out : RtRq
  out = dec_rt_tasks e (rt_se_boosted s se) prio (unlink (s.rqs g) prio se)

  out-queue : (i : ℕ) → out.queue i ≡ remove se ((s.rqs g).queue i)
  out-queue i =
      ap (λ (q : ℕ → List ℕ). q i) (queue-dec_rt_tasks e (rt_se_boosted s se) prio se (s.rqs g))

  was_in : (i q : ℕ) → contains q (out.queue i) ≡ true → contains q ((s.rqs g).queue i) ≡ true
  was_in i q c =
      let same = ap (contains q) (out-queue i) in
      let r = contains-remove-Distinct se q ((s.rqs g).queue i) ((v.arrays g).distinct i) in
      ground arith

  out-Fits : Fits s g out
  out-Fits = record {
    off = off;
    array =
        unlink-IsArray (rt_se_prio s) (s.rqs g) (v.arrays g) se e (rt_se_boosted s se) finds
          (contains-on v se o);
    same_se = rt_se-dec_rt_tasks e (rt_se_boosted s se) prio se (s.rqs g);
    members = λ i q c. v.owner g i q (was_in i q c);
    outside = λ i q c m.
        absurd (let y = on-contains v g i q (was_in i q c) in let n = off q m in ground arith);
    runs = λ i q h c m. v.busy q h (on-contains v g i q (was_in i q c)) m;
  }

  dequeued_on :
      (q : ℕ)
      → on_queues max_rt_prio (update s.rqs g out (s.entities q).rt_rq).queue q
        ≡ (not (se == q) && on_rt_rq s q)
  dequeued_on q = elim (Bool-cases (g == (s.entities q).rt_rq)) [
    | inl y ↦ rw y (
        ap (λ (f : ℕ → List ℕ). on_queues max_rt_prio f q)
          (queue-dec_rt_tasks e (rt_se_boosted s se) prio se (s.rqs g))
        ∙ on_queues-remove max_rt_prio (s.rqs g).queue se q (v.arrays g).distinct
        ∙ ap (λ (h : ℕ). not (se == q) && on_queues max_rt_prio (s.rqs h).queue q) (ground arith))
    | inr y ↦ rw y (let d = other_entity q y in rw d refl)
  ]
    where
      other_entity : (q : ℕ) → (g == (s.entities q).rt_rq) ≡ false → (se == q) ≡ false
      other_entity q y = elim (Bool-cases (se == q)) [
        | inl k ↦ absurd (
            let same = ap (λ (x : ℕ). (s.entities x).rt_rq) (let z : se ≡ q = ground arith in z) in
            ground arith)
        | inr k ↦ k
      ]

  pub __dequeue_rt_entity-Left : Left se s (__dequeue_rt_entity e s se)
  unfolding __dequeue_rt_entity
  __dequeue_rt_entity-Left = record {
    kept = record { tasks = refl; entities = refl; levels = refl; curr = refl };
    valid =
        update-IsValid s g out
          (if out.rt_nr_running == 0 then remove g s.leaf_rt_rq_list else s.leaf_rt_rq_list) v
          out-Fits;
    on = dequeued_on;
  }
