-- ===== src/Rt/Accounting.antt =====
-- update_curr_rt, the throttling, the period timer and the tick keep the class's invariant.
use linux_kernel.Prelude.{
  ℕ, ◌≡◌, refl, true, false, ◌&&◌, ◌||◌, not, Option, none, some, Bool, List, [], ◌∷◌, arith,
  if◌then◌else◌, if_cases, ◌==◌, leb, ltb,
}
use linux_kernel.Prelude.Words.{add64}
use linux_kernel.Sched.{Class, same_class}
use linux_kernel.Rt.{
  RtEnv, RtRq, RtState, runtime_inf, set_rq, set_need_resched, on_rt_rq, ancestors, rt_rq_throttled,
  dequeue_rt_entity,
}
use linux_kernel.Rt.Runtime.{
  enqueue_group, sched_rt_rq_enqueue, sched_rt_rq_dequeue, exceed, over, sched_rt_runtime_exceeded,
  charge_path, charge_task, delta_exec, update_curr_rt,
}
use linux_kernel.Rt.Array.{FindsFirst}
use linux_kernel.Rt.Invariant.{IsSound}
use linux_kernel.Rt.Hierarchy.{dequeue_rt_entity-IsSound, enqueue_rt_entity-IsSound}
use linux_kernel.Rt.Agreement.{
  SameArray, SameArray-refl, SameArray-update, Agree, Agree-rqs, Agree-IsValid, Agree-IsTree,
  set_need_resched-Agree,
}

pub Agree-IsSound : {level : ℕ → ℕ} (s t : RtState) → Agree s t → IsSound level s → IsSound level t
Agree-IsSound s t a v = record {
  tree = Agree-IsTree s t a v.tree;
  valid = Agree-IsValid s t a v.valid;
}

-- The time and the throttle are no part of the array.
pub time-SameArray :
    (r : RtRq) (time : ℕ) (throttled : Bool)
    → SameArray r (record r { rt_time = time; rt_throttled = throttled })
time-SameArray r time throttled = record {
  highest_prio = refl;
  rt_nr_running = refl;
  rt_se = refl;
  members = λ i q. refl;
  array = λ prio a. a;
}

pub exceed-SameArray : (r : RtRq) → SameArray r (exceed r)
unfolding exceed
exceed-SameArray r =
    if_cases (λ (x : RtRq). SameArray r x)
      (leb r.rt_bandwidth.rt_period r.rt_runtime || (r.rt_runtime == runtime_inf))
      (λ _. SameArray-refl r)
      (λ _.
        if_cases (λ (x : RtRq). SameArray r x) (leb r.rt_time r.rt_runtime) (λ _. SameArray-refl r)
          (λ _.
            if_cases (λ (x : RtRq). SameArray r x) (r.rt_bandwidth.rt_runtime == 0)
              (λ _. time-SameArray r 0 r.rt_throttled) (λ _. time-SameArray r r.rt_time true)))

pub set_rq-Agree : (s : RtState) (g : ℕ) (r : RtRq) → SameArray (s.rqs g) r → Agree s (set_rq s g r)
set_rq-Agree s g r a = Agree-rqs s (set_rq s g r) refl refl (λ q. refl) (SameArray-update s g r a)

charge_task-Agree : (s : RtState) (delta : ℕ) → Agree s (charge_task s delta)
unfolding charge_task
charge_task-Agree s delta =
    Agree-rqs s (charge_task s delta) refl refl (λ q. ground arith) (λ g. SameArray-refl (s.rqs g))

module _ (e : RtEnv) (finds : FindsFirst e) {level : ℕ → ℕ} where
  pub resched-IsSound :
      (s : RtState) (p : ℕ) → IsSound level s → IsSound level (set_need_resched s p)
  resched-IsSound s p v = Agree-IsSound s (set_need_resched s p) (set_need_resched-Agree s p) v

  -- The entity of a group is no task.
  sched_rt_rq_dequeue-IsSound :
      (s : RtState) (g : ℕ) → IsSound level s → IsSound level (sched_rt_rq_dequeue e s g)
  unfolding sched_rt_rq_dequeue
  sched_rt_rq_dequeue-IsSound s g v = by_entity (s.rqs g).rt_se refl
    where
      by_entity :
          (o : Option ℕ)
          → (s.rqs g).rt_se ≡ o
          → IsSound level (elim o [
            | none ↦ s
            | some se ↦ if on_rt_rq s se then dequeue_rt_entity e s se else s
          ])
      by_entity none k = v
      by_entity (some se) k =
          let m = v.valid.entity g se k in
          if_cases (IsSound level) (on_rt_rq s se) (λ _. dequeue_rt_entity-IsSound e finds s v se)
            (λ _. v)

  enqueue_group-IsSound :
      (s : RtState) (g : ℕ)
      → IsSound level s
      → (o : Option ℕ) → (s.rqs g).rt_se ≡ o
      → IsSound level (enqueue_group e s o)
  unfolding enqueue_group
  enqueue_group-IsSound s g v none k = v
  enqueue_group-IsSound s g v (some se) k =
      let m = v.valid.entity g se k in
      if_cases (IsSound level) (on_rt_rq s se) (λ _. v)
        (λ _. enqueue_rt_entity-IsSound e finds s v se (λ n. absurd (cc)) false)

  pub sched_rt_rq_enqueue-IsSound :
      (s : RtState) (g : ℕ) → IsSound level s → IsSound level (sched_rt_rq_enqueue e s g)
  unfolding sched_rt_rq_enqueue
  sched_rt_rq_enqueue-IsSound s g v =
      let t = enqueue_group e s (s.rqs g).rt_se in
      let w = enqueue_group-IsSound s g v (s.rqs g).rt_se refl in
      if_cases (IsSound level) ((s.rqs g).rt_nr_running == 0) (λ _. v)
        (λ _.
          if_cases (IsSound level) (ltb (t.rqs g).highest_prio (t.tasks t.curr).prio)
            (λ _. resched-IsSound t t.curr w) (λ _. w))

  pub sched_rt_runtime_exceeded-IsSound :
      (s : RtState) (g : ℕ) → IsSound level s → IsSound level (sched_rt_runtime_exceeded e s g).0
  unfolding sched_rt_runtime_exceeded
  sched_rt_runtime_exceeded-IsSound s g v =
      let r = s.rqs g in
      let t = set_rq s g (exceed r) in
      let w = Agree-IsSound s t (set_rq-Agree s g (exceed r) (exceed-SameArray r)) v in
      if_cases (λ (x : RtState × Bool). IsSound level x.0) r.rt_throttled (λ _. v)
        (λ _.
          if_cases (λ (x : RtState × Bool). IsSound level x.0)
            (over r && rt_rq_throttled (exceed r)) (λ _. sched_rt_rq_dequeue-IsSound t g w)
            (λ _. w))

  charge_path-IsSound :
      (s : RtState) (delta : ℕ) (xs : List ℕ)
      → IsSound level s
      → IsSound level (charge_path e s delta xs)
  unfolding charge_path
  charge_path-IsSound s delta [] v = v
  charge_path-IsSound s delta (se ∷ ups) v =
      let g = (s.entities se).rt_rq in
      let r = s.rqs g in
      let timed = record r { rt_time = add64 r.rt_time delta } in
      let t = set_rq s g timed in
      let w =
        Agree-IsSound s t
          (set_rq-Agree s g timed (time-SameArray r (add64 r.rt_time delta) r.rt_throttled)) v in
      let (u, exceeded) = sched_rt_runtime_exceeded e t g in
      let x = sched_rt_runtime_exceeded-IsSound t g w in
      charge_path-IsSound
        (if r.rt_runtime == runtime_inf
          then s
          else if exceeded
          then set_need_resched u u.curr
          else u)
        delta ups
        (if_cases (IsSound level) (r.rt_runtime == runtime_inf) (λ _. v)
          (λ _. if_cases (IsSound level) exceeded (λ _. resched-IsSound u u.curr x) (λ _. x)))

  pub update_curr_rt-IsSound : (s : RtState) → IsSound level s → IsSound level (update_curr_rt e s)
  unfolding update_curr_rt
  update_curr_rt-IsSound s v =
      let delta = delta_exec s in
      let charged = charge_task s delta in
      let w = Agree-IsSound s charged (charge_task-Agree s delta) v in
      if_cases (IsSound level) (not (same_class (s.tasks s.curr).sched_class Class.rt)) (λ _. v)
        (λ _.
          if_cases (IsSound level) (not s.bandwidth_enabled) (λ _. w)
            (λ _. charge_path-IsSound charged delta (ancestors s s.curr) w))
