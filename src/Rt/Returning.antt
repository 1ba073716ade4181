-- ===== src/Rt/Returning.antt =====
-- sched_rt_runtime_exceeded and do_sched_rt_period_timer for a group with an entity.
use mathlib.Core.Path.{subst}
use linux_kernel.Prelude.{
  ℕ, ◌-◌, ◌*◌, ◌<◌, ◌≡◌, refl, sym, ap, ◌∙◌, true, false, ◌&&◌, ◌||◌, not, Bool, none, some, Option,
  arith, if◌then◌else◌, if_cases, ◌==◌, ltb, leb,
}
use linux_kernel.Prelude.Words.{u64_mod}
use linux_kernel.Prelude.Int.{negsuc}
use linux_kernel.Core.Setscheduler.Frames.{itself}
use linux_kernel.Rt.{
  RtEnv, RtRq, RtState, runtime_inf, set_rq, set_need_resched, on_rt_rq, rt_rq_throttled,
  dequeue_rt_entity,
}
use linux_kernel.Rt.Runtime.{
  exceed, over, sched_rt_rq_dequeue, sched_rt_runtime_exceeded, enqueue_group, sched_rt_rq_enqueue,
  replenish, do_sched_rt_period_timer,
}
use linux_kernel.Rt.Array.{FindsFirst}
use linux_kernel.Rt.Invariant.{IsSound}
use linux_kernel.Rt.Agreement.{Agree-on}
use linux_kernel.Rt.Accounting.{Agree-IsSound, exceed-SameArray, set_rq-Agree}
use linux_kernel.Rt.Replacing.{replaced, replenish-SameArray}
use linux_kernel.Rt.Period.{replenish_lem}
use linux_kernel.Rt.Throttling.{dequeue_throttled, dequeue_spares, enqueue_let_in, enqueue_spares}

-- Whether an rt_rq that is not throttled is to be.
abbrev pub runs_out : RtRq → Bool
runs_out r =
    not (leb r.rt_bandwidth.rt_period r.rt_runtime)
    && not (r.rt_runtime == runtime_inf)
    && ltb r.rt_runtime r.rt_time
    && not (r.rt_bandwidth.rt_runtime == 0)
    && (r.rt_nr_boosted == 0)

runs_out-over :
    (r : RtRq) → r.rt_throttled ≡ false → (over r && rt_rq_throttled (exceed r)) ≡ runs_out r
unfolding over exceed
runs_out-over r h = ground arith

module _ (e : RtEnv) (finds : FindsFirst e) {level : ℕ → ℕ} (s : RtState) (v : IsSound level s)
    (g se : ℕ) (own : (s.rqs g).rt_se ≡ some se) where
  -- The group's entity is queued or not, and its rt_rq is as before.
  abbrev Stands : Bool → RtState → Type 0
  Stands b t = (on_rt_rq t se ≡ b) × (t.rqs g ≡ s.rqs g)

  dequeue_own : sched_rt_rq_dequeue e s g ≡ (if on_rt_rq s se then dequeue_rt_entity e s se else s)
  unfolding sched_rt_rq_dequeue
  dequeue_own =
      ap
        (λ (o : Option ℕ). elim o [
          | none ↦ s
          | some x ↦ if on_rt_rq s x then dequeue_rt_entity e s x else s
        ])
        own

  sched_rt_rq_dequeue_throttled :
      rt_rq_throttled (s.rqs g) ≡ true → Stands false (sched_rt_rq_dequeue e s g)
  sched_rt_rq_dequeue_throttled h =
      let m = v.valid.entity g se own in
      subst (Stands false) (sym dequeue_own) (
        if_cases (Stands false) (on_rt_rq s se)
          (λ _. (dequeue_throttled e finds s v g se m h, dequeue_spares e finds s v g se m))
          (λ o. (o, refl)))

  enqueue_own :
      ((s.rqs g).rt_nr_running == 0) ≡ false
      → (let t = enqueue_group e s (some se) in
          if ltb (t.rqs g).highest_prio (t.tasks t.curr).prio then set_need_resched t t.curr else t)
        ≡ sched_rt_rq_enqueue e s g
  unfolding sched_rt_rq_enqueue
  enqueue_own n =
      let resched = λ (t : RtState).
        if ltb (t.rqs g).highest_prio (t.tasks t.curr).prio then set_need_resched t t.curr else t in
      ap (λ (o : Option ℕ). resched (enqueue_group e s o)) (sym own)
      ∙ ap (λ (b : Bool). if b then s else resched (enqueue_group e s (s.rqs g).rt_se)) (sym n)

  sched_rt_rq_enqueue_lifted :
      rt_rq_throttled (s.rqs g) ≡ false
      → ((s.rqs g).rt_nr_running == 0) ≡ false
      → Stands true (sched_rt_rq_enqueue e s g)
  unfolding enqueue_group
  sched_rt_rq_enqueue_lifted h n =
      let m = v.valid.entity g se own in
      let t = enqueue_group e s (some se) in
      let k =
        if_cases (Stands true) (on_rt_rq s se) (λ o. (o, refl))
          (λ _. (
            enqueue_let_in e finds s v g se m false h n,
            enqueue_spares e finds s v g se m false,
          )) in
      subst (Stands true) (enqueue_own n) (
        if_cases (Stands true) (ltb (t.rqs g).highest_prio (t.tasks t.curr).prio) (λ _. k) (λ _. k))

module _ (e : RtEnv) (finds : FindsFirst e) {level : ℕ → ℕ} (s : RtState) (v : IsSound level s)
    (g se : ℕ) (own : (s.rqs g).rt_se ≡ some se) where
  abbrev Answers : RtState × Bool → Type 0
  Answers x =
      (x.1 ≡ runs_out (s.rqs g))
      × (on_rt_rq x.0 se ≡ (not (runs_out (s.rqs g)) && on_rt_rq s se))
      × (x.0.rqs g ≡ exceed (s.rqs g))

  exceeded_Answers :
      (s.rqs g).rt_throttled ≡ false
      → (t : RtState) → t ≡ set_rq s g (exceed (s.rqs g))
      → Answers (
          if over (s.rqs g) && rt_rq_throttled (exceed (s.rqs g))
          then (sched_rt_rq_dequeue e t g, true)
          else (t, false))
  exceeded_Answers h t k =
      let r = s.rqs g in
      let a = set_rq-Agree s g (exceed r) (exceed-SameArray r) in
      let at : t.rqs g ≡ exceed r =
        ap (λ (u : RtState). u.rqs g) k ∙ ap (λ b. if b then exceed r else r) (itself g) in
      let own' = ap (λ (x : RtRq). x.rt_se) at ∙ (exceed-SameArray r).rt_se ∙ own in
      let was = ap (λ (u : RtState). on_rt_rq u se) k ∙ Agree-on s (set_rq s g (exceed r)) a se in
      let w = subst (IsSound level) (sym k) (Agree-IsSound s (set_rq s g (exceed r)) a v) in
      let answer = runs_out-over r h in
      if_cases Answers (over r && rt_rq_throttled (exceed r))
        (λ c.
          let thr = ap (λ (x : RtRq). rt_rq_throttled x) at ∙ throttles r c in
          let out = sched_rt_rq_dequeue_throttled e finds t w g se own' thr in
          let yes = sym answer ∙ c in
          (sym yes, out.0 ∙ ap (λ b. not b && on_rt_rq s se) (sym yes), out.1 ∙ at))
        (λ c.
          let no = sym answer ∙ c in (sym no, was ∙ ap (λ b. not b && on_rt_rq s se) (sym no), at))
    where
      throttles :
          (r : RtRq)
          → (over r && rt_rq_throttled (exceed r)) ≡ true
          → rt_rq_throttled (exceed r) ≡ true
      throttles r c = ground arith

  -- For a group with an entity, that is not throttled, in a hierarchy that is a tree with the invariant of the
  -- class: sched_rt_runtime_exceeded says that the runtime is exceeded exactly if it is finite and below
  -- the period, the accumulated time is above it, the group's own bandwidth is not 0, and no task in
  -- the group is boosted; the group's entity is then off its queue, and else queued as before; and of
  -- the group's rt_rq only the throttle and, for a bandwidth of 0, the accumulated time change.
  pub sched_rt_runtime_exceeded_lem :
      (s.rqs g).rt_throttled ≡ false
      → ((sched_rt_runtime_exceeded e s g).1 ≡ runs_out (s.rqs g))
        × (on_rt_rq (sched_rt_runtime_exceeded e s g).0 se
            ≡ (not (runs_out (s.rqs g)) && on_rt_rq s se))
        × ((sched_rt_runtime_exceeded e s g).0.rqs g ≡ exceed (s.rqs g))
  unfolding sched_rt_runtime_exceeded
  sched_rt_runtime_exceeded_lem h =
      let r = s.rqs g in
      let t = set_rq s g (exceed r) in
      if_cases Answers r.rt_throttled (λ y. absurd (let no = h in ground arith))
        (λ _. exceeded_Answers h t refl)

  -- The group is back.
  abbrev Back : ℕ → RtState → Type 0
  Back overrun t =
      ((t.rqs g).rt_throttled ≡ false)
      × ((t.rqs g).rt_time ≡ (s.rqs g).rt_time - overrun * (s.rqs g).rt_runtime)
      × (on_rt_rq t se ≡ true)

  returned :
      (overrun : ℕ)
      → (s.rqs g).rt_throttled ≡ true
      → ((s.rqs g).rt_nr_running == 0) ≡ false
      → overrun * (s.rqs g).rt_runtime < u64_mod
      → (s.rqs g).rt_time - overrun * (s.rqs g).rt_runtime < (s.rqs g).rt_runtime
      → (w : RtState) → w.entities ≡ s.entities
      → w.levels ≡ s.levels
      → w.rqs ≡ s.rqs
      → w.tasks ≡ s.tasks
      → Back overrun (sched_rt_rq_enqueue e (set_rq w g (replenish (s.rqs g) overrun).0) g)
  returned overrun h n f l w en le rq ta =
      let r = s.rqs g in
      let r' = (replenish r overrun).0 in
      let (time, throttled, reports) = replenish_lem r overrun f in
      let a = replenish-SameArray r overrun in
      let changed = set_rq w g r' in
      let at : changed.rqs g ≡ r' = ap (λ b. if b then r' else w.rqs g) (itself g) in
      let sound = replaced s w g r' en le rq ta a v in
      let free : r'.rt_throttled ≡ false = ground arith in
      let here = ap (λ (x : RtRq). x.rt_throttled) at ∙ free in
      let k =
        sched_rt_rq_enqueue_lifted e finds changed sound g se
          (ap (λ (x : RtRq). x.rt_se) at ∙ a.rt_se ∙ own)
          (ap (λ b. b && ((changed.rqs g).rt_nr_boosted == 0)) here)
          (ap (λ (x : RtRq). x.rt_nr_running == 0) at ∙ ap (λ m. m == 0) a.rt_nr_running ∙ n) in
      (
        ap (λ (x : RtRq). x.rt_throttled) (k.1 ∙ at) ∙ free,
        ap (λ (x : RtRq). x.rt_time) (k.1 ∙ at) ∙ time,
        k.0,
      )

  -- For a group with an entity, throttled, with tasks and with an accumulated time that is not 0, in a
  -- hierarchy that is a tree with the invariant of the class, and a bit search that finds the lowest
  -- bit: if the overrun periods give it runtime enough to come below its runtime, counted in 64 bits,
  -- then do_sched_rt_period_timer lifts its throttle and takes that runtime off its time, and its
  -- entity is queued again.
  pub do_sched_rt_period_timer_lem :
      (overrun : ℕ)
      → (s.rqs g).rt_throttled ≡ true
      → ((s.rqs g).rt_nr_running == 0) ≡ false
      → ((s.rqs g).rt_time == 0) ≡ false
      → overrun * (s.rqs g).rt_runtime < u64_mod
      → (s.rqs g).rt_time - overrun * (s.rqs g).rt_runtime < (s.rqs g).rt_runtime
      → (((do_sched_rt_period_timer e s g overrun).0.rqs g).rt_throttled ≡ false)
        × (((do_sched_rt_period_timer e s g overrun).0.rqs g).rt_time
            ≡ (s.rqs g).rt_time - overrun * (s.rqs g).rt_runtime)
        × (on_rt_rq (do_sched_rt_period_timer e s g overrun).0 se ≡ true)
  unfolding do_sched_rt_period_timer
  do_sched_rt_period_timer_lem overrun h n z f l =
      let r = s.rqs g in
      let (r', lifted) = replenish r overrun in
      let (time, throttled, reports) = replenish_lem r overrun f in
      let lift : lifted ≡ true = ground arith in
      let waked = record s { skip_clock_update = negsuc 0 } in
      let cond = lifted && not (r.rt_nr_running == 0) && (s.curr == s.idle) in
      let changed = if r.rt_time == 0 then s else set_rq (if cond then waked else s) g r' in
      let enqueue =
        if r.rt_time == 0 then not (r.rt_nr_running == 0) && not (rt_rq_throttled r) else lifted in
      let back = returned overrun h n f l in
      let b =
        if_cases (Back overrun) enqueue
          (λ _.
            if_cases (λ (c : RtState). Back overrun (sched_rt_rq_enqueue e c g)) (r.rt_time == 0)
              (λ y. absurd (let no = z in ground arith))
              (λ _.
                if_cases (λ (w : RtState). Back overrun (sched_rt_rq_enqueue e (set_rq w g r') g))
                  cond (λ _. back waked refl refl refl refl) (λ _. back s refl refl refl refl)))
          (λ y. absurd (let no = z in let up = lift in ground arith)) in
      if_cases (λ (x : RtState × Bool). Back overrun x.0)
        (not (changed.rqs g).rt_throttled
          && (not s.bandwidth_enabled || (r.rt_bandwidth.rt_runtime == runtime_inf)))
        (λ _. b) (λ _. b)
