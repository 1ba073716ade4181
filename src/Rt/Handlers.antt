-- ===== src/Rt/Handlers.antt =====
-- Each handler of the real-time class and its period timer keep the invariant.
use mathlib.Core.Path.{subst}
use mathlib.Core.Option
use linux_kernel.Prelude.{
  ℕ, ◌+◌, ◌-◌, ◌/◌, ◌%◌, min, ◌≡◌, refl, ap, false, ◌&&◌, ◌||◌, not, Option, none, some, Bool, List,
  [], ◌∷◌, arith, if◌then◌else◌, if_cases, ◌==◌, ltb,
}
use linux_kernel.Prelude.Words.{add32, sub32, u32_mod}
use linux_kernel.Prelude.Int.{negsuc}
use linux_kernel.Sched.{update, sched_rr}
use linux_kernel.Rt.{
  RtEnv, RtState, set_rq, ancestors, runtime_inf, rt_rq_throttled, enqueue_rt_entity,
  dequeue_rt_entity,
}
use linux_kernel.Rt.Runtime.{
  update_curr_rt, replenish, do_sched_rt_period_timer, run_timer, sched_rt_rq_enqueue,
}
use linux_kernel.Rt.Methods.{
  set_entity, enqueue_task_rt, dequeue_task_rt, requeue_task_rt, check_preempt_curr_rt,
  set_exec_start, descend, _pick_next_task_rt, put_prev_task_rt, prio_changed_rt, switched_to_rt,
  watchdog, rr_timeslice, any_company, tick_slice, task_tick_rt, set_curr_task_rt,
}
use linux_kernel.Rt.Array.{FindsFirst}
use linux_kernel.Rt.Invariant.{IsRtTask, IsSound}
use linux_kernel.Rt.Hierarchy.{dequeue_rt_entity-IsSound, enqueue_rt_entity-IsSound}
use linux_kernel.Rt.Accounting.{
  resched-IsSound, sched_rt_rq_enqueue-IsSound, update_curr_rt-IsSound,
}
use linux_kernel.Rt.Requeueing.{requeue_task_rt-IsSound}
use linux_kernel.Rt.Replacing.{replenish-SameArray, replaced, plain-IsSound, timed-IsSound}

abbrev OnSome : (RtState → Type 0) → Option RtState → Type 0
OnSome P none = Unit {0}
OnSome P (some x) = P x

module _ (e : RtEnv) (finds : FindsFirst e) {level : ℕ → ℕ} where
  pub do_sched_rt_period_timer-IsSound :
      (s : RtState) (g overrun : ℕ)
      → IsSound level s
      → IsSound level (do_sched_rt_period_timer e s g overrun).0
  unfolding do_sched_rt_period_timer
  do_sched_rt_period_timer-IsSound s g overrun v =
      let r = s.rqs g in
      let (r', lifted) = replenish r overrun in
      let a = replenish-SameArray r overrun in
      let waked = record s { skip_clock_update = negsuc 0 } in
      let woken = if lifted && not (r.rt_nr_running == 0) && (s.curr == s.idle) then waked else s in
      let changed = if r.rt_time == 0 then s else set_rq woken g r' in
      let enqueue =
        if r.rt_time == 0 then not (r.rt_nr_running == 0) && not (rt_rq_throttled r) else lifted in
      let now = changed.rqs g in
      let w =
        if_cases (IsSound level) (r.rt_time == 0) (λ _. v)
          (λ _.
            if_cases (λ (x : RtState). IsSound level (set_rq x g r'))
              (lifted && not (r.rt_nr_running == 0) && (s.curr == s.idle))
              (λ _. replaced s waked g r' refl refl refl refl a v)
              (λ _. replaced s s g r' refl refl refl refl a v)) in
      let t = if enqueue then sched_rt_rq_enqueue e changed g else changed in
      let x =
        if_cases (IsSound level) enqueue (λ _. sched_rt_rq_enqueue-IsSound e finds changed g w)
          (λ _. w) in
      if_cases (λ (y : RtState × Bool). IsSound level y.0)
        (not now.rt_throttled
          && (not s.bandwidth_enabled || (r.rt_bandwidth.rt_runtime == runtime_inf)))
        (λ _. x) (λ _. x)

  pub run_timer-IsSound :
      (s : RtState) (g : ℕ) (idle : Bool) (xs : List ℕ)
      → IsSound level s
      → IsSound level (run_timer e s g idle xs).0
  unfolding run_timer
  run_timer-IsSound s g idle [] v = v
  run_timer-IsSound s g idle (x ∷ xs) v =
      let (t, next) = do_sched_rt_period_timer e s g x in
      run_timer-IsSound t g next xs (do_sched_rt_period_timer-IsSound s g x v)

  pub enqueue_task_rt-IsSound :
      (s : RtState) (p flags : ℕ)
      → (s.entities p).my_q ≡ none
      → IsRtTask s p
      → IsSound level s
      → IsSound level (enqueue_task_rt e s p flags)
  unfolding enqueue_task_rt
  enqueue_task_rt-IsSound s p flags m k v =
      let woken =
        if flags % 2 == 1 then set_entity s p (record (s.entities p) { timeout = 0 }) else s in
      let w =
        if_cases (IsSound level) (flags % 2 == 1)
          (λ _. timed-IsSound s p 0 (s.entities p).time_slice v) (λ _. v) in
      let low = if_cases (λ (x : RtState). IsRtTask x p) (flags % 2 == 1) (λ _. k) (λ _. k) in
      let t = enqueue_rt_entity e woken p (flags / 2 % 2 == 1) in
      plain-IsSound t (record t { nr_running = add32 t.nr_running 1 }) refl refl refl (λ q. refl)
        (enqueue_rt_entity-IsSound e finds woken w p (λ _. low) (flags / 2 % 2 == 1))

  pub dequeue_task_rt-IsSound :
      (s : RtState) (p : ℕ) → IsSound level s → IsSound level (dequeue_task_rt e s p)
  unfolding dequeue_task_rt
  dequeue_task_rt-IsSound s p v =
      let t = dequeue_rt_entity e (update_curr_rt e s) p in
      plain-IsSound t (record t { nr_running = sub32 t.nr_running 1 }) refl refl refl (λ q. refl)
        (dequeue_rt_entity-IsSound e finds (update_curr_rt e s) (update_curr_rt-IsSound e finds s v)
          p)

  pub watchdog-IsSound : (s : RtState) (p : ℕ) → IsSound level s → IsSound level (watchdog e s p)
  unfolding watchdog
  watchdog-IsSound s p v =
      let t = s.tasks p in
      let timeout = add32 (s.entities p).timeout 1 in
      let step = 1000000 / e.hz in
      let counted = set_entity s p (record (s.entities p) { timeout = timeout }) in
      let w = timed-IsSound s p timeout (s.entities p).time_slice v in
      if_cases (IsSound level) (t.rlim_cur == u32_mod - 1) (λ _. v)
        (λ _.
          if_cases (IsSound level)
            (ltb ((min t.rlim_cur t.rlim_max + step - 1) % u32_mod / step) timeout)
            (λ _.
              plain-IsSound counted
                (record counted {
                  tasks = update s.tasks p (record t { sched_exp = t.sum_exec_runtime });
                })
                refl refl refl (λ q. ground arith) w)
            (λ _. w))

  pub tick_slice-IsSound :
      (s : RtState) (p : ℕ) → IsSound level s → IsSound level (tick_slice e s p)
  unfolding tick_slice
  tick_slice-IsSound s p v =
      let slice = sub32 (s.entities p).time_slice 1 in
      let expired = set_entity s p (record (s.entities p) { time_slice = rr_timeslice e }) in
      let w = timed-IsSound s p (s.entities p).timeout (rr_timeslice e) v in
      if_cases (IsSound level) (not ((s.tasks p).policy == sched_rr)) (λ _. v)
        (λ _.
          if_cases (IsSound level) (not (slice == 0))
            (λ _. timed-IsSound s p (s.entities p).timeout slice v)
            (λ _.
              if_cases (IsSound level) (any_company expired (ancestors expired p))
                (λ _.
                  resched-IsSound e finds (requeue_task_rt expired p false) p
                    (requeue_task_rt-IsSound expired p false w))
                (λ _. w)))

  pub check_preempt_curr_rt-IsSound :
      (s : RtState) (p : ℕ) → IsSound level s → IsSound level (check_preempt_curr_rt s p)
  unfolding check_preempt_curr_rt
  check_preempt_curr_rt-IsSound s p v =
      if_cases (IsSound level) (ltb (s.tasks p).prio (s.tasks s.curr).prio)
        (λ _. resched-IsSound e finds s s.curr v) (λ _. v)

  pub prio_changed_rt-IsSound :
      (s : RtState) (p oldprio : ℕ) → IsSound level s → IsSound level (prio_changed_rt s p oldprio)
  unfolding prio_changed_rt
  prio_changed_rt-IsSound s p oldprio v =
      if_cases (IsSound level) (not (s.tasks p).on_rq) (λ _. v)
        (λ _.
          if_cases (IsSound level) (s.curr == p)
            (λ _.
              if_cases (IsSound level) (ltb oldprio (s.tasks p).prio)
                (λ _. resched-IsSound e finds s p v) (λ _. v))
            (λ _.
              if_cases (IsSound level) (ltb (s.tasks p).prio (s.tasks s.curr).prio)
                (λ _. resched-IsSound e finds s s.curr v) (λ _. v)))

  pub switched_to_rt-IsSound :
      (s : RtState) (p : ℕ) → IsSound level s → IsSound level (switched_to_rt s p)
  unfolding switched_to_rt
  switched_to_rt-IsSound s p v =
      if_cases (IsSound level)
        ((s.tasks p).on_rq && not (s.curr == p) && ltb (s.tasks p).prio (s.tasks s.curr).prio)
        (λ _. resched-IsSound e finds s s.curr v) (λ _. v)

  pub started-IsSound : (s : RtState) (p : ℕ) → IsSound level s → IsSound level (set_exec_start s p)
  started-IsSound s p v = plain-IsSound s (set_exec_start s p) refl refl refl (λ q. ground arith) v

  pub pick-IsSound :
      (s t : RtState) (p : Option ℕ)
      → _pick_next_task_rt e s ≡ some (p, t)
      → IsSound level s
      → IsSound level t
  unfolding _pick_next_task_rt
  pick-IsSound s t p k v =
      if_cases (λ (x : Option (Option ℕ × RtState)). x ≡ some (p, t) → IsSound level t)
        (((s.rqs 0).rt_nr_running == 0) || rt_rq_throttled (s.rqs 0))
        (λ _ h. transport_state s (ap_state h) v) (λ _. by_task (descend e s s.levels 0)) k
    where
      transport_state : (u : RtState) → some u ≡ some t → IsSound level u → IsSound level t
      transport_state u h w = subst (OnSome (IsSound level)) h w

      ap_state : {a b : Option ℕ × RtState} → some a ≡ some b → some a.1 ≡ some b.1
      ap_state h = ap (Option.map (λ (x : Option ℕ × RtState). x.1)) h

      by_task :
          (o : Option ℕ)
          → ◌≡◌ {A = Option (Option ℕ × RtState)}
              (elim o [ none ↦ none | some q ↦ some (some q, set_exec_start s q) ])
              (some (p, t))
          → IsSound level t
      by_task none h = absurd (cc)
      by_task (some q) h = transport_state (set_exec_start s q) (ap_state h) (started-IsSound s q v)

  pub task_tick_rt-IsSound :
      (s : RtState) (p : ℕ) → IsSound level s → IsSound level (task_tick_rt e s p)
  unfolding task_tick_rt
  task_tick_rt-IsSound s p v =
      tick_slice-IsSound (watchdog e (update_curr_rt e s) p) p
        (watchdog-IsSound (update_curr_rt e s) p (update_curr_rt-IsSound e finds s v))

  pub other_methods-IsSound :
      (s : RtState)
      → IsSound level s
      → IsSound level (put_prev_task_rt e s) × IsSound level (set_curr_task_rt s)
  unfolding put_prev_task_rt set_curr_task_rt
  other_methods-IsSound s v = (update_curr_rt-IsSound e finds s v, started-IsSound s s.curr v)
