-- ===== src/Rt/Steps.antt =====
-- Any sequence of calls of the real-time class's handlers and of its period timers.
use linux_kernel.Prelude.{ℕ, ◌≡◌, refl, false, Option, none, some, Bool, List}
use linux_kernel.Rt.{RtEnv, RtState}
use linux_kernel.Rt.Runtime.{sched_rt_period_timer}
use linux_kernel.Rt.Methods.{
  enqueue_task_rt, dequeue_task_rt, requeue_task_rt, yield_task_rt, check_preempt_curr_rt,
  _pick_next_task_rt, put_prev_task_rt, prio_changed_rt, switched_to_rt, task_tick_rt,
  set_curr_task_rt,
}
use linux_kernel.Rt.Array.{FindsFirst}
use linux_kernel.Rt.Invariant.{IsRtTask, IsSound}
use linux_kernel.Rt.Requeueing.{requeue_task_rt-IsSound, yield_task_rt-IsSound}
use linux_kernel.Rt.Handlers.{
  run_timer-IsSound, enqueue_task_rt-IsSound, dequeue_task_rt-IsSound,
  check_preempt_curr_rt-IsSound, prio_changed_rt-IsSound, switched_to_rt-IsSound, pick-IsSound,
  task_tick_rt-IsSound, other_methods-IsSound,
}
use linux_kernel.Rt.Replacing.{plain-IsSound}

-- A call of a handler. `pick` is a call that returns; in `around`, the rest of the scheduler moves the
-- clock and makes another task the current one.
pub data Call (e : RtEnv) : RtState → RtState → Type 0 where
  enqueue :
      (s : RtState) (p flags : ℕ)
      → (s.entities p).my_q ≡ none
      → IsRtTask s p
      → Call e s (enqueue_task_rt e s p flags)
  dequeue : (s : RtState) (p : ℕ) → Call e s (dequeue_task_rt e s p)
  requeue : (s : RtState) (p : ℕ) (head : Bool) → Call e s (requeue_task_rt s p head)
  yields : (s : RtState) → Call e s (yield_task_rt s)
  preempt : (s : RtState) (p : ℕ) → Call e s (check_preempt_curr_rt s p)
  pick : (s t : RtState) (p : Option ℕ) → _pick_next_task_rt e s ≡ some (p, t) → Call e s t
  put_prev : (s : RtState) → Call e s (put_prev_task_rt e s)
  set_curr : (s : RtState) → Call e s (set_curr_task_rt s)
  tick : (s : RtState) (p : ℕ) → Call e s (task_tick_rt e s p)
  period :
      (s : RtState) (g : ℕ) (overruns : List ℕ) → Call e s (sched_rt_period_timer e s g overruns).0
  changed : (s : RtState) (p oldprio : ℕ) → Call e s (prio_changed_rt s p oldprio)
  switched : (s : RtState) (p : ℕ) → Call e s (switched_to_rt s p)
  around :
      (s : RtState) (clock_task curr : ℕ)
      → Call e s (record s { clock_task = clock_task; curr = curr })

pub data Reach (e : RtEnv) (s : RtState) : RtState → Type 0 where
  start : Reach e s s
  then : {t u : RtState} → Reach e s t → Call e t u → Reach e s u

module _ (e : RtEnv) (finds : FindsFirst e) {level : ℕ → ℕ} where
  Call-IsSound : {s t : RtState} → Call e s t → IsSound level s → IsSound level t
  Call-IsSound (Call.enqueue s p flags m k) v = enqueue_task_rt-IsSound e finds s p flags m k v
  Call-IsSound (Call.dequeue s p) v = dequeue_task_rt-IsSound e finds s p v
  Call-IsSound (Call.requeue s p head) v = requeue_task_rt-IsSound s p head v
  Call-IsSound (Call.yields s) v = yield_task_rt-IsSound s v
  Call-IsSound (Call.preempt s p) v = check_preempt_curr_rt-IsSound e finds s p v
  Call-IsSound (Call.pick s t p k) v = pick-IsSound e finds s t p k v
  Call-IsSound (Call.put_prev s) v = (other_methods-IsSound e finds s v).0
  Call-IsSound (Call.set_curr s) v = (other_methods-IsSound e finds s v).1
  Call-IsSound (Call.tick s p) v = task_tick_rt-IsSound e finds s p v
  Call-IsSound (Call.period s g xs) v = run_timer-IsSound e finds s g false xs v
  Call-IsSound (Call.changed s p o) v = prio_changed_rt-IsSound e finds s p o v
  Call-IsSound (Call.switched s p) v = switched_to_rt-IsSound e finds s p v
  Call-IsSound (Call.around s c k) v =
      plain-IsSound s (record s { clock_task = c; curr = k }) refl refl refl (λ q. refl) v

  -- For a bit search that finds the lowest bit: whatever handlers of the class and period timers are called, in
  -- any order, on whatever tasks, with enqueue_task_rt for tasks of priority below 100: if the groups form a
  -- tree and the bookkeeping of the class holds, both are so afterwards.
  pub Reach-IsSound : {s t : RtState} → Reach e s t → IsSound level s → IsSound level t
  Reach-IsSound Reach.start v = v
  Reach-IsSound (Reach.then r c) v = Call-IsSound c (Reach-IsSound r v)
