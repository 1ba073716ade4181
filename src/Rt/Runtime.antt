-- ===== src/Rt/Runtime.antt =====
-- sched/rt.c: runtime accounting, throttling and the period timer.
use linux_kernel.Prelude.{
  ℕ, ◌-◌, ◌*◌, ◌%◌, ◌^◌, min, max, Bool, true, false, ◌&&◌, ◌||◌, not, Option, none, some, List, [],
  ◌∷◌, if◌then◌else◌, ◌==◌, ltb, leb,
}
use linux_kernel.Prelude.Words.{add64, sub64, u64_mod}
use linux_kernel.Prelude.Int.{negsuc}
use linux_kernel.Sched.{Class, same_class, update}
use linux_kernel.Rt.{
  RtEnv, RtRq, RtState, runtime_inf, set_rq, set_need_resched, on_rt_rq, rt_rq_throttled, ancestors,
  enqueue_rt_entity, dequeue_rt_entity,
}

-- The group's entity, where it has one, is put in.
unfoldable pub enqueue_group : RtEnv → RtState → Option ℕ → RtState
enqueue_group e s none = s
enqueue_group e s (some se) = if on_rt_rq s se then s else enqueue_rt_entity e s se false

unfoldable pub sched_rt_rq_enqueue : RtEnv → RtState → (g : ℕ) → RtState
sched_rt_rq_enqueue e s g =
    let t = enqueue_group e s (s.rqs g).rt_se in
    if (s.rqs g).rt_nr_running == 0
    then s
    else if ltb (t.rqs g).highest_prio (t.tasks t.curr).prio
    then set_need_resched t t.curr
    else t

unfoldable pub sched_rt_rq_dequeue : RtEnv → RtState → (g : ℕ) → RtState
sched_rt_rq_dequeue e s g = elim (s.rqs g).rt_se [
  | none ↦ s
  | some se ↦ if on_rt_rq s se then dequeue_rt_entity e s se else s
]

-- What sched_rt_runtime_exceeded makes of an rt_rq that is not throttled; balance_runtime does nothing here.
unfoldable pub exceed : RtRq → RtRq
exceed r =
    if leb r.rt_bandwidth.rt_period r.rt_runtime || (r.rt_runtime == runtime_inf)
    then r
    else if leb r.rt_time r.rt_runtime
    then r
    else if r.rt_bandwidth.rt_runtime == 0
    then record r { rt_time = 0 }
    else record r { rt_throttled = true }

-- Whether the function came to its second test of rt_rq_throttled.
unfoldable pub over : RtRq → Bool
over r =
    not (leb r.rt_bandwidth.rt_period r.rt_runtime)
    && not (r.rt_runtime == runtime_inf)
    && ltb r.rt_runtime r.rt_time

unfoldable pub sched_rt_runtime_exceeded : RtEnv → RtState → (g : ℕ) → RtState × Bool
sched_rt_runtime_exceeded e s g =
    let r = s.rqs g in
    let t = set_rq s g (exceed r) in
    if r.rt_throttled
    then (s, rt_rq_throttled r)
    else if over r && rt_rq_throttled (exceed r)
    then (sched_rt_rq_dequeue e t g, true)
    else (t, false)

-- The loop of update_curr_rt over the rt_rq's on the way up.
unfoldable pub charge_path : RtEnv → RtState → (delta : ℕ) → List ℕ → RtState
charge_path e s delta [] = s
charge_path e s delta (se ∷ ups) =
    let g = (s.entities se).rt_rq in
    let r = s.rqs g in
    let (t, exceeded) =
      sched_rt_runtime_exceeded e (set_rq s g (record r { rt_time = add64 r.rt_time delta })) g in
    charge_path e
      (if r.rt_runtime == runtime_inf then s else if exceeded then set_need_resched t t.curr else t)
      delta ups

-- (s64)delta_exec < 0 holds from 2^63 on.
abbrev pub delta_exec : RtState → ℕ
delta_exec s =
    let delta = sub64 s.clock_task (s.tasks s.curr).exec_start in
    if leb (2 ^ 63) delta then 0 else delta

-- The task's own part of the accounting.
unfoldable pub charge_task : RtState → (delta : ℕ) → RtState
charge_task s delta =
    let c = s.tasks s.curr in
    record s {
      tasks = update s.tasks s.curr (record c {
        exec_max = max c.exec_max delta;
        sum_exec_runtime = add64 c.sum_exec_runtime delta;
        exec_start = s.clock_task;
      });
      charged = (s.curr, delta) ∷ s.charged;
    }

unfoldable pub update_curr_rt : RtEnv → RtState → RtState
update_curr_rt e s =
    let delta = delta_exec s in
    let charged = charge_task s delta in
    if not (same_class (s.tasks s.curr).sched_class Class.rt)
    then s
    else if not s.bandwidth_enabled
    then charged
    else charge_path e charged delta (ancestors s s.curr)

-- One round of do_sched_rt_period_timer over the rt_rq, with nonzero rt_time: the new rt_rq, and whether its
-- throttle is lifted. `overrun * runtime` is computed in 64 bits.
unfoldable pub replenish : RtRq → (overrun : ℕ) → RtRq × Bool
replenish r overrun =
    let left = r.rt_time - min r.rt_time (overrun * r.rt_runtime % u64_mod) in
    if r.rt_throttled && ltb left r.rt_runtime
    then (record r { rt_time = left; rt_throttled = false }, true)
    else (record r { rt_time = left }, false)

-- The only processor's part of do_sched_rt_period_timer. The result says whether the timer may stop.
unfoldable pub do_sched_rt_period_timer : RtEnv → RtState → (g : ℕ) → (overrun : ℕ) → RtState × Bool
do_sched_rt_period_timer e s g overrun =
    let r = s.rqs g in
    let (r', lifted) = replenish r overrun in
    let woken =
      if lifted && not (r.rt_nr_running == 0) && (s.curr == s.idle)
      then record s { skip_clock_update = negsuc 0 }
      else s in
    let changed = if r.rt_time == 0 then s else set_rq woken g r' in
    let enqueue =
      if r.rt_time == 0 then not (r.rt_nr_running == 0) && not (rt_rq_throttled r) else lifted in
    let now = changed.rqs g in
    let idle = (now.rt_time == 0) && (r.rt_nr_running == 0) in
    let t = if enqueue then sched_rt_rq_enqueue e changed g else changed in
    if not now.rt_throttled
      && (not s.bandwidth_enabled || (r.rt_bandwidth.rt_runtime == runtime_inf))
    then (t, true)
    else (t, idle)

-- The loop of sched_rt_period_timer, over the overruns that hrtimer_forward returns before it returns 0.
-- The result is whether the timer stays off.
unfoldable pub run_timer : RtEnv → RtState → (g : ℕ) → (idle : Bool) → List ℕ → RtState × Bool
run_timer e s g idle [] = (s, idle)
run_timer e s g idle (overrun ∷ more) =
    let (t, idle') = do_sched_rt_period_timer e s g overrun in run_timer e t g idle' more

abbrev pub sched_rt_period_timer : RtEnv → RtState → (g : ℕ) → List ℕ → RtState × Bool
sched_rt_period_timer e s g overruns = run_timer e s g false overruns
