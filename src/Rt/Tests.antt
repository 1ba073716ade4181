-- ===== src/Rt/Tests.antt =====
-- Runs of the real-time class on the processor of Samples.
use linux_kernel.Prelude.{
  ℕ, zero, suc, ◌+◌, ◌*◌, ◌≡◌, refl, true, false, none, some, [], ◌∷◌, ◌++◌, ◌≤◌, arith, ◌&&◌, not,
  inl,
}
use linux_kernel.Wrr.{remove}
use linux_kernel.Wrr.Queue.{contains}
use linux_kernel.Rt.Accounting.{sched_rt_runtime_exceeded-IsSound}
use linux_kernel.Rt.Handlers.{enqueue_task_rt-IsSound}
use linux_kernel.Rt.{
  enqueue_path, __enqueue_rt_entity, left_out, dequeue_rt_stack, dequeue_path, inc_rt_tasks, link,
  __dequeue_rt_entity, dec_rt_tasks, dec_rt_prio, unlink, start_rt_bandwidth, rt_se_boosted,
  requeue_groups, still_busy, RtState, path, on_queues, on_rt_rq, enqueue_rt_entity,
  dequeue_rt_entity, rt_se_prio,
}
use linux_kernel.Rt.Runtime.{
  update_curr_rt, charge_task, over, sched_rt_rq_dequeue, exceed, sched_rt_runtime_exceeded,
  do_sched_rt_period_timer, sched_rt_period_timer,
}
use linux_kernel.Rt.Methods.{
  enqueue_task_rt, _pick_next_task_rt, set_exec_start, task_tick_rt, tick_slice, watchdog,
  rr_timeslice,
}
use linux_kernel.Rt.Invariant.{IsRtTask, IsSound}
use linux_kernel.Rt.Steps.{Call, Reach, Reach-IsSound}
use linux_kernel.Rt.Hierarchy.{Moved, enqueue_rt_entity-Moved, dequeue_rt_entity-Moved}
use linux_kernel.Rt.Picking.{_pick_next_task_rt_lem}
use linux_kernel.Rt.Returning.{
  runs_out, sched_rt_runtime_exceeded_lem, do_sched_rt_period_timer_lem,
}
use linux_kernel.Rt.Replacing.{plain-IsSound}
use linux_kernel.Rt.Ticks.{ticks, Unthrottled}
use linux_kernel.Rt.Robin.{ticks_lem}
use linux_kernel.Rt.Samples.{env, env-FindsFirst, resting, level, resting-IsSound, scan}

-- Task 3 is queued, then tasks 1 and 2 of the group.
abbrev one_in : RtState
one_in = enqueue_task_rt env resting 3 1

abbrev two_in : RtState
two_in = enqueue_task_rt env one_in 1 1

abbrev queued : RtState
queued = enqueue_task_rt env two_in 2 1

group_queue : (queued.rqs 1).queue 50 ≡ 1 ∷ 2 ∷ []
unfolding enqueue_task_rt enqueue_rt_entity enqueue_path path __enqueue_rt_entity left_out
    dequeue_rt_stack dequeue_path on_queues contains inc_rt_tasks rt_se_prio link
    __dequeue_rt_entity
group_queue = refl

root_runs_group : (queued.rqs 0).highest_prio ≡ 50
unfolding enqueue_task_rt enqueue_rt_entity enqueue_path path __enqueue_rt_entity left_out
    dequeue_rt_stack dequeue_path on_queues contains inc_rt_tasks rt_se_prio link
    __dequeue_rt_entity dec_rt_tasks dec_rt_prio unlink scan remove start_rt_bandwidth rt_se_boosted
root_runs_group = refl

one_in-IsRtTask : ((one_in.entities 1).my_q ≡ none) × IsRtTask one_in 1
unfolding enqueue_task_rt enqueue_rt_entity enqueue_path path __enqueue_rt_entity left_out
    dequeue_rt_stack dequeue_path on_queues contains inc_rt_tasks rt_se_prio link
    __dequeue_rt_entity dec_rt_tasks dec_rt_prio unlink scan remove start_rt_bandwidth rt_se_boosted
one_in-IsRtTask = (refl, (omega arith, omega arith))

two_in-IsRtTask : ((two_in.entities 2).my_q ≡ none) × IsRtTask two_in 2
unfolding enqueue_task_rt enqueue_rt_entity enqueue_path path __enqueue_rt_entity left_out
    dequeue_rt_stack dequeue_path on_queues contains inc_rt_tasks rt_se_prio link
    __dequeue_rt_entity dec_rt_tasks dec_rt_prio unlink scan remove start_rt_bandwidth rt_se_boosted
two_in-IsRtTask = (refl, (omega arith, omega arith))

queued-IsSound : IsSound level queued
queued-IsSound =
    enqueue_task_rt-IsSound env env-FindsFirst two_in 2 1 two_in-IsRtTask.0 two_in-IsRtTask.1 (
      enqueue_task_rt-IsSound env env-FindsFirst one_in 1 1 one_in-IsRtTask.0 one_in-IsRtTask.1 (
        enqueue_task_rt-IsSound env env-FindsFirst resting 3 1 refl (omega arith, omega arith)
          resting-IsSound))

enqueue_rt_entity-Moved_example : Moved 1 true resting (enqueue_rt_entity env resting 1 false)
enqueue_rt_entity-Moved_example =
    enqueue_rt_entity-Moved env env-FindsFirst resting resting-IsSound.tree resting-IsSound.valid 1
      (λ m. (omega arith, omega arith)) false refl

dequeue_rt_entity-Moved_example : Moved 1 false queued (dequeue_rt_entity env queued 1)
unfolding enqueue_task_rt enqueue_rt_entity enqueue_path path __enqueue_rt_entity left_out
    dequeue_rt_stack dequeue_path on_queues contains inc_rt_tasks rt_se_prio link
    __dequeue_rt_entity
dequeue_rt_entity-Moved_example =
    dequeue_rt_entity-Moved env env-FindsFirst queued queued-IsSound.tree queued-IsSound.valid 1
      refl

_pick_next_task_rt_lem_example :
    (p : ℕ) × (_pick_next_task_rt env queued ≡ some (some p, set_exec_start queued p))
    × (on_rt_rq queued p ≡ true)
    × ((queued.entities p).my_q ≡ none)
    × ((queued.tasks p).prio ≤ 50)
unfolding enqueue_task_rt enqueue_rt_entity enqueue_path path __enqueue_rt_entity left_out
    dequeue_rt_stack dequeue_path on_queues contains inc_rt_tasks rt_se_prio link
    __dequeue_rt_entity dec_rt_tasks dec_rt_prio unlink scan remove start_rt_bandwidth rt_se_boosted
_pick_next_task_rt_lem_example =
    _pick_next_task_rt_lem env env-FindsFirst queued queued-IsSound 2 refl (refl, (refl, tt)) refl

sched_rt_runtime_exceeded_lem_example :
    ((sched_rt_runtime_exceeded env queued 1).1 ≡ runs_out (queued.rqs 1))
    × (on_rt_rq (sched_rt_runtime_exceeded env queued 1).0 101
        ≡ (not (runs_out (queued.rqs 1)) && on_rt_rq queued 101))
    × ((sched_rt_runtime_exceeded env queued 1).0.rqs 1 ≡ exceed (queued.rqs 1))
unfolding enqueue_task_rt enqueue_rt_entity enqueue_path path __enqueue_rt_entity left_out
    dequeue_rt_stack dequeue_path on_queues contains inc_rt_tasks rt_se_prio link
    __dequeue_rt_entity dec_rt_tasks dec_rt_prio unlink scan remove start_rt_bandwidth rt_se_boosted
sched_rt_runtime_exceeded_lem_example =
    sched_rt_runtime_exceeded_lem env env-FindsFirst queued queued-IsSound 1 101 refl refl

-- The group used up its runtime.
runs_out_now : runs_out (queued.rqs 1) ≡ true
unfolding enqueue_task_rt enqueue_rt_entity enqueue_path path __enqueue_rt_entity left_out
    dequeue_rt_stack dequeue_path on_queues contains inc_rt_tasks rt_se_prio link
    __dequeue_rt_entity dec_rt_tasks dec_rt_prio unlink scan remove start_rt_bandwidth rt_se_boosted
runs_out_now = refl

-- The same with the runtime limits off, as after a write of -1 to sched_rt_runtime_us.
abbrev unlimited : RtState
unlimited = record queued { bandwidth_enabled = false }

unlimited-IsSound : IsSound level unlimited
unlimited-IsSound = plain-IsSound queued unlimited refl refl refl (λ q. refl) queued-IsSound

-- The clock goes on by 10 at each tick.
abbrev clock : ℕ → ℕ
clock i = 500 + 10 * i

off_at_ticks :
    (i : ℕ)
    → i ≤ 1
    → Unthrottled env (record (ticks i env clock unlimited 1) { clock_task = clock i })
unfolding ticks task_tick_rt tick_slice watchdog update_curr_rt charge_task enqueue_task_rt
    enqueue_rt_entity enqueue_path path __enqueue_rt_entity left_out dequeue_rt_stack dequeue_path
    on_queues contains inc_rt_tasks rt_se_prio link __dequeue_rt_entity
off_at_ticks zero l = inl refl
off_at_ticks (suc zero) l = inl refl
off_at_ticks (suc (suc i)) l = absurd (omega arith)

ticks_lem_example :
    ((g i : ℕ) → ((ticks 1 env clock unlimited 1).rqs g).queue i ≡ (unlimited.rqs g).queue i)
    × (((ticks 2 env clock unlimited 1).rqs 1).queue 50
        ≡ remove 1 ((unlimited.rqs 1).queue 50) ++ (1 ∷ []))
    × (((ticks 2 env clock unlimited 1).entities 1).time_slice ≡ rr_timeslice env)
    × (((ticks 2 env clock unlimited 1).tasks 1).need_resched ≡ true)
unfolding enqueue_task_rt enqueue_rt_entity enqueue_path path __enqueue_rt_entity left_out
    dequeue_rt_stack dequeue_path on_queues contains inc_rt_tasks rt_se_prio link
    __dequeue_rt_entity dec_rt_tasks dec_rt_prio unlink scan remove start_rt_bandwidth rt_se_boosted
ticks_lem_example =
    ticks_lem env clock unlimited 1 1 unlimited-IsSound off_at_ticks refl refl refl (omega arith)
      refl refl

abbrev throttled : RtState
throttled = (sched_rt_runtime_exceeded env queued 1).0

throttled-IsSound : IsSound level throttled
throttled-IsSound = sched_rt_runtime_exceeded-IsSound env env-FindsFirst queued 1 queued-IsSound

do_sched_rt_period_timer_lem_example :
    (((do_sched_rt_period_timer env throttled 1 1).0.rqs 1).rt_throttled ≡ false)
    × (((do_sched_rt_period_timer env throttled 1 1).0.rqs 1).rt_time ≡ 10)
    × (on_rt_rq (do_sched_rt_period_timer env throttled 1 1).0 101 ≡ true)
unfolding enqueue_task_rt enqueue_rt_entity enqueue_path path __enqueue_rt_entity left_out
    dequeue_rt_stack dequeue_path on_queues contains inc_rt_tasks rt_se_prio link
    __dequeue_rt_entity dec_rt_tasks dec_rt_prio unlink scan remove start_rt_bandwidth rt_se_boosted
    sched_rt_runtime_exceeded over exceed sched_rt_rq_dequeue dequeue_rt_entity requeue_groups
    still_busy
do_sched_rt_period_timer_lem_example =
    do_sched_rt_period_timer_lem env env-FindsFirst throttled throttled-IsSound 1 101 refl 1 refl
      refl refl (omega arith) (omega arith)

-- Three tasks wake up, the first of the group runs for a tick, and the period timer comes.
abbrev ticked : RtState
ticked = task_tick_rt env queued 1

Reach-IsSound_example : IsSound level (sched_rt_period_timer env ticked 1 (1 ∷ 2 ∷ [])).0
Reach-IsSound_example =
    Reach-IsSound env env-FindsFirst
      (Reach.then
        (Reach.then
          (Reach.then
            (Reach.then
              (Reach.then Reach.start (Call.enqueue resting 3 1 refl (omega arith, omega arith)))
              (Call.enqueue one_in 1 1 one_in-IsRtTask.0 one_in-IsRtTask.1))
            (Call.enqueue two_in 2 1 two_in-IsRtTask.0 two_in-IsRtTask.1))
          (Call.tick queued 1))
        (Call.period ticked 1 (1 ∷ 2 ∷ [])))
      resting-IsSound
