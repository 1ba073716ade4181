-- ===== src/Wrr/Tests.antt =====
-- Runs of wrr.c on small queues, and the theorems of this folder at such inputs.
use linux_kernel.Prelude.{◌-◌, ◌≡◌, refl, false, [], ◌∷◌, some, arith}
use linux_kernel.Prelude.Words.{u32_mod}
use linux_kernel.Sched.{Rq, resched_task}
use linux_kernel.Wrr.{
  group_path, background, enqueue_task_wrr, enqueue_wrr_entity, refresh_entity, task_tick_wrr,
  slice_expired, pick_next_task_wrr, update_curr_wrr, task_fork_wrr, init_wrr_rq, requeue_task_wrr,
  remove, has_neighbours, next_entry, prev_entry,
}
use linux_kernel.Wrr.Queue.{contains, weights}
use linux_kernel.Wrr.Invariant.{Inv}
use linux_kernel.Wrr.Steps.{here, next, enqueue, tick, Reach-init_wrr_rq-Inv}
use linux_kernel.Wrr.Turns.{turns, turns_reach, Turning, HzFits}
use linux_kernel.Wrr.Rotation.{slice}
use linux_kernel.Wrr.Slices.{forked_slice_wraps}
use linux_kernel.Wrr.Samples.{groups, task, empty_rq, two_queued}

two_queued-Inv : Inv two_queued
unfolding contains weights
two_queued-Inv = record { distinct = (refl, (refl, tt)); counted = refl; weighed = refl }

enqueue_new : (enqueue_task_wrr groups two_queued 3 0).wrr.total_weight ≡ 21
unfolding enqueue_task_wrr enqueue_wrr_entity refresh_entity background group_path
enqueue_new = refl

tick_rotates : (task_tick_wrr groups two_queued 1).wrr.queue ≡ 2 ∷ 1 ∷ []
unfolding task_tick_wrr update_curr_wrr slice_expired requeue_task_wrr remove has_neighbours
    next_entry prev_entry resched_task
tick_rotates = refl

Reach-init_wrr_rq-Inv_example : Inv (task_tick_wrr groups (enqueue_task_wrr groups empty_rq 1 0) 1)
unfolding enqueue_task_wrr enqueue_wrr_entity contains init_wrr_rq
Reach-init_wrr_rq-Inv_example = Reach-init_wrr_rq-Inv groups empty_rq _ refl (
    next (next here (enqueue empty_rq 1 0 refl))
      (tick (enqueue_task_wrr groups empty_rq 1 0) 1 refl))

hz_fits : HzFits groups
hz_fits = record { at_least = omega arith; at_most = omega arith }

two_queued-Turning : Turning two_queued (1 ∷ 2 ∷ [])
unfolding contains
two_queued-Turning = record {
  queue = refl;
  running = λ e. absurd (omega arith);
  distinct = (refl, (refl, tt));
  ready = omega arith;
}

turns_reach_example :
    Turning (turns groups (λ n k. 8) 1 two_queued) (2 ∷ 1 ∷ [])
    × (pick_next_task_wrr (turns groups (λ n k. 8) 1 two_queued) ≡ some 2)
turns_reach_example =
    turns_reach groups (λ n k. 8) two_queued (1 ∷ []) 2 [] hz_fits two_queued-Turning

abbrev forked_rq : Rq
forked_rq = record empty_rq { tasks = λ p. record (task 2 10 0) { on_rq = false } }

forked_slice_wraps_example :
    let rq = enqueue_task_wrr groups forked_rq 3 0 in
    ((task_tick_wrr groups rq 3).wrr.queue ≡ rq.wrr.queue)
    × (slice (task_tick_wrr groups rq 3) 3 ≡ u32_mod - 1)
unfolding background group_path task_fork_wrr
forked_slice_wraps_example =
    forked_slice_wraps groups forked_rq 3 0 (record (task 2 10 6) { on_rq = false }) refl refl
