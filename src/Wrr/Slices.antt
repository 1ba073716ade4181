-- ===== src/Wrr/Slices.antt =====
-- Weights, time slices and runtime accounting of wrr.c, one handler after another.
use linux_kernel.Prelude.{
  ℕ, ◌-◌, ◌<◌, ◌^◌, ◌≡◌, ◌≢◌, refl, false, List, [], ◌∷◌, some, arith, if◌then◌else◌, length,
  get_or,
}
use linux_kernel.Prelude.Words.{u32_mod}
use linux_kernel.Sched.{Task, Rq, Class, sched_wrr}
use linux_kernel.Wrr.{
  Cgroups, group_path, background, refresh_entity, enqueue_wrr_entity, enqueue_task_wrr,
  task_fork_wrr, task_tick_wrr, refill, wrr_fg_timeslice, wrr_bg_timeslice, pick_next_task_wrr,
  first_entry, put_prev_task_wrr, update_curr_wrr, get_rr_interval_wrr,
}
use linux_kernel.Wrr.Invariant.{Inv, queue-update_curr_wrr}
use linux_kernel.Wrr.Rotation.{slice, Sliced, wrr-update_curr_wrr}

abbrev pub group_weight : Cgroups → Task → ℕ
group_weight g t = if background g t.sched_task_group then 1 else 10

-- What an enqueue leaves: the weight is 1 in a background group and 10 in any other; the slice is
-- renewed to that group's length if the weight changed, and is left as it was if it did not.
pub refresh_entity_lem :
    (g : Cgroups) (t : Task)
    → ((refresh_entity g t).weight ≡ group_weight g t)
      × (t.wrr.weight ≡ group_weight g t → (refresh_entity g t).time_slice ≡ t.wrr.time_slice)
      × (t.wrr.weight ≢ group_weight g t
          → (refresh_entity g t).time_slice
            ≡ (if background g t.sched_task_group then wrr_bg_timeslice g else wrr_fg_timeslice g))
unfolding refresh_entity
refresh_entity_lem g t = (ground arith, λ h. ground arith, λ h. ground arith)

-- pick_next_task_wrr gives the first queued task, and NULL for an empty queue only.
pub pick_next_task_wrr_lem :
    (rq : Rq)
    → Inv rq
    → length rq.wrr.queue < u32_mod
    → pick_next_task_wrr rq ≡ first_entry rq.wrr.queue
unfolding pick_next_task_wrr
pick_next_task_wrr_lem rq v h = pick rq.wrr.queue refl
  where
    pick : (q : List ℕ) → rq.wrr.queue ≡ q → pick_next_task_wrr rq ≡ first_entry rq.wrr.queue
    pick [] e = ground (arith, v.counted)
    pick (x ∷ xs) e = ground (arith, v.counted)

-- A tick at a slice of 0 wraps it round: the task keeps the CPU for 2^32 - 1 more ticks.
tick_zero :
    (g : Cgroups) (rq : Rq) (p : ℕ)
    → slice rq p ≡ 0
    → ((task_tick_wrr g rq p).wrr ≡ rq.wrr) × Sliced rq (task_tick_wrr g rq p) p (u32_mod - 1)
unfolding task_tick_wrr
tick_zero g rq p e = (
  ground (arith, wrr-update_curr_wrr rq p, queue-update_curr_wrr rq),
  λ q. ground (arith, wrr-update_curr_wrr rq p, wrr-update_curr_wrr rq q),
)

-- A task that task_fork_wrr has set up and whose inherited weight is already that of its group is
-- enqueued with slice 0; its first tick leaves it at the head of its turn with 2^32 - 1 ticks.
pub forked_slice_wraps :
    (g : Cgroups) (rq : Rq) (p flags : ℕ) (t : Task)
    → rq.tasks p ≡ task_fork_wrr t
    → t.wrr.weight ≡ group_weight g t
    → let rq' = enqueue_task_wrr g rq p flags in
      ((task_tick_wrr g rq' p).wrr.queue ≡ rq'.wrr.queue)
      × (slice (task_tick_wrr g rq' p) p ≡ u32_mod - 1)
unfolding enqueue_task_wrr enqueue_wrr_entity task_fork_wrr refresh_entity
forked_slice_wraps g rq p flags t e h =
    let z = tick_zero g (enqueue_task_wrr g rq p flags) p (ground arith) in
    (ground (arith, z.0), ground (arith, z.1 p))

-- put_prev_task_wrr clears exec_start and pick_next_task_wrr does not set it, so the next charge of
-- a wrr task that was switched away from and back is the whole reading of the clock.
pub charge_since_boot :
    (rq : Rq) (clock : ℕ)
    → (rq.tasks rq.curr).sched_class ≡ Class.wrr
    → clock < 2 ^ 63
    → let rq' = put_prev_task_wrr rq rq.curr in
      let back = record rq' { clock_task = clock } in
      (update_curr_wrr back).charged ≡ (rq.curr, clock) ∷ rq'.charged
unfolding put_prev_task_wrr update_curr_wrr
charge_since_boot rq clock c h = ground arith

-- sched_rr_get_interval of a foreground task that is in a group other than the root one reports the
-- background slice, where task_tick_wrr gives it the foreground slice.
pub get_rr_interval_wrr_disagrees :
    (g : Cgroups) (t : Task) (c : ℕ)
    → t.policy ≡ sched_wrr
    → g.autogroup_path t.sched_task_group g.stack ≡ (false, g.stack)
    → g.css_cgroup t.sched_task_group ≡ some c
    → get_or (g.cgroup_path (some c) g.stack) 1 0 ≢ b'b'
    → get_or (g.cgroup_path (some c) g.stack) 1 0 ≢ 0
    → (get_rr_interval_wrr g t ≡ some (wrr_bg_timeslice g))
      × (refill g (record t { wrr = refresh_entity g t }) ≡ wrr_fg_timeslice g)
unfolding get_rr_interval_wrr refresh_entity background group_path
get_rr_interval_wrr_disagrees g t c p a e n z = (ground arith, ground arith)
