-- ===== src/Wrr.antt =====
-- "project_Android Kernel Scheduler/scheduler/sched/wrr.c": the weighted round-robin class.
-- A function that changes the run queue returns the new one. printk is left out.
pub mod Queue
pub mod Invariant
pub mod Steps
pub mod Rotation
pub mod Turns
pub mod Slices
pub mod Samples
mod Tests
use linux_kernel.Prelude.{
  ℕ, ◌*◌, ◌/◌, ◌%◌, ◌^◌, max, Bool, true, false, ◌&&◌, not, Option, none, some, List, [], ◌∷◌, ◌++◌,
  if◌then◌else◌, ◌==◌, leb, get_or, set,
}
use linux_kernel.Prelude.Words.{add32, sub32, add64, sub64}
use linux_kernel.Sched.{Class, Task, Rq, WrrRq, SchedWrrEntity, set_task, resched_task, same_class}
use linux_kernel.Sched.{sched_wrr}

-- What wrr.c calls of the control groups, none of which is in the repository: autogroup_path fills
-- the buffer and says whether it did; cgroup_path writes a group's path. `stack` is what the buffer
-- holds before, and `hz` the kernel's tick rate HZ.
pub record Cgroups : Type 0 where
  pub autogroup_path : ℕ → List ℕ → Bool × List ℕ
  pub css_cgroup : ℕ → Option ℕ
  pub cgroup_path : Option ℕ → List ℕ → List ℕ
  pub stack : List ℕ
  pub hz : ℕ

abbrev pub wrr_fg_timeslice : Cgroups → ℕ
wrr_fg_timeslice g = 100 * g.hz / 1000

abbrev pub wrr_bg_timeslice : Cgroups → ℕ
wrr_bg_timeslice g = 10 * g.hz / 1000

-- The path that each handler computes into `group_path`.
pub group_path : Cgroups → ℕ → List ℕ
group_path g tg =
    let (filled, buf) = g.autogroup_path tg g.stack in
    let cgrp = g.css_cgroup tg in
    if filled then buf else g.cgroup_path cgrp (elim cgrp [ none ↦ set buf 0 0 | some c ↦ buf ])

-- group_path[1] == 'b', as of the Android group "/bg_non_interactive".
pub background : Cgroups → ℕ → Bool
background g tg = get_or (group_path g tg) 1 0 == b'b'

-- The rest of update_curr_wrr, for the current task `c` of class wrr.
abbrev pub charge : Rq → Task → ℕ → Rq
charge rq c delta =
    record (set_task rq rq.curr (record c {
      se = record (c.se) {
        exec_max = max c.se.exec_max delta;
        sum_exec_runtime = add64 c.se.sum_exec_runtime delta;
        exec_start = rq.clock_task;
      };
    })) { charged = (rq.curr, delta) ∷ rq.charged }

-- (s64)delta < 0 holds from 2^63 on.
abbrev pub delta_exec : Rq → Task → ℕ
delta_exec rq c =
    let delta = sub64 rq.clock_task c.se.exec_start in if leb (2 ^ 63) delta then 0 else delta

unfoldable pub update_curr_wrr : Rq → Rq
update_curr_wrr rq =
    let c = rq.tasks rq.curr in
    if same_class c.sched_class Class.wrr then charge rq c (delta_exec rq c) else rq

-- The weight and time slice that enqueue_wrr_entity leaves.
pub refresh_entity : Cgroups → Task → SchedWrrEntity
refresh_entity g t =
    let bg = background g t.sched_task_group in
    if bg && not (t.wrr.weight == 1)
    then record { weight = 1; time_slice = wrr_bg_timeslice g }
    else if not bg && not (t.wrr.weight == 10)
    then record { weight = 10; time_slice = wrr_fg_timeslice g }
    else t.wrr

unfoldable pub enqueue_wrr_entity : Cgroups → Rq → ℕ → Bool → Rq
enqueue_wrr_entity g rq p head =
    let e = refresh_entity g (rq.tasks p) in
    let q = rq.wrr in
    record (set_task rq p (record (rq.tasks p) { wrr = e })) {
      wrr = record {
        queue = if head then p ∷ q.queue else q.queue ++ (p ∷ []);
        total_weight = add32 q.total_weight e.weight;
        wrr_nr_running = add32 q.wrr_nr_running 1;
      };
    }

abbrev pub inc_nr_running : Rq → Rq
inc_nr_running rq = record rq { nr_running = add32 rq.nr_running 1 }

abbrev pub dec_nr_running : Rq → Rq
dec_nr_running rq = record rq { nr_running = sub32 rq.nr_running 1 }

-- flags & ENQUEUE_HEAD, which is 2.
abbrev pub enqueue_head : ℕ → Bool
enqueue_head flags = flags / 2 % 2 == 1

unfoldable pub enqueue_task_wrr : Cgroups → Rq → ℕ → ℕ → Rq
enqueue_task_wrr g rq p flags = inc_nr_running (enqueue_wrr_entity g rq p (enqueue_head flags))

-- list_del_init: an entity that is not linked stays so.
unfoldable pub remove : ℕ → List ℕ → List ℕ
remove p [] = []
remove p (x ∷ xs) = if x == p then xs else x ∷ remove p xs

unfoldable pub dequeue_wrr_entity : Rq → ℕ → Rq
dequeue_wrr_entity rq p =
    let q = rq.wrr in
    record rq {
      wrr = record {
        queue = remove p q.queue;
        total_weight = sub32 q.total_weight (rq.tasks p).wrr.weight;
        wrr_nr_running = sub32 q.wrr_nr_running 1;
      };
    }

unfoldable pub dequeue_task_wrr : Rq → ℕ → Rq
dequeue_task_wrr rq p = dec_nr_running (dequeue_wrr_entity (update_curr_wrr rq) p)

unfoldable pub check_preempt_curr_wrr : Rq → ℕ → Rq
check_preempt_curr_wrr rq p = rq

pub task_fork_wrr : Task → Task
task_fork_wrr t = record t { wrr = record (t.wrr) { time_slice = 0 } }

pub init_wrr_rq : WrrRq
init_wrr_rq = record { queue = []; wrr_nr_running = 0; total_weight = 0 }

-- list_move and list_move_tail: out of the list, and in again at the chosen end.
pub requeue_task_wrr : Rq → ℕ → Bool → Rq
requeue_task_wrr rq p head =
    let rest = remove p rq.wrr.queue in
    record rq { wrr = record (rq.wrr) { queue = if head then p ∷ rest else rest ++ (p ∷ []) } }

pub yield_task_wrr : Rq → Rq
yield_task_wrr rq = requeue_task_wrr rq rq.curr false

unfoldable pub put_prev_task_wrr : Rq → ℕ → Rq
put_prev_task_wrr rq prev =
    let rq' = update_curr_wrr rq in
    let t = rq'.tasks prev in set_task rq' prev (record t { se = record (t.se) { exec_start = 0 } })

-- run_list.next and run_list.prev of `p`; `none` is the list head at `queue`, and an entity that is
-- not linked points to itself.
abbrev pub first_entry : List ℕ → Option ℕ
first_entry [] = none
first_entry (x ∷ xs) = some x

pub next_entry : ℕ → List ℕ → Option ℕ
next_entry p [] = some p
next_entry p (x ∷ xs) = if x == p then first_entry xs else next_entry p xs

pub prev_entry : Option ℕ → ℕ → List ℕ → Option ℕ
prev_entry before p [] = some p
prev_entry before p (x ∷ xs) = if x == p then before else prev_entry (some x) p xs

abbrev pub same_entry : Option ℕ → Option ℕ → Bool
same_entry none none = true
same_entry (some a) (some b) = a == b
same_entry _ _ = false

-- run_list.prev != run_list.next
pub has_neighbours : ℕ → List ℕ → Bool
has_neighbours p q = not (same_entry (prev_entry none p q) (next_entry p q))

-- The time slice that task_tick_wrr gives when it has run out.
abbrev pub refill : Cgroups → Task → ℕ
refill g t = if t.wrr.weight == 1 then wrr_bg_timeslice g else wrr_fg_timeslice g

abbrev pub set_slice : Rq → ℕ → ℕ → Rq
set_slice rq p n =
    let t = rq.tasks p in set_task rq p (record t { wrr = record (t.wrr) { time_slice = n } })

-- The part of task_tick_wrr for a time slice that has run out.
pub slice_expired : Cgroups → Rq → ℕ → Rq
slice_expired g rq p =
    let renewed = set_slice rq p (refill g (rq.tasks p)) in
    if has_neighbours p renewed.wrr.queue
    then resched_task (requeue_task_wrr renewed p false) p
    else renewed

pub task_tick_wrr : Cgroups → Rq → ℕ → Rq
task_tick_wrr g rq p =
    let rq' = update_curr_wrr rq in
    let left = sub32 (rq'.tasks p).wrr.time_slice 1 in
    if not (left == 0) then set_slice rq' p left else slice_expired g rq' p

pub set_curr_task_wrr : Rq → Rq
set_curr_task_wrr rq =
    let t = rq.tasks rq.curr in
    set_task rq rq.curr (record t { se = record (t.se) { exec_start = rq.clock_task } })

-- `none` is NULL. list_first_entry of an empty list is no task: `elim` has it as NULL too, and
-- `pick_next_task_wrr_lem` shows that this is not met.
pub pick_next_task_wrr : Rq → Option ℕ
pick_next_task_wrr rq = if rq.wrr.wrr_nr_running == 0 then none else first_entry rq.wrr.queue

unfoldable pub switched_to_wrr : Cgroups → Rq → ℕ → Rq
switched_to_wrr g rq p =
    let rq' = resched_task rq rq.curr in
    let t = rq'.tasks p in
    let w = if background g t.sched_task_group then 1 else 10 in
    if (rq.tasks p).on_rq && not (rq.curr == p)
    then set_task rq' p (record t { wrr = record (t.wrr) { weight = w } })
    else rq

-- `none`: the function ends with no `return`.
pub get_rr_interval_wrr : Cgroups → Task → Option ℕ
get_rr_interval_wrr g t =
    let path = g.cgroup_path (g.css_cgroup t.sched_task_group) g.stack in
    if t.policy == sched_wrr
    then some (if get_or path 1 0 == 0 then wrr_fg_timeslice g else wrr_bg_timeslice g)
    else none
