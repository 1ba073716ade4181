-- ===== src/Core/Fork.antt =====
-- sched_fork of core.c, and rt_mutex_setprio: the two functions beside __setscheduler that choose a
-- task's class. Both choose by the priority alone.
pub mod Wrr
use linux_kernel.Prelude.{
  ℕ, Bool, true, false, ◌&&◌, ◌||◌, not, Option, none, some, if◌then◌else◌, ◌==◌,
}
use linux_kernel.Prelude.Int.{ℤ, pos, ltb_ℤ}
use linux_kernel.Sched.{Class, Task, Rq, SchedEntity, set_task, sched_normal}
use linux_kernel.Core.Prio.{
  task_has_rt_policy, rt_prio, task_nice, nice_to_prio, set_load_weight, normal_prio,
}
use linux_kernel.Core.Classes.{
  Env, class_ops, class_of, enqueue_task, dequeue_task, check_class_changed,
}

-- __sched_fork, on the fields of the model: the child is on no run queue and has used no time.
pub sched_fork_setup : Task → Task
sched_fork_setup p = record p {
  on_rq = false;
  se = record (p.se) { exec_start = 0; exec_max = 0; sum_exec_runtime = 0 };
}

-- The branch for sched_reset_on_fork.
pub reset_on_fork : Task → Task
reset_on_fork p =
    let q =
      if task_has_rt_policy p
      then record p { policy = sched_normal; static_prio = nice_to_prio (pos 0); rt_priority = 0 }
      else if ltb_ℤ (task_nice p) (pos 0)
      then record p { static_prio = nice_to_prio (pos 0) }
      else p in
    record (set_load_weight (record q { prio = q.static_prio; normal_prio = q.static_prio })) {
      sched_reset_on_fork = false;
    }

abbrev pub fork_hook : Option (Task → Task) → Task → Task
fork_hook none p = p
fork_hook (some f) p = f p

-- `p` is the child, a copy of `current` but for what copy_process has changed.
pub sched_fork : Env → Task → Task → Task
sched_fork e current p =
    let p1 = record (sched_fork_setup p) { prio = current.normal_prio } in
    let p2 = if p1.sched_reset_on_fork then reset_on_fork p1 else p1 in
    let p3 = if not (rt_prio p2.prio) then record p2 { sched_class = Class.fair } else p2 in
    fork_hook (class_ops e p3.sched_class).task_fork p3

-- ENQUEUE_HEAD is 2.
pub rt_mutex_setprio : Env → Rq → ℕ → ℤ → Rq
rt_mutex_setprio e rq p prio =
    let t = rq.tasks p in
    let running = rq.curr == p in
    let rq1 = if t.on_rq then dequeue_task e rq p 0 else rq in
    let rq2 = if running then (class_of e rq1 p).put_prev_task rq1 p else rq1 in
    let rq3 = set_task rq2 p (record (rq2.tasks p) {
      sched_class = if rt_prio prio then Class.rt else Class.fair;
      prio = prio;
    }) in
    let rq4 = if running then (class_of e rq3 p).set_curr_task rq3 else rq3 in
    let rq5 = if t.on_rq then enqueue_task e rq4 p (if ltb_ℤ t.prio prio then 2 else 0) else rq4 in
    if p == rq.idle then rq else check_class_changed e rq5 p t.sched_class t.prio
