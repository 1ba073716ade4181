-- ===== src/Core/Nice.antt =====
-- sched/core.c: set_user_nice and the system call nice. Without CONFIG_SMP a task runs if it is the
-- current one.
pub mod Wrr
use linux_kernel.Prelude.{ℕ, Bool, true, false, ◌&&◌, ◌||◌, not, if◌then◌else◌, ◌==◌}
use linux_kernel.Prelude.Int.{ℤ, pos, negsuc, ◌+ℤ◌, ◌-ℤ◌, ltb_ℤ, eqb_ℤ}
use linux_kernel.Prelude.Errno.{eperm}
use linux_kernel.Sched.{Task, Rq, set_task, resched_task}
use linux_kernel.Core.Prio.{
  task_has_rt_policy, task_nice, nice_to_prio, can_nice, effective_prio, set_load_weight,
}
use linux_kernel.Core.Classes.{Env, enqueue_task, dequeue_task}

-- The task with its new static priority, load weight and priority.
unfoldable pub renice : Task → ℤ → Task
renice t nice =
    let t1 = set_load_weight (record t { static_prio = nice_to_prio nice }) in
    let (t2, prio) = effective_prio t1 in record t2 { prio = prio }

-- Back on the run queue, with `delta` between the new and the old priority.
unfoldable pub enqueue_reniced : Env → Rq → ℕ → ℤ → Rq
enqueue_reniced e rq p delta =
    let rq' = enqueue_task e rq p 0 in
    if ltb_ℤ delta (pos 0) || ltb_ℤ (pos 0) delta && rq'.curr == p
    then resched_task rq' rq'.curr
    else rq'

unfoldable pub set_user_nice : Env → Rq → ℕ → ℤ → Rq
set_user_nice e rq p nice =
    let t = rq.tasks p in
    if eqb_ℤ (task_nice t) nice || (ltb_ℤ nice (negsuc 19) || ltb_ℤ (pos 19) nice)
    then rq
    else if task_has_rt_policy t
    then set_task rq p (record t { static_prio = nice_to_prio nice })
    else let rq1 = if t.on_rq then dequeue_task e rq p 0 else rq in
      let old_prio = (rq1.tasks p).prio in
      let rq2 = set_task rq1 p (renice (rq1.tasks p) nice) in
      if t.on_rq then enqueue_reniced e rq2 p ((rq2.tasks p).prio -ℤ old_prio) else rq2

unfoldable pub clamp : ℤ → ℤ → ℤ → ℤ
clamp low high n = let m = if ltb_ℤ n low then low else n in if ltb_ℤ high m then high else m

-- sys_nice for the current task, with its RLIMIT_NICE, whether it has CAP_SYS_NICE, and the hook
-- security_task_setnice.
unfoldable pub sys_nice : Env → Rq → ℕ → Bool → (ℕ → ℤ → ℤ) → ℤ → ℤ × Rq
sys_nice e rq rlimit_nice capable security increment =
    let step = clamp (negsuc 39) (pos 40) increment in
    let nice = clamp (negsuc 19) (pos 19) (task_nice (rq.tasks rq.curr) +ℤ step) in
    let retval = security rq.curr nice in
    if ltb_ℤ step (pos 0) && not (can_nice rlimit_nice capable nice)
    then (eperm, rq)
    else if not (eqb_ℤ retval (pos 0))
    then (retval, rq)
    else (pos 0, set_user_nice e rq rq.curr nice)
