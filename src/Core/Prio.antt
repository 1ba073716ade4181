-- ===== src/Core/Prio.antt =====
-- The priorities of core.c and sched.h: nice values, static, normal and effective priority, and the
-- load weight of a static priority.
pub mod Tables
pub mod Laws
use linux_kernel.Prelude.{
  ℕ, ◌+◌, ◌-◌, Bool, true, false, ◌||◌, not, if◌then◌else◌, ◌==◌, ltb, leb, get_or,
}
use linux_kernel.Prelude.Int.{ℤ, pos, ◌+ℤ◌, ◌-ℤ◌, ltb_ℤ, pos_part}
use linux_kernel.Sched.{Task, max_rt_prio, sched_fifo, sched_rr, sched_idle}
use Tables.{prio_to_weight, prio_to_wmult}

abbrev pub rt_policy : ℕ → Bool
rt_policy policy = policy == sched_fifo || policy == sched_rr

abbrev pub task_has_rt_policy : Task → Bool
task_has_rt_policy t = rt_policy t.policy

abbrev pub rt_prio : ℤ → Bool
rt_prio prio = ltb_ℤ prio (pos max_rt_prio)

unfoldable pub nice_to_prio : ℤ → ℤ
nice_to_prio nice = nice +ℤ pos (max_rt_prio + 20)

unfoldable pub prio_to_nice : ℤ → ℤ
prio_to_nice prio = prio -ℤ pos (max_rt_prio + 20)

abbrev pub task_nice : Task → ℤ
task_nice t = prio_to_nice t.static_prio

unfoldable pub task_prio : Task → ℤ
task_prio t = t.prio -ℤ pos max_rt_prio

unfoldable pub normal_prio : Task → ℤ
unfolding ◌-ℤ◌
normal_prio t =
    if task_has_rt_policy t then pos (max_rt_prio - 1) -ℤ pos t.rt_priority else t.static_prio

-- The new `normal_prio` field, and the value returned.
unfoldable pub effective_prio : Task → Task × ℤ
unfolding normal_prio
effective_prio t =
    let n = normal_prio t in
    (record t { normal_prio = n }, if not (rt_prio t.prio) then n else t.prio)

-- scale_load is the identity: SCHED_LOAD_RESOLUTION is 0.
unfoldable pub set_load_weight : Task → Task
unfolding ◌-ℤ◌ prio_to_weight prio_to_wmult
set_load_weight t =
    let prio = pos_part (t.static_prio -ℤ pos max_rt_prio) in
    record t {
      se =
          if t.policy == sched_idle
          then record (t.se) { load_weight = 3; inv_weight = 1431655765 }
          else record (t.se) {
            load_weight = get_or prio_to_weight prio 0;
            inv_weight = get_or prio_to_wmult prio 0;
          };
    }

-- The rlimit RLIMIT_NICE of the task and CAP_SYS_NICE of the caller are given.
unfoldable pub can_nice : ℕ → Bool → ℤ → Bool
unfolding ◌-ℤ◌
can_nice rlimit_nice capable nice = not (ltb_ℤ (pos rlimit_nice) (pos 20 -ℤ nice)) || capable
