-- ===== src/Core/Setscheduler/Errors.antt =====
-- What sched_setscheduler refuses, and that its retry loop ends.
use linux_kernel.Prelude.{ℕ, ◌≡◌, Bool, true, false, Option, none, some, ◌⊎◌, arith, ◌==◌}
use linux_kernel.Prelude.Int.{ℤ, pos}
use linux_kernel.Prelude.Errno.{einval, eperm}
use linux_kernel.Sched.{Task, Rq}
use linux_kernel.Core.Prio.{rt_policy}
use linux_kernel.Core.Classes.{Env}
use linux_kernel.Core.Setscheduler.{
  Caller, Request, read_policy, check_request, passed, change_policy, unchanged, no_runtime,
}

-- The policy that the request was read at is the task's, if it was read at all.
abbrev Quiet : Task → Request → Type 0
Quiet t r = (r.oldpolicy ≡ none) ⊎ (r.oldpolicy ≡ some t.policy)

pub check_request-read :
    (c : Caller) (t : Task) (p : ℕ) (policy prio : ℤ) (user : Bool) (r : Request)
    → check_request c t p policy prio user ≡ passed r
    → read_policy t policy ≡ some r
unfolding check_request
check_request-read c t p policy prio user r h = ground arith

-- How a call that passed the checks ends: with -EINVAL for the stop task; with 0 and no change, since the
-- task has the policy already, and under an rt policy the priority; with -EPERM for an rt policy in a
-- group without runtime; or with 0 and the change.
pub data Ends (e : Env) (c : Caller) (rq : Rq) (p : ℕ) (r : Request) (prio : ℤ) (user : Bool)
    : ℤ → Rq → Type 0 where
  stop_task : (p == rq.stop) ≡ true → Ends e c rq p r prio user einval rq
  same :
      r.policy ≡ (rq.tasks p).policy
      → (rt_policy r.policy ≡ true → prio ≡ pos (rq.tasks p).rt_priority)
      → Ends e c rq p r prio user (pos 0) rq
  no_group_runtime :
      user ≡ true
      → c.rt_bandwidth_enabled ≡ true
      → rt_policy r.policy ≡ true
      → c.group_rt_runtime (rq.tasks p).sched_task_group ≡ 0
      → c.group_is_autogroup (rq.tasks p).sched_task_group ≡ false
      → Ends e c rq p r prio user eperm rq
  changed :
      (p == rq.stop) ≡ false
      → unchanged (rq.tasks p) r prio ≡ false
      → no_runtime c (rq.tasks p) r user ≡ false
      → Ends e c rq p r prio user (pos 0) (change_policy e c rq p r prio)

-- `none`, a loop that goes on, is no ending.
abbrev pub Settled : Env → Caller → Rq → ℕ → Request → ℤ → Bool → Option (ℤ × Rq) → Type 0
Settled e c rq p r prio user none = ⊥
Settled e c rq p r prio user (some (ret, out)) = Ends e c rq p r prio user ret out
