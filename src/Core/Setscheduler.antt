-- ===== src/Core/Setscheduler.antt =====
-- sched_setscheduler of core.c, with its checks, its retry when the policy changes under it, and the
-- system calls above it. Reading the group path is left out: it is only printed.
pub mod Checks
pub mod Errors
pub mod Frames
pub mod ToWrr
use linux_kernel.Prelude.{
  ℕ, ◌+◌, ◌-◌, ◌/◌, ◌%◌, ◌^◌, Bool, true, false, ◌&&◌, ◌||◌, not, Option, none, some, List, [], ◌∷◌,
  if◌then◌else◌, ◌==◌, ltb, leb,
}
use linux_kernel.Prelude.Int.{ℤ, pos, negsuc, ltb_ℤ, eqb_ℤ, pos_part}
use linux_kernel.Prelude.Errno.{eperm, esrch, efault, einval}
use linux_kernel.Sched.{
  Class, Task, Rq, set_task, sched_normal, sched_fifo, sched_rr, sched_batch, sched_idle, sched_wrr,
}
use linux_kernel.Core.Prio.{rt_policy, rt_prio, task_nice, can_nice, normal_prio, set_load_weight}
use linux_kernel.Core.Classes.{
  Env, class_ops, class_of, enqueue_task, dequeue_task, check_class_changed,
}

-- What the checks ask of the security and cgroup code, and of the rt mutexes.
pub record Caller : Type 0 where
  pub capable : Bool
  pub rlimit_rtprio : ℕ → ℕ
  pub rlimit_nice : ℕ → ℕ
  pub same_owner : ℕ → Bool
  pub security : ℕ → ℤ
  pub rt_bandwidth_enabled : Bool
  pub group_rt_runtime : ℕ → ℕ
  pub group_is_autogroup : ℕ → Bool
  pub rt_mutex_getprio : Task → ℤ
  pub rt_mutex_adjust_pi : Rq → ℕ → Rq

-- The local variables of __sched_setscheduler after the policy is read.
pub record Request : Type 0 where
  pub policy : ℕ
  pub oldpolicy : Option ℕ
  pub reset_on_fork : Bool

abbrev pub valid_policy : ℕ → Bool
valid_policy n =
    n == sched_fifo
    || (n == sched_rr
        || (n == sched_normal || (n == sched_batch || (n == sched_idle || n == sched_wrr))))

-- SCHED_RESET_ON_FORK is bit 30 of a policy, which is an `int`.
unfoldable pub read_policy : Task → ℤ → Option Request
read_policy t (negsuc _) =
    some (record {
      policy = t.policy;
      oldpolicy = some t.policy;
      reset_on_fork = t.sched_reset_on_fork;
    })
read_policy t (pos n) =
    let reset = n / 2 ^ 30 % 2 == 1 in
    let policy = if reset then n - 2 ^ 30 else n in
    if valid_policy policy
    then some (record { policy = policy; oldpolicy = none; reset_on_fork = reset })
    else none

-- MAX_USER_RT_PRIO and MAX_RT_PRIO are both 100.
pub prio_ok : Task → ℕ → ℤ → Bool
prio_ok t policy prio =
    if ltb_ℤ prio (pos 0)
      || (t.has_mm && ltb_ℤ (pos 99) prio || not t.has_mm && ltb_ℤ (pos 99) prio)
    then false
    else if rt_policy policy
    then not (eqb_ℤ prio (pos 0))
    else eqb_ℤ prio (pos 0)

-- The checks on a caller without CAP_SYS_NICE; true stands for -EPERM.
pub refused : Caller → Task → ℕ → Request → ℤ → Bool
refused c t p r prio =
    let rlim = c.rlimit_rtprio p in
    (rt_policy r.policy
      && (not (r.policy == t.policy) && rlim == 0
          || ltb t.rt_priority (pos_part prio) && ltb rlim (pos_part prio)))
    || (t.policy == sched_idle
          && not (r.policy == sched_idle)
          && not (can_nice (c.rlimit_nice p) c.capable (task_nice t))
        || (not (c.same_owner p) || t.sched_reset_on_fork && not r.reset_on_fork))

-- Everything above task_rq_lock: the request, or the error.
pub data Checked : Type 0 where
  passed : Request → Checked
  failed : ℤ → Checked

pub check_request : Caller → Task → ℕ → ℤ → ℤ → Bool → Checked
check_request c t p policy prio user = elim (read_policy t policy) [
  | none ↦ failed einval
  | some r ↦
      if not (prio_ok t r.policy prio)
      then failed einval
      else if user && (not c.capable && refused c t p r prio)
      then failed eperm
      else if user && not (eqb_ℤ (c.security p) (pos 0))
      then failed (c.security p)
      else passed r
]

-- __setscheduler. rt_mutex_getprio reads the normal priority that was just stored.
unfoldable pub set_policy : Caller → Task → ℕ → ℕ → Task
set_policy c t policy prio =
    let t1 = record t { policy = policy; rt_priority = prio } in
    let t2 = record t1 { normal_prio = normal_prio t1 } in
    let t3 = record t2 { prio = c.rt_mutex_getprio t2 } in
    set_load_weight (record t3 {
      sched_class =
          if policy == sched_wrr
          then Class.wrr
          else if rt_prio t3.prio
          then Class.rt
          else Class.fair;
    })

-- The last part, with the run queue locked: out of the old class, into the new one.
pub change_policy : Env → Caller → Rq → ℕ → Request → ℤ → Rq
change_policy e c rq p r prio =
    let on_rq = (rq.tasks p).on_rq in
    let running = rq.curr == p in
    let rq1 = if on_rq then dequeue_task e rq p 0 else rq in
    let rq2 = if running then (class_of e rq1 p).put_prev_task rq1 p else rq1 in
    let rq3 = set_task rq2 p (record (rq2.tasks p) { sched_reset_on_fork = r.reset_on_fork }) in
    let oldprio = (rq3.tasks p).prio in
    let prev_class = (rq3.tasks p).sched_class in
    let rq4 = set_task rq3 p (set_policy c (rq3.tasks p) r.policy (pos_part prio)) in
    let rq5 = if running then (class_of e rq4 p).set_curr_task rq4 else rq4 in
    let rq6 = if on_rq then enqueue_task e rq5 p 0 else rq5 in
    c.rt_mutex_adjust_pi (check_class_changed e rq6 p prev_class oldprio) p

-- The tests that are made with the run queue locked.
unfoldable pub unchanged : Task → Request → ℤ → Bool
unchanged t r prio =
    r.policy == t.policy && (not (rt_policy r.policy) || eqb_ℤ prio (pos t.rt_priority))

unfoldable pub no_runtime : Caller → Task → Request → Bool → Bool
no_runtime c t r user =
    user
    && (c.rt_bandwidth_enabled
        && (rt_policy r.policy
            && (c.group_rt_runtime t.sched_task_group == 0
                && not (c.group_is_autogroup t.sched_task_group))))

unfoldable pub stale : Task → Request → Bool
stale t r = elim r.oldpolicy [ none ↦ false | some o ↦ not (o == t.policy) ]

-- With the run queue locked; `none` is `goto recheck`.
unfoldable pub locked_part : Env → Caller → Rq → ℕ → Request → ℤ → Bool → Option (ℤ × Rq)
locked_part e c rq p r prio user =
    let t = rq.tasks p in
    if p == rq.stop
    then some (einval, rq)
    else if unchanged t r prio
    then some (pos 0, rq)
    else if no_runtime c t r user
    then some (eperm, rq)
    else if stale t r
    then none
    else some (pos 0, change_policy e c rq p r prio)

unfoldable pub attempt :
    Env → Caller → Rq → ℕ → ℤ → Bool → Option (ℤ × Rq) → Checked → Option (ℤ × Rq)
attempt e c rq p prio user retry (failed err) = some (err, rq)
attempt e c rq p prio user retry (passed r) = elim (locked_part e c rq p r prio user) [
  | none ↦ retry
  | some out ↦ some out
]

-- One attempt reads the task without the lock, as `t`, and finds the run queue at `rq` with it. The
-- list holds the attempts that the other CPUs let the loop make; `none` is a loop that goes on.
-- After a recheck the policy is -1, so that it is read from the task again.
unfoldable pub sched_setscheduler_loop :
    Env → Caller → List (Task × Rq) → ℕ → ℤ → ℤ → Bool → Option (ℤ × Rq)
sched_setscheduler_loop e c [] p policy prio user = none
sched_setscheduler_loop e c ((t, rq) ∷ later) p policy prio user =
    let rest = sched_setscheduler_loop e c later p (negsuc 0) prio user in
    attempt e c rq p prio user rest (check_request c t p policy prio user)

-- The call when nothing changes between the unlocked reading and the lock: one attempt is enough.
unfoldable pub sched_setscheduler : Env → Caller → Rq → ℕ → ℤ → ℤ → Bool → Option (ℤ × Rq)
sched_setscheduler e c rq p policy prio user =
    sched_setscheduler_loop e c ((rq.tasks p, rq) ∷ []) p policy prio user

-- do_sched_setscheduler, with the priority that copy_from_user reads (`none` if it fails) and what
-- find_process_by_pid finds.
pub do_sched_setscheduler : Env → Caller → Rq → Bool → ℤ → Option ℕ → ℤ → Option ℤ → Option (ℤ × Rq)
do_sched_setscheduler e c rq has_param pid found policy copied =
    if not has_param || ltb_ℤ pid (pos 0) then some (einval, rq) else elim copied [
      | none ↦ some (efault, rq)
      | some prio ↦ elim found [
        | none ↦ some (esrch, rq)
        | some p ↦ sched_setscheduler e c rq p policy prio true
      ]
    ]

pub sys_sched_setscheduler :
    Env → Caller → Rq → Bool → ℤ → Option ℕ → ℤ → Option ℤ → Option (ℤ × Rq)
sys_sched_setscheduler e c rq has_param pid found policy copied =
    if ltb_ℤ policy (pos 0)
    then some (einval, rq)
    else do_sched_setscheduler e c rq has_param pid found policy copied

pub sys_sched_setparam : Env → Caller → Rq → Bool → ℤ → Option ℕ → Option ℤ → Option (ℤ × Rq)
sys_sched_setparam e c rq has_param pid found copied =
    do_sched_setscheduler e c rq has_param pid found (negsuc 0) copied
