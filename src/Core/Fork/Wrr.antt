-- ===== src/Core/Fork/Wrr.antt =====
-- A child of a wrr task: its policy is SCHED_WRR and its class is the fair one, and asking for
-- SCHED_WRR again does not help.
use linux_kernel.Prelude.{
  ℕ, ◌≡◌, refl, ◌∙◌, ap, Bool, false, none, some, inl, inr, arith, ◌==◌, Bool-cases,
}
use linux_kernel.Prelude.Int.{ℤ, pos}
use linux_kernel.Prelude.Errno.{einval}
use linux_kernel.Core.Setscheduler.Errors.{check_request-read}
use linux_kernel.Sched.{Class, Task, Rq, sched_wrr}
use linux_kernel.Core.Prio.{rt_prio}
use linux_kernel.Core.Classes.{Env, class_ops}
use linux_kernel.Core.Fork.{sched_fork, sched_fork_setup, fork_hook}
use linux_kernel.Core.Setscheduler.{
  Caller, Request, Checked, passed, failed, read_policy, check_request, attempt, locked_part,
  sched_setscheduler, sched_setscheduler_loop, unchanged,
}

-- task_fork_fair, which is not in the repository, leaves the policy and the class of the child.
pub record ForkLaws (e : Env) : Type 0 where
  pub policy : (p : Task) → (fork_hook (e.others Class.fair).task_fork p).policy ≡ p.policy
  pub sched_class :
      (p : Task) → (fork_hook (e.others Class.fair).task_fork p).sched_class ≡ p.sched_class

-- A child whose parent runs at a normal priority (100 or more) and that has no reset flag gets the
-- fair class, whatever its policy is, and keeps the policy.
pub sched_fork_fair :
    (e : Env) (current p : Task)
    → ForkLaws e
    → rt_prio current.normal_prio ≡ false
    → p.sched_reset_on_fork ≡ false
    → ((sched_fork e current p).sched_class ≡ Class.fair)
      × ((sched_fork e current p).policy ≡ p.policy)
unfolding sched_fork sched_fork_setup class_ops
sched_fork_fair e current p l h r =
    let p1 = record (sched_fork_setup p) {
      prio = current.normal_prio;
      sched_class = Class.fair;
      sched_reset_on_fork = false;
    } in
    (rw (r, h) (l.sched_class p1), rw (r, h) (l.policy p1))

attempt_same :
    (e : Env) (c : Caller) (rq : Rq) (p : ℕ) (r : Request) (user : Bool)
    → (rq.tasks p).policy ≡ sched_wrr
    → r.policy ≡ sched_wrr
    → (ret : ℤ) × (attempt e c rq p (pos 0) user none (passed r) ≡ some (ret, rq))
unfolding attempt locked_part unchanged
attempt_same e c rq p r user t h = elim (Bool-cases (p == rq.stop)) [
  | inl s ↦ (einval, ground arith)
  | inr s ↦ (pos 0, ground arith)
]

read_policy_wrr :
    (t : Task) (r : Request) → read_policy t (pos sched_wrr) ≡ some r → r.policy ≡ sched_wrr
unfolding read_policy
read_policy_wrr t r h = ground arith

-- On a task whose policy is SCHED_WRR already, sched_setscheduler to SCHED_WRR with priority 0 ends
-- and leaves the run queue as it is, whatever the class of the task.
pub sched_setscheduler_same :
    (e : Env) (c : Caller) (rq : Rq) (p : ℕ) (user : Bool)
    → (rq.tasks p).policy ≡ sched_wrr
    → (ret : ℤ) × (sched_setscheduler e c rq p (pos sched_wrr) (pos 0) user ≡ some (ret, rq))
unfolding sched_setscheduler sched_setscheduler_loop
sched_setscheduler_same e c rq p user t =
    same (check_request c (rq.tasks p) p (pos sched_wrr) (pos 0) user) refl
  where
    same :
        (k : Checked)
        → check_request c (rq.tasks p) p (pos sched_wrr) (pos 0) user ≡ k
        → (ret : ℤ) × (attempt e c rq p (pos 0) user none k ≡ some (ret, rq))
    same (failed err) h = (err, unfold attempt in refl)
    same (passed r) h = attempt_same e c rq p r user t (
        read_policy_wrr (rq.tasks p) r
          (check_request-read c (rq.tasks p) p (pos sched_wrr) (pos 0) user r h))

-- So the child of a wrr task starts in the fair class, and no call of sched_setscheduler for
-- SCHED_WRR moves it to the wrr class: each one leaves everything as it is.
pub forked_wrr_stays_fair :
    (e : Env) (c : Caller) (rq : Rq) (p : ℕ) (current child : Task) (user : Bool)
    → ForkLaws e
    → rt_prio current.normal_prio ≡ false
    → child.sched_reset_on_fork ≡ false
    → child.policy ≡ sched_wrr
    → rq.tasks p ≡ sched_fork e current child
    → ((rq.tasks p).sched_class ≡ Class.fair)
      × ((ret : ℤ) × (sched_setscheduler e c rq p (pos sched_wrr) (pos 0) user ≡ some (ret, rq)))
forked_wrr_stays_fair e c rq p current child user l h r w t =
    let (class, policy) = sched_fork_fair e current child l h r in
    (rw t class, sched_setscheduler_same e c rq p user (ap (λ (x : Task). x.policy) t ∙ policy ∙ w))
