-- ===== src/Core/Setscheduler/Frames.antt =====
-- What the parts of __sched_setscheduler outside the wrr class leave alone.
use linux_kernel.Prelude.{ℕ, ◌≡◌, refl, ap, ◌∙◌, true, [], ◌∷◌, arith, if_cases, ◌==◌}
use linux_kernel.Prelude.Int.{ℤ, pos, pos_part, ltb_ℤ}
use linux_kernel.Prelude.Words.{add64, sub64}
use linux_kernel.Sched.{Class, Task, Rq, set_task, sched_wrr}
use linux_kernel.Wrr.Queue.{weights, weights-update_same}
use linux_kernel.Wrr.Invariant.{Keeps}
use linux_kernel.Core.Prio.{set_load_weight}
use linux_kernel.Core.Classes.{Env, class_ops, update_rq_clock, call_if}
use linux_kernel.Core.Setscheduler.{Caller, Request, set_policy}

-- What code outside the wrr class leaves alone: the wrr queue, the weights, the current task, and of
-- the task `p` its class, its group and whether it is runnable.
pub record Frame (p : ℕ) (a b : Rq) : Type 0 where
  pub keeps : Keeps a b
  pub curr : b.curr ≡ a.curr
  pub on_rq : (b.tasks p).on_rq ≡ (a.tasks p).on_rq
  pub sched_class : (b.tasks p).sched_class ≡ (a.tasks p).sched_class
  pub sched_task_group : (b.tasks p).sched_task_group ≡ (a.tasks p).sched_task_group

pub weight_at : {a b : Rq} (p : ℕ) → Keeps a b → (b.tasks p).wrr.weight ≡ (a.tasks p).wrr.weight
unfolding weights
weight_at p k = omega (arith, k.tasks (p ∷ []))

pub update_rq_clock-Frame : (e : Env) (rq : Rq) (p : ℕ) → Frame p rq (update_rq_clock e rq)
unfolding update_rq_clock
update_rq_clock-Frame e rq p =
    if_cases (Frame p rq) (ltb_ℤ (pos 0) rq.skip_clock_update) {x = rq}
      (λ _. same rq.clock rq.clock_task)
      (λ _.
        same (add64 rq.clock (sub64 e.sched_clock rq.clock))
          (add64 rq.clock_task (sub64 e.sched_clock rq.clock)))
  where
    same : (x y : ℕ) → Frame p rq (record rq { clock = x; clock_task = y })
    same x y = record {
      keeps = record { wrr = refl; tasks = λ xs. refl };
      curr = refl;
      on_rq = refl;
      sched_class = refl;
      sched_task_group = refl;
    }

-- The task with its new policy: it has the wrr class, its weight, its group and on_rq are the same.
unfoldable pub relabelled : Caller → ℕ → Request → ℤ → Rq → Rq
relabelled c p r prio rq =
    let rq3 = set_task rq p (record (rq.tasks p) { sched_reset_on_fork = r.reset_on_fork }) in
    set_task rq3 p (set_policy c (rq3.tasks p) r.policy (pos_part prio))

pub set_policy_class :
    (c : Caller) (t : Task) (policy prio : ℕ)
    → policy ≡ sched_wrr
    → (set_policy c t policy prio).sched_class ≡ Class.wrr
unfolding set_policy set_load_weight
set_policy_class c t policy prio h = ground arith

set_policy_rest :
    (c : Caller) (t : Task) (policy prio : ℕ)
    → ((set_policy c t policy prio).wrr ≡ t.wrr)
      × ((set_policy c t policy prio).on_rq ≡ t.on_rq)
      × ((set_policy c t policy prio).sched_task_group ≡ t.sched_task_group)
unfolding set_policy set_load_weight
set_policy_rest c t policy prio = (refl, refl, refl)

pub itself : (p : ℕ) → (p == p) ≡ true
itself p = ground arith

pub relabelled_task :
    (c : Caller) (p : ℕ) (r : Request) (prio : ℤ) (rq : Rq)
    → (relabelled c p r prio rq).tasks p
      ≡ set_policy c
          (record (rq.tasks p) { sched_reset_on_fork = r.reset_on_fork })
          r.policy
          (pos_part prio)
unfolding relabelled
relabelled_task c p r prio rq = rw (itself p) refl

pub relabelled-Keeps :
    (c : Caller) (p : ℕ) (r : Request) (prio : ℤ) (rq : Rq) → Keeps rq (relabelled c p r prio rq)
unfolding relabelled
relabelled-Keeps c p r prio rq =
    let t3 = record (rq.tasks p) { sched_reset_on_fork = r.reset_on_fork } in
    let rq3 = set_task rq p t3 in
    let rest = set_policy_rest c (rq3.tasks p) r.policy (pos_part prio) in
    record {
      wrr = refl;
      tasks = λ xs.
          weights-update_same rq3.tasks p _ xs (ap (λ w. w.weight) rest.0)
          ∙ weights-update_same rq.tasks p t3 xs refl;
    }

-- What is asked of the class that the task leaves, and of the rt mutexes.
pub record Leaves (e : Env) (c : Caller) (p : ℕ) (old : Class) : Type 0 where
  pub dequeue : (rq : Rq) (flags : ℕ) → Frame p rq ((class_ops e old).dequeue_task rq p flags)
  pub switched : (rq : Rq) → Frame p rq (call_if (class_ops e old).switched_from rq p)
  pub adjust : (rq : Rq) → Frame p rq (c.rt_mutex_adjust_pi rq p)

pub Frame-trans : {p : ℕ} {x y z : Rq} → Frame p x y → Frame p y z → Frame p x z
Frame-trans f g = record {
  keeps = record {
    wrr = g.keeps.wrr ∙ f.keeps.wrr;
    tasks = λ xs. g.keeps.tasks xs ∙ f.keeps.tasks xs;
  };
  curr = g.curr ∙ f.curr;
  on_rq = g.on_rq ∙ f.on_rq;
  sched_class = g.sched_class ∙ f.sched_class;
  sched_task_group = g.sched_task_group ∙ f.sched_task_group;
}
