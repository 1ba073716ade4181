-- ===== src/Core/Setscheduler/ToWrr.antt =====
-- What a change of a waiting task to SCHED_WRR does to the run queue of the wrr class.
use mathlib.Core.Path.{subst}
use linux_kernel.Prelude.{
  ℕ, ◌≡◌, ◌≢◌, refl, sym, ap, ◌∙◌, true, false, not, ◌&&◌, [], ◌∷◌, ◌++◌, arith, if◌then◌else◌,
  if_cases, ◌==◌,
}
use linux_kernel.Prelude.Int.{ℤ}
use linux_kernel.Sched.{Class, Task, Rq, set_task, sched_wrr, same_class, resched_task}
use linux_kernel.Wrr.{Cgroups, enqueue_task_wrr, enqueue_wrr_entity, switched_to_wrr, background}
use linux_kernel.Wrr.Queue.{contains}
use linux_kernel.Wrr.Invariant.{Inv, queued, Keeps-Inv, enqueue_task_wrr-Inv, switched_to_wrr-Inv}
use linux_kernel.Wrr.Slices.{group_weight, refresh_entity_lem}
use linux_kernel.Core.Classes.{
  Env, class_ops, enqueue_task, dequeue_task, check_class_changed, update_rq_clock, call_if,
  wrr_sched_class,
}
use linux_kernel.Core.Setscheduler.{Caller, Request, change_policy}
use linux_kernel.Core.Setscheduler.Frames.{
  Frame, weight_at, update_rq_clock-Frame, relabelled, relabelled_task, set_policy_class,
  relabelled-Keeps, itself, Frame-trans, Leaves,
}

-- The change of a waiting task of another class, step by step.
change_policy_waiting :
    (e : Env) (c : Caller) (rq : Rq) (p : ℕ) (r : Request) (prio : ℤ)
    → (rq.tasks p).on_rq ≡ true
    → (rq.curr == p) ≡ false
    → let rq3 =
        set_task
          (dequeue_task e rq p 0)
          p
          (record ((dequeue_task e rq p 0).tasks p) { sched_reset_on_fork = r.reset_on_fork }) in
      change_policy e c rq p r prio
      ≡ c.rt_mutex_adjust_pi
          (check_class_changed e
            (enqueue_task e (relabelled c p r prio (dequeue_task e rq p 0)) p 0)
            p
            (rq3.tasks p).sched_class
            (rq3.tasks p).prio)
          p
unfolding change_policy relabelled
change_policy_waiting e c rq p r prio o n = rw (o, change_policy) (rw (n, change_policy) refl)

dequeue_task-Frame :
    {e : Env} {c : Caller} {p : ℕ} {old : Class} (rq : Rq)
    → Leaves e c p old
    → (rq.tasks p).sched_class ≡ old
    → Frame p rq (dequeue_task e rq p 0)
unfolding dequeue_task
dequeue_task-Frame {e = e} {p = p} rq l h =
    let clocked = update_rq_clock-Frame e rq p in
    Frame-trans clocked
      (rw (clocked.sched_class ∙ h, dequeue_task) (l.dequeue (update_rq_clock e rq) 0))

pub enqueue_task_as_wrr :
    (e : Env) (rq : Rq) (p : ℕ)
    → (rq.tasks p).sched_class ≡ Class.wrr
    → enqueue_task e rq p 0 ≡ enqueue_task_wrr e.cgroups (update_rq_clock e rq) p 0
unfolding enqueue_task class_ops wrr_sched_class
enqueue_task_as_wrr e rq p h =
    rw ((update_rq_clock-Frame e rq p).sched_class ∙ h, enqueue_task) refl

differs : (old : Class) → old ≢ Class.wrr → same_class old Class.wrr ≡ false
differs Class.stop n = refl
differs Class.rt n = refl
differs Class.wrr n = absurd (n refl)
differs Class.fair n = refl
differs Class.idle n = refl

switched_as_wrr :
    (e : Env) (rq : Rq) (p : ℕ) (old : Class) (oldprio : ℤ)
    → old ≢ Class.wrr
    → (rq.tasks p).sched_class ≡ Class.wrr
    → let rq' = call_if (class_ops e old).switched_from rq p in
      (rq'.tasks p).sched_class ≡ Class.wrr
      → check_class_changed e rq p old oldprio ≡ switched_to_wrr e.cgroups rq' p
unfolding check_class_changed class_ops wrr_sched_class
switched_as_wrr e rq p old oldprio n h k =
    rw (h, check_class_changed) (rw (differs old n, check_class_changed) (rw k refl))

-- After the enqueue the task is at the end of the queue, and its weight is that of its group.
enqueued :
    (g : Cgroups) (rq : Rq) (p : ℕ)
    → let rq' = enqueue_task_wrr g rq p 0 in
      (rq'.wrr.queue ≡ rq.wrr.queue ++ (p ∷ []))
      × ((rq'.tasks p).wrr.weight ≡ group_weight g (rq'.tasks p))
      × ((rq'.tasks p).sched_class ≡ (rq.tasks p).sched_class)
unfolding enqueue_task_wrr enqueue_wrr_entity
enqueued g rq p = (refl, rw (itself p) ((refresh_entity_lem g (rq.tasks p)).0), rw (itself p) refl)

switched_rest :
    (g : Cgroups) (rq : Rq) (p : ℕ)
    → ((switched_to_wrr g rq p).wrr ≡ rq.wrr)
      × (((switched_to_wrr g rq p).tasks p).sched_class ≡ (rq.tasks p).sched_class)
unfolding switched_to_wrr resched_task
switched_rest g rq p =
    if_cases (λ (x : Rq). (x.wrr ≡ rq.wrr) × ((x.tasks p).sched_class ≡ (rq.tasks p).sched_class))
      ((rq.tasks p).on_rq && not (rq.curr == p)) (λ _. (refl, rw (itself p) (resched_class rq p)))
      (λ _. (refl, refl))
  where
    resched_class :
        (rq : Rq) (p : ℕ)
        → ((resched_task rq rq.curr).tasks p).sched_class ≡ (rq.tasks p).sched_class
    resched_class rq p = ground arith

-- What holds of the run queue after the change.
pub record Joined (p : ℕ) (rq rq' : Rq) : Type 0 where
  pub queue : rq'.wrr.queue ≡ rq.wrr.queue ++ (p ∷ [])
  pub sched_class : (rq'.tasks p).sched_class ≡ Class.wrr
  pub books : Inv rq'

-- The enqueue, the switch and the end, from the run queue `b` with the relabelled task.
joins :
    (e : Env) (c : Caller) (b : Rq) (p : ℕ) (old : Class)
    → Leaves e c p old
    → (b.tasks p).sched_class ≡ Class.wrr
    → queued p b ≡ false
    → Inv b
    → let d = enqueue_task_wrr e.cgroups b p 0 in
      let f = call_if (class_ops e old).switched_from d p in
      Joined p b (c.rt_mutex_adjust_pi (switched_to_wrr e.cgroups f p) p)
joins e c b p old l k q v =
    let g = e.cgroups in
    let d = enqueue_task_wrr g b p 0 in
    let (end, weight, class) = enqueued g b p in
    let f = call_if (class_ops e old).switched_from d p in
    let ff = l.switched d in
    let (wrr, kept) = switched_rest g f p in
    let out = l.adjust (switched_to_wrr g f p) in
    let own : (f.tasks p).wrr.weight ≡ group_weight g (f.tasks p) =
      weight_at p ff.keeps
      ∙ weight
      ∙ ap (λ t. if background g t then 1 else 10) (sym ff.sched_task_group) in
    record {
      queue = ap (λ w. w.queue) (out.keeps.wrr ∙ wrr ∙ ff.keeps.wrr) ∙ end;
      sched_class = out.sched_class ∙ kept ∙ ff.sched_class ∙ class ∙ k;
      books =
          Keeps-Inv out.keeps
            (switched_to_wrr-Inv g f p own (Keeps-Inv ff.keeps (enqueue_task_wrr-Inv g b p 0 q v)));
    }

-- A change to SCHED_WRR of a runnable task that is not the current one and is in another class, whose
-- dequeue_task and switched_from leave the wrr queue, the weights and that task's class and group as
-- they are, as does rt_mutex_adjust_pi: it puts the task at the end of the wrr queue, gives it the
-- wrr class, and keeps the bookkeeping of the wrr queue.
pub change_policy_to_wrr :
    (e : Env) (c : Caller) (rq : Rq) (p : ℕ) (r : Request) (prio : ℤ) (old : Class)
    → Leaves e c p old
    → old ≢ Class.wrr
    → (rq.tasks p).sched_class ≡ old
    → (rq.tasks p).on_rq ≡ true
    → (rq.curr == p) ≡ false
    → r.policy ≡ sched_wrr
    → queued p rq ≡ false
    → Inv rq
    → Joined p rq (change_policy e c rq p r prio)
change_policy_to_wrr e c rq p r prio old l n k on away w q v =
    let a = dequeue_task e rq p 0 in
    let fa = dequeue_task-Frame rq l k in
    let b = relabelled c p r prio a in
    let kb = relabelled-Keeps c p r prio a in
    let class : (b.tasks p).sched_class ≡ Class.wrr =
      ap (λ (t : Task). t.sched_class) (relabelled_task c p r prio a)
      ∙ set_policy_class c _ r.policy _ w in
    let clocked = update_rq_clock e b in
    let fc = update_rq_clock-Frame e b p in
    let same = fc.keeps.wrr ∙ kb.wrr ∙ fa.keeps.wrr in
    let d = enqueue_task_wrr e.cgroups clocked p 0 in
    let joined =
      joins e c clocked p old l (fc.sched_class ∙ class) (ap (λ x. contains p x.queue) same ∙ q)
        (Keeps-Inv fc.keeps (Keeps-Inv kb (Keeps-Inv fa.keeps v))) in
    let rq3 = set_task a p (record (a.tasks p) { sched_reset_on_fork = r.reset_on_fork }) in
    let oldprio = (rq3.tasks p).prio in
    let left : (rq3.tasks p).sched_class ≡ old = rw (itself p) (fa.sched_class ∙ k) in
    let d_class : (d.tasks p).sched_class ≡ Class.wrr =
      (enqueued e.cgroups clocked p).2 ∙ fc.sched_class ∙ class in
    let steps : change_policy e c rq p r prio
        ≡ c.rt_mutex_adjust_pi
            (switched_to_wrr e.cgroups (call_if (class_ops e old).switched_from d p) p) p =
      change_policy_waiting e c rq p r prio on away
      ∙ ap
          (λ x.
            c.rt_mutex_adjust_pi (check_class_changed e x p (rq3.tasks p).sched_class oldprio) p)
          (enqueue_task_as_wrr e b p class)
      ∙ ap (λ x. c.rt_mutex_adjust_pi (check_class_changed e d p x oldprio) p) left
      ∙ ap (λ x. c.rt_mutex_adjust_pi x p)
          (switched_as_wrr e d p old oldprio n d_class ((l.switched d).sched_class ∙ d_class)) in
    subst (Joined p rq) (sym steps) (record {
      queue = joined.queue ∙ ap (λ x. x.queue ++ (p ∷ [])) same;
      sched_class = joined.sched_class;
      books = joined.books;
    })
