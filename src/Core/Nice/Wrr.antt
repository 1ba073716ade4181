-- ===== src/Core/Nice/Wrr.antt =====
-- A new nice value for a runnable task of the wrr class.
use linux_kernel.Prelude.{
  ℕ, ◌≡◌, refl, ap, ◌∙◌, Bool, true, false, ◌&&◌, ◌||◌, [], ◌∷◌, ◌++◌, ◌==◌, arith, ◌⊎◌, inl, inr,
  if_cases, Bool-cases,
}
use linux_kernel.Prelude.Int.{ℤ, pos, negsuc, ltb_ℤ, eqb_ℤ}
use linux_kernel.Sched.{Class, Task, Rq, set_task, resched_task}
use linux_kernel.Wrr.{Cgroups, enqueue_task_wrr, enqueue_wrr_entity, remove}
use linux_kernel.Wrr.Queue.{contains, weights-update_same, contains-remove}
use linux_kernel.Wrr.Invariant.{Inv, Keeps, Keeps-Inv, queued, enqueue_task_wrr-Inv}
use linux_kernel.Core.Prio.{
  task_has_rt_policy, task_nice, nice_to_prio, effective_prio, set_load_weight,
}
use linux_kernel.Core.Classes.{Env, update_rq_clock, dequeue_task}
use linux_kernel.Core.Setscheduler.Frames.{itself, update_rq_clock-Frame}
use linux_kernel.Core.Setscheduler.ToWrr.{enqueue_task_as_wrr}
use linux_kernel.Core.Running.Leaving.{dequeue_task-Removed}
use linux_kernel.Core.Nice.{renice, enqueue_reniced, set_user_nice}

-- The value is the old one, or no nice value.
abbrev pub ignored : Task → ℤ → Bool
ignored t nice = eqb_ℤ (task_nice t) nice || (ltb_ℤ nice (negsuc 19) || ltb_ℤ (pos 19) nice)

-- The task is runnable with the new nice value, behind all others of its class.
pub record Reniced (p : ℕ) (nice : ℤ) (a b : Rq) : Type 0 where
  pub queue : b.wrr.queue ≡ remove p a.wrr.queue ++ (p ∷ [])
  pub static_prio : (b.tasks p).static_prio ≡ nice_to_prio nice
  pub sched_class : (b.tasks p).sched_class ≡ Class.wrr
  pub on_rq : (b.tasks p).on_rq ≡ (a.tasks p).on_rq
  pub books : Inv b

-- What renice leaves of a task.
renice_rest :
    (t : Task) (nice : ℤ)
    → ((renice t nice).static_prio ≡ nice_to_prio nice)
      × ((renice t nice).sched_class ≡ t.sched_class)
      × ((renice t nice).on_rq ≡ t.on_rq)
      × ((renice t nice).wrr ≡ t.wrr)
unfolding renice effective_prio set_load_weight
renice_rest t nice = (refl, refl, refl, refl)

-- What resched_task leaves.
resched_task-Reniced :
    {p : ℕ} {nice : ℤ} {a : Rq} (b : Rq) (q : ℕ)
    → Reniced p nice a b
    → Reniced p nice a (resched_task b q)
unfolding resched_task
resched_task-Reniced {p} {nice} {a} b q r = record {
  queue = r.queue;
  static_prio = prio_at r.static_prio;
  sched_class = class_at r.sched_class;
  on_rq = on_rq_at r.on_rq;
  books = Keeps-Inv resched_task-Keeps r.books;
}
  where
    resched_task-Keeps : Keeps b (resched_task b q)
    resched_task-Keeps = record {
      wrr = refl;
      tasks = λ xs. weights-update_same b.tasks q _ xs refl;
    }

    prio_at :
        (b.tasks p).static_prio ≡ nice_to_prio nice
        → ((resched_task b q).tasks p).static_prio ≡ nice_to_prio nice
    prio_at h = ground arith

    class_at :
        (b.tasks p).sched_class ≡ Class.wrr → ((resched_task b q).tasks p).sched_class ≡ Class.wrr
    class_at h = ground arith

    on_rq_at :
        (b.tasks p).on_rq ≡ (a.tasks p).on_rq
        → ((resched_task b q).tasks p).on_rq ≡ (a.tasks p).on_rq
    on_rq_at h = ground arith

enqueue_task_wrr_rest :
    (g : Cgroups) (rq : Rq) (p : ℕ)
    → let rq' = enqueue_task_wrr g rq p 0 in
      (rq'.wrr.queue ≡ rq.wrr.queue ++ (p ∷ []))
      × ((rq'.tasks p).static_prio ≡ (rq.tasks p).static_prio)
      × ((rq'.tasks p).sched_class ≡ (rq.tasks p).sched_class)
      × ((rq'.tasks p).on_rq ≡ (rq.tasks p).on_rq)
unfolding enqueue_task_wrr enqueue_wrr_entity
enqueue_task_wrr_rest g rq p = (refl, rw (itself p) refl, rw (itself p) refl, rw (itself p) refl)

static_prio-update_rq_clock :
    (e : Env) (rq : Rq) (p : ℕ)
    → ((update_rq_clock e rq).tasks p).static_prio ≡ (rq.tasks p).static_prio
unfolding update_rq_clock
static_prio-update_rq_clock e rq p = ground arith

-- The enqueue of a task of the class that has its new nice value.
enqueue_reniced-Reniced :
    (e : Env) (a b : Rq) (p : ℕ) (nice delta : ℤ)
    → b.wrr.queue ≡ remove p a.wrr.queue
    → (b.tasks p).static_prio ≡ nice_to_prio nice
    → (b.tasks p).sched_class ≡ Class.wrr
    → (b.tasks p).on_rq ≡ (a.tasks p).on_rq
    → queued p b ≡ false
    → Inv b
    → Reniced p nice a (enqueue_reniced e b p delta)
unfolding enqueue_reniced
enqueue_reniced-Reniced e a b p nice delta q s k o out v =
    let c = update_rq_clock e b in
    let f = update_rq_clock-Frame e b p in
    let (queue, prio, class, on) = enqueue_task_wrr_rest e.cgroups c p in
    let d = enqueue_task_wrr e.cgroups c p 0 in
    let r : Reniced p nice a d = record {
      queue = queue ∙ ap (λ x. x ++ (p ∷ [])) (ap (λ w. w.queue) f.keeps.wrr ∙ q);
      static_prio = prio ∙ static_prio-update_rq_clock e b p ∙ s;
      sched_class = class ∙ f.sched_class ∙ k;
      on_rq = on ∙ f.on_rq ∙ o;
      books =
          enqueue_task_wrr-Inv e.cgroups c p 0 (ap (λ w. contains p w.queue) f.keeps.wrr ∙ out)
            (Keeps-Inv f.keeps v);
    } in
    rw (enqueue_task_as_wrr e b p k, enqueue_reniced)
      (if_cases (Reniced p nice a) (ltb_ℤ delta (pos 0) || ltb_ℤ (pos 0) delta && d.curr == p)
        (λ _. resched_task-Reniced d d.curr r) (λ _. r))

-- A nice value for a runnable task of the wrr class, if the bookkeeping holds: set_user_nice
-- changes nothing if the value is the old one or is not from -20 to 19; and else it gives the task
-- the static priority of the value and puts it behind all others of the class, and the task stays
-- runnable and in the class and the bookkeeping holds.
pub set_user_nice_lem :
    (e : Env) (rq : Rq) (p : ℕ) (nice : ℤ)
    → (rq.tasks p).sched_class ≡ Class.wrr
    → (rq.tasks p).on_rq ≡ true
    → task_has_rt_policy (rq.tasks p) ≡ false
    → queued p rq ≡ true
    → Inv rq
    → ((ignored (rq.tasks p) nice ≡ true) × (set_user_nice e rq p nice ≡ rq))
      ⊎ ((ignored (rq.tasks p) nice ≡ false) × Reniced p nice rq (set_user_nice e rq p nice))
unfolding set_user_nice
set_user_nice_lem e rq p nice k on n q v =
    let r = dequeue_task-Removed e rq p 0 k q v in
    let a = dequeue_task e rq p 0 in
    let rest = renice_rest (a.tasks p) nice in
    let b = set_task a p (renice (a.tasks p) nice) in
    let same : Keeps a b = record {
      wrr = refl;
      tasks = λ xs. weights-update_same a.tasks p _ xs (ap (λ w. w.weight) rest.3);
    } in
    elim (Bool-cases (ignored (rq.tasks p) nice)) [
      | inl h ↦ inl (h, rw (h, set_user_nice) refl)
      | inr h ↦ inr (
        h,
        rw (h, set_user_nice)
            (rw (n, set_user_nice)
              (rw (on, set_user_nice)
                (enqueue_reniced-Reniced e rq b p nice _ r.queue (rw (itself p) rest.0)
                  (rw (itself p) (rest.1 ∙ r.sched_class p ∙ k))
                  (rw (itself p) (rest.2 ∙ r.on_rq p))
                  (ap (contains p) r.queue ∙ contains-remove p rq.wrr.queue v.distinct)
                  (Keeps-Inv same r.inv)))),
      )
    ]
