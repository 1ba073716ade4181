-- ===== src/Core/Running/Waking.antt =====
-- Waking a task of the wrr class.
use Prim.Native.Nat.{bit_and, bit_and-bitwise}
use linux_kernel.Prelude.{
  ℕ, ◌≡◌, refl, sym, ap, ◌∙◌, true, false, [], ◌∷◌, ◌++◌, arith, if◌then◌else◌, if_cases, ◌==◌, ltb,
}
use linux_kernel.Prelude.Int.{pos}
use linux_kernel.Sched.{Class, Rq, WrrRq, resched_task, same_class, class_rank}
use linux_kernel.Wrr.{check_preempt_curr_wrr, enqueue_task_wrr, enqueue_wrr_entity}
use linux_kernel.Wrr.Queue.{contains, weights-update_same}
use linux_kernel.Wrr.Invariant.{Inv, Keeps, queued, Keeps-Inv, enqueue_task_wrr-Inv}
use linux_kernel.Core.Classes.{
  Env, class_of, class_ops, wrr_sched_class, update_rq_clock, enqueue_task, check_preempt_curr,
}
use linux_kernel.Core.Setscheduler.Frames.{Frame, update_rq_clock-Frame, itself}
use linux_kernel.Core.Running.{
  Cpu, task_running, set_on_rq, activate_task, ttwu_activate, ttwu_do_wakeup, ttwu_do_activate,
  try_to_wake_up, enqueue_wakeup,
}

Frame-refl : (p : ℕ) (rq : Rq) → Frame p rq rq
Frame-refl p rq = record {
  keeps = record { wrr = refl; tasks = λ xs. refl };
  curr = refl;
  on_rq = refl;
  sched_class = refl;
  sched_task_group = refl;
}

-- The flag need_resched belongs to no frame.
resched_task-Frame : (p q : ℕ) (rq : Rq) → Frame p rq (resched_task rq q)
unfolding resched_task
resched_task-Frame p q rq = record {
  keeps = record { wrr = refl; tasks = λ xs. weights-update_same rq.tasks q _ xs refl };
  curr = refl;
  on_rq = ground arith;
  sched_class = ground arith;
  sched_task_group = ground arith;
}

skip_clock-Frame :
    {p : ℕ} {a b : Rq} → Frame p a b → Frame p a (record b { skip_clock_update = pos 1 })
skip_clock-Frame f = record {
  keeps = record { wrr = f.keeps.wrr; tasks = f.keeps.tasks };
  curr = f.curr;
  on_rq = f.on_rq;
  sched_class = f.sched_class;
  sched_task_group = f.sched_task_group;
}

same_class-wrr : (c : Class) → same_class Class.wrr c ≡ true → c ≡ Class.wrr
same_class-wrr Class.stop h = ground arith
same_class-wrr Class.rt h = ground arith
same_class-wrr Class.wrr h = refl
same_class-wrr Class.fair h = ground arith
same_class-wrr Class.idle h = ground arith

-- No class but wrr is asked whether a wrr task preempts.
preempts-Frame :
    (e : Env) (rq : Rq) (p flags q : ℕ)
    → (rq.tasks p).sched_class ≡ Class.wrr
    → Frame q rq (
        if same_class (rq.tasks p).sched_class (rq.tasks rq.curr).sched_class
        then (class_of e rq rq.curr).check_preempt_curr rq p flags
        else if ltb
            (class_rank (rq.tasks p).sched_class)
            (class_rank (rq.tasks rq.curr).sched_class)
        then resched_task rq rq.curr
        else rq)
unfolding class_ops wrr_sched_class check_preempt_curr_wrr
preempts-Frame e rq p flags q h =
    if_cases (Frame q rq) (same_class (rq.tasks p).sched_class (rq.tasks rq.curr).sched_class)
      (λ s.
        let c =
          same_class-wrr (rq.tasks rq.curr).sched_class
            (sym (ap (λ k. same_class k (rq.tasks rq.curr).sched_class) h) ∙ s) in
        rw (c, class_ops) (Frame-refl q rq))
      (λ _.
        if_cases (Frame q rq)
          (ltb (class_rank (rq.tasks p).sched_class) (class_rank (rq.tasks rq.curr).sched_class))
          (λ _. resched_task-Frame q rq.curr rq) (λ _. Frame-refl q rq))

pub check_preempt_curr-Frame :
    (e : Env) (rq : Rq) (p flags q : ℕ)
    → (rq.tasks p).sched_class ≡ Class.wrr
    → Frame q rq (check_preempt_curr e rq p flags)
unfolding check_preempt_curr
check_preempt_curr-Frame e rq p flags q h =
    let f = preempts-Frame e rq p flags q h in
    if_cases (Frame q rq) _ (λ _. skip_clock-Frame f) (λ _. f)

-- A task of the wrr class goes to the end of the queue.
record Enqueued (p : ℕ) (a b : Rq) : Type 0 where
  queue : b.wrr.queue ≡ a.wrr.queue ++ (p ∷ [])
  inv : Inv b
  curr : b.curr ≡ a.curr
  sched_class : (q : ℕ) → (b.tasks q).sched_class ≡ (a.tasks q).sched_class
  on_rq : (q : ℕ) → (b.tasks q).on_rq ≡ (a.tasks q).on_rq

enqueued-queue :
    (e : Env) (r : Rq) (p : ℕ)
    → (enqueue_task_wrr e.cgroups r p enqueue_wakeup).wrr.queue ≡ r.wrr.queue ++ (p ∷ [])
unfolding enqueue_task_wrr enqueue_wrr_entity
enqueued-queue e r p = refl

enqueued-curr :
    (e : Env) (r : Rq) (p : ℕ) → (enqueue_task_wrr e.cgroups r p enqueue_wakeup).curr ≡ r.curr
unfolding enqueue_task_wrr enqueue_wrr_entity
enqueued-curr e r p = refl

enqueued-sched_class :
    (e : Env) (r : Rq) (p q : ℕ)
    → ((enqueue_task_wrr e.cgroups r p enqueue_wakeup).tasks q).sched_class
      ≡ (r.tasks q).sched_class
unfolding enqueue_task_wrr enqueue_wrr_entity
enqueued-sched_class e r p q = ground arith

enqueued-on_rq :
    (e : Env) (r : Rq) (p q : ℕ)
    → ((enqueue_task_wrr e.cgroups r p enqueue_wakeup).tasks q).on_rq ≡ (r.tasks q).on_rq
unfolding enqueue_task_wrr enqueue_wrr_entity
enqueued-on_rq e r p q = ground arith

enqueue_task-Enqueued :
    (e : Env) (rq : Rq) (p : ℕ)
    → (rq.tasks p).sched_class ≡ Class.wrr
    → queued p rq ≡ false
    → Inv rq
    → Enqueued p rq (enqueue_task e rq p enqueue_wakeup)
unfolding enqueue_task class_ops wrr_sched_class
enqueue_task-Enqueued e rq p h k v =
    let r = update_rq_clock e rq in
    let f = update_rq_clock-Frame e rq in
    rw ((f p).sched_class ∙ h, enqueue_task)
      (record {
        queue = enqueued-queue e r p ∙ ap (λ (w : WrrRq). w.queue ++ (p ∷ [])) (f p).keeps.wrr;
        inv =
            enqueue_task_wrr-Inv e.cgroups r p enqueue_wakeup
              (ap (λ w. contains p w.queue) (f p).keeps.wrr ∙ k) (Keeps-Inv (f p).keeps v);
        curr = enqueued-curr e r p ∙ (f p).curr;
        sched_class = λ q. enqueued-sched_class e r p q ∙ (f q).sched_class;
        on_rq = λ q. enqueued-on_rq e r p q ∙ (f q).on_rq;
      })

-- What a successful wake-up leaves.
pub record IsWoken (p : ℕ) (c d : Cpu) : Type 0 where
  pub running : d.state p ≡ task_running
  pub on_rq : (d.rq.tasks p).on_rq ≡ true
  pub queue : d.rq.wrr.queue ≡ c.rq.wrr.queue ++ (p ∷ [])
  pub inv : Inv d.rq
  pub curr : d.rq.curr ≡ c.rq.curr
  pub sched_class : (q : ℕ) → (d.rq.tasks q).sched_class ≡ (c.rq.tasks q).sched_class
  pub runnable : (q : ℕ) → (d.rq.tasks q).on_rq ≡ (if q == p then true else (c.rq.tasks q).on_rq)

marked_class :
    (rq : Rq) (p q : ℕ) → ((set_on_rq rq p true).tasks q).sched_class ≡ (rq.tasks q).sched_class
marked_class rq p q = ground arith

marked_on_rq :
    (rq : Rq) (p q : ℕ)
    → ((set_on_rq rq p true).tasks q).on_rq ≡ (if q == p then true else (rq.tasks q).on_rq)
marked_on_rq rq p q = ground arith

pub ttwu_do_activate-IsWoken :
    (e : Env) (c : Cpu) (p : ℕ)
    → (c.rq.tasks p).sched_class ≡ Class.wrr
    → queued p c.rq ≡ false
    → Inv c.rq
    → IsWoken p c (ttwu_do_activate e c p 0)
unfolding ttwu_do_activate ttwu_do_wakeup ttwu_activate activate_task
ttwu_do_activate-IsWoken e c p h q v =
    let a = enqueue_task-Enqueued e c.rq p h q v in
    let queue = enqueue_task e c.rq p enqueue_wakeup in
    let marked = set_on_rq queue p true in
    let class : (marked.tasks p).sched_class ≡ Class.wrr = rw (itself p) (a.sched_class p ∙ h) in
    let f = λ (q : ℕ). check_preempt_curr-Frame e marked p 0 q class in
    let k : Keeps queue marked = record {
      wrr = refl;
      tasks = λ xs. weights-update_same queue.tasks p _ xs refl;
    } in
    record {
      running = ap (λ b. if b then task_running else c.state p) (itself p);
      on_rq = (f p).on_rq ∙ rw (itself p) refl;
      queue = ap (λ (w : WrrRq). w.queue) (f p).keeps.wrr ∙ a.queue;
      inv = Keeps-Inv (f p).keeps (Keeps-Inv k a.inv);
      curr = (f p).curr ∙ a.curr;
      sched_class = λ q. (f q).sched_class ∙ marked_class queue p q ∙ a.sched_class q;
      runnable = λ q.
          (f q).on_rq ∙ marked_on_rq queue p q ∙ ap (λ b. if q == p then true else b) (a.on_rq q);
    }

zero-bit_and : (m : ℕ) → bit_and 0 m ≡ 0
zero-bit_and m = bit_and-bitwise 0 m

-- For a wrr task that is neither runnable nor queued, in a state that the mask has, and the bookkeeping
-- invariant: try_to_wake_up returns 1, the task is running, on the run queue and last in the wrr queue,
-- the bookkeeping holds, and the current task, all classes and the on_rq of the others are the same; a
-- second try_to_wake_up with any mask returns 0 and changes nothing.
pub try_to_wake_up_lem :
    (e : Env) (c : Cpu) (p state wake_flags again flags : ℕ)
    → (c.rq.tasks p).sched_class ≡ Class.wrr
    → (c.rq.tasks p).on_rq ≡ false
    → queued p c.rq ≡ false
    → (bit_and (c.state p) state == 0) ≡ false
    → Inv c.rq
    → (d : Cpu) × (try_to_wake_up e c p state wake_flags ≡ (d, true))
      × IsWoken p c d
      × (try_to_wake_up e d p again flags ≡ (d, false))
unfolding try_to_wake_up
try_to_wake_up_lem e c p state wake_flags again flags h o q m v =
    let d = ttwu_do_activate e c p 0 in
    let w = ttwu_do_activate-IsWoken e c p h q v in
    (d, rw m (rw (o, try_to_wake_up) refl), w, rw w.running (rw (zero-bit_and again) refl))
