-- ===== src/Core/Running/Leaving.antt =====
-- What taking a task off the wrr queue, and putting it aside, leave of the run queue.
use linux_kernel.Prelude.{ℕ, ◌≡◌, ap, ◌∙◌, true, ◌||◌, arith, if_cases}
use linux_kernel.Prelude.Words.{sub32}
use linux_kernel.Prelude.Int.{pos, ltb_ℤ}
use linux_kernel.Sched.{Class, Rq, WrrRq}
use linux_kernel.Wrr.{
  update_curr_wrr, dequeue_wrr_entity, dequeue_task_wrr, put_prev_task_wrr, remove,
}
use linux_kernel.Wrr.Queue.{contains}
use linux_kernel.Wrr.Invariant.{
  Inv, queued, Keeps-Inv, dequeue_task_wrr-Inv, put_prev_task_wrr-Inv, queue-update_curr_wrr,
}
use linux_kernel.Core.Classes.{
  Env, class_ops, wrr_sched_class, update_rq_clock, dequeue_task, put_prev_task,
}
use linux_kernel.Core.Setscheduler.Frames.{update_rq_clock-Frame}

-- What the accounting of the wrr class leaves alone.
pub record Same (a b : Rq) : Type 0 where
  pub wrr : b.wrr ≡ a.wrr
  pub curr : b.curr ≡ a.curr
  pub nr_running : b.nr_running ≡ a.nr_running
  pub fair : b.cfs_h_nr_running ≡ a.cfs_h_nr_running
  pub sched_class : (q : ℕ) → (b.tasks q).sched_class ≡ (a.tasks q).sched_class
  pub on_rq : (q : ℕ) → (b.tasks q).on_rq ≡ (a.tasks q).on_rq

update_rq_clock-Same : (e : Env) (rq : Rq) → Same rq (update_rq_clock e rq)
unfolding update_rq_clock
update_rq_clock-Same e rq = record {
  wrr = ground arith;
  curr = ground arith;
  nr_running = ground arith;
  fair = ground arith;
  sched_class = λ q. ground arith;
  on_rq = λ q. ground arith;
}

update_curr_wrr-Same : (rq : Rq) → Same rq (update_curr_wrr rq)
unfolding update_curr_wrr
update_curr_wrr-Same rq = record {
  wrr = queue-update_curr_wrr rq;
  curr = ground arith;
  nr_running = ground arith;
  fair = ground arith;
  sched_class = λ q. ground arith;
  on_rq = λ q. ground arith;
}

put_prev_task_wrr-Same : (rq : Rq) (p : ℕ) → Same rq (put_prev_task_wrr rq p)
unfolding put_prev_task_wrr
put_prev_task_wrr-Same rq p =
    let s = update_curr_wrr-Same rq in
    record {
      wrr = s.wrr;
      curr = s.curr;
      nr_running = s.nr_running;
      fair = s.fair;
      sched_class = λ q. class_at q (s.sched_class p) (s.sched_class q);
      on_rq = λ q. on_rq_at q (s.on_rq q);
    }
  where
    class_at :
        (q : ℕ)
        → ((update_curr_wrr rq).tasks p).sched_class ≡ (rq.tasks p).sched_class
        → ((update_curr_wrr rq).tasks q).sched_class ≡ (rq.tasks q).sched_class
        → ((put_prev_task_wrr rq p).tasks q).sched_class ≡ (rq.tasks q).sched_class
    class_at q h k = ground arith

    on_rq_at :
        (q : ℕ)
        → ((update_curr_wrr rq).tasks q).on_rq ≡ (rq.tasks q).on_rq
        → ((put_prev_task_wrr rq p).tasks q).on_rq ≡ (rq.tasks q).on_rq
    on_rq_at q k = ground arith

Same-trans : {a b c : Rq} → Same a b → Same b c → Same a c
Same-trans s t = record {
  wrr = t.wrr ∙ s.wrr;
  curr = t.curr ∙ s.curr;
  nr_running = t.nr_running ∙ s.nr_running;
  fair = t.fair ∙ s.fair;
  sched_class = λ q. t.sched_class q ∙ s.sched_class q;
  on_rq = λ q. t.on_rq q ∙ s.on_rq q;
}

-- put_prev_task of a wrr task.
pub record PutAside (a b : Rq) : Type 0 where
  pub same : Same a b
  pub inv : Inv b

pub put_prev_task-PutAside :
    (e : Env) (rq : Rq) (p : ℕ)
    → (rq.tasks p).sched_class ≡ Class.wrr
    → Inv rq
    → PutAside rq (put_prev_task e rq p)
unfolding put_prev_task class_ops wrr_sched_class
put_prev_task-PutAside e rq p h v =
    if_cases (λ (r : Rq). PutAside rq ((class_ops e (r.tasks p).sched_class).put_prev_task r p))
      ((rq.tasks p).on_rq || ltb_ℤ rq.skip_clock_update (pos 0))
      (λ _.
        let s = update_rq_clock-Same e rq in
        let f = update_rq_clock-Frame e rq p in
        rw (f.sched_class ∙ h, class_ops)
          (record {
            same = Same-trans s (put_prev_task_wrr-Same (update_rq_clock e rq) p);
            inv = put_prev_task_wrr-Inv (update_rq_clock e rq) p (Keeps-Inv f.keeps v);
          }))
      (λ _.
        rw (h, class_ops)
          (record { same = put_prev_task_wrr-Same rq p; inv = put_prev_task_wrr-Inv rq p v }))

-- dequeue_task of a wrr task.
pub record Removed (p : ℕ) (a b : Rq) : Type 0 where
  pub queue : b.wrr.queue ≡ remove p a.wrr.queue
  pub inv : Inv b
  pub nr_running : b.nr_running ≡ sub32 a.nr_running 1
  pub fair : b.cfs_h_nr_running ≡ a.cfs_h_nr_running
  pub sched_class : (q : ℕ) → (b.tasks q).sched_class ≡ (a.tasks q).sched_class
  pub on_rq : (q : ℕ) → (b.tasks q).on_rq ≡ (a.tasks q).on_rq

dequeue_task_wrr-Removed :
    (rq : Rq) (p : ℕ) → queued p rq ≡ true → Inv rq → Removed p rq (dequeue_task_wrr rq p)
unfolding dequeue_task_wrr dequeue_wrr_entity
dequeue_task_wrr-Removed rq p q v =
    let s = update_curr_wrr-Same rq in
    record {
      queue = ap (λ (w : WrrRq). remove p w.queue) s.wrr;
      inv = dequeue_task_wrr-Inv rq p q v;
      nr_running = ap (λ n. sub32 n 1) s.nr_running;
      fair = s.fair;
      sched_class = s.sched_class;
      on_rq = s.on_rq;
    }

pub dequeue_task-Removed :
    (e : Env) (rq : Rq) (p flags : ℕ)
    → (rq.tasks p).sched_class ≡ Class.wrr
    → queued p rq ≡ true
    → Inv rq
    → Removed p rq (dequeue_task e rq p flags)
unfolding dequeue_task class_ops wrr_sched_class
dequeue_task-Removed e rq p flags h q v =
    let s = update_rq_clock-Same e rq in
    let f = update_rq_clock-Frame e rq p in
    let clocked = update_rq_clock e rq in
    let r =
      dequeue_task_wrr-Removed clocked p (ap (λ (w : WrrRq). contains p w.queue) s.wrr ∙ q)
        (Keeps-Inv f.keeps v) in
    rw (f.sched_class ∙ h, dequeue_task)
      (record {
        queue = r.queue ∙ ap (λ (w : WrrRq). remove p w.queue) s.wrr;
        inv = r.inv;
        nr_running = r.nr_running ∙ ap (λ n. sub32 n 1) s.nr_running;
        fair = r.fair ∙ s.fair;
        sched_class = λ x. r.sched_class x ∙ s.sched_class x;
        on_rq = λ x. r.on_rq x ∙ s.on_rq x;
      })
