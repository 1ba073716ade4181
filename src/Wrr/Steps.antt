-- ===== src/Wrr/Steps.antt =====
-- The calls that the scheduler core makes of the wrr class, as a step relation, and what holds
-- after any sequence of them.
use linux_kernel.Prelude.{ℕ, ◌≡◌, ap, arith, true, false, [], if◌then◌else◌}
use linux_kernel.Sched.{Rq, WrrRq}
use linux_kernel.Wrr.{
  Cgroups, enqueue_task_wrr, dequeue_task_wrr, yield_task_wrr, put_prev_task_wrr, task_tick_wrr,
  set_curr_task_wrr, switched_to_wrr, background, init_wrr_rq,
}
use linux_kernel.Wrr.Queue.{weights}
use linux_kernel.Wrr.Invariant.{
  Inv, queued, enqueue_task_wrr-Inv, dequeue_task_wrr-Inv, yield_task_wrr-Inv,
  put_prev_task_wrr-Inv, task_tick_wrr-Inv, set_curr_task_wrr-Inv, switched_to_wrr-Inv,
}

-- The premises are the callers' duties: a task is enqueued when it is not queued, and dequeued,
-- ticked or made to yield when it is; switched_to_wrr follows an enqueue in the same group. Between
-- calls the core may pick another current task or advance the clock.
pub data Step (g : Cgroups) : Rq → Rq → Type 0 where
  enqueue :
      (rq : Rq) (p flags : ℕ) → queued p rq ≡ false → Step g rq (enqueue_task_wrr g rq p flags)
  dequeue : (rq : Rq) (p : ℕ) → queued p rq ≡ true → Step g rq (dequeue_task_wrr rq p)
  yield : (rq : Rq) → queued rq.curr rq ≡ true → Step g rq (yield_task_wrr rq)
  put_prev : (rq : Rq) (p : ℕ) → Step g rq (put_prev_task_wrr rq p)
  tick : (rq : Rq) (p : ℕ) → queued p rq ≡ true → Step g rq (task_tick_wrr g rq p)
  set_curr : (rq : Rq) → Step g rq (set_curr_task_wrr rq)
  switched_to :
      (rq : Rq) (p : ℕ)
      → (rq.tasks p).wrr.weight ≡ (if background g (rq.tasks p).sched_task_group then 1 else 10)
      → Step g rq (switched_to_wrr g rq p)
  core : (rq : Rq) (curr clock : ℕ) → Step g rq (record rq { curr = curr; clock_task = clock })

pub data Reach (g : Cgroups) (rq : Rq) : Rq → Type 0 where
  here : Reach g rq rq
  next : {s t : Rq} → Reach g rq s → Step g s t → Reach g rq t

Step-Inv : {g : Cgroups} {s t : Rq} → Step g s t → Inv s → Inv t
Step-Inv {g} (enqueue rq p flags h) v = enqueue_task_wrr-Inv g rq p flags h v
Step-Inv (dequeue rq p h) v = dequeue_task_wrr-Inv rq p h v
Step-Inv (yield rq h) v = yield_task_wrr-Inv rq h v
Step-Inv (put_prev rq p) v = put_prev_task_wrr-Inv rq p v
Step-Inv {g} (tick rq p h) v = task_tick_wrr-Inv g rq p h v
Step-Inv (set_curr rq) v = set_curr_task_wrr-Inv rq v
Step-Inv {g} (switched_to rq p h) v = switched_to_wrr-Inv g rq p h v
Step-Inv (core rq curr clock) v = record {
  distinct = v.distinct;
  counted = v.counted;
  weighed = v.weighed;
}

Reach-Inv : {g : Cgroups} {s t : Rq} → Inv s → Reach g s t → Inv t
Reach-Inv v here = v
Reach-Inv v (next r st) = Step-Inv st (Reach-Inv v r)

init_wrr_rq-Inv : (rq : Rq) → rq.wrr ≡ init_wrr_rq → Inv rq
unfolding init_wrr_rq weights
init_wrr_rq-Inv rq e =
    let q : rq.wrr.queue ≡ [] = ap (λ (w : WrrRq). w.queue) e in
    record { distinct = rw q tt; counted = rw q (ground arith); weighed = rw q (ground arith) }

-- After init_wrr_rq, whatever sequence of handler calls follows, no task is queued twice,
-- wrr_nr_running is the number of queued tasks and total_weight the sum of their weights, both
-- modulo 2^32.
pub Reach-init_wrr_rq-Inv : (g : Cgroups) (s t : Rq) → s.wrr ≡ init_wrr_rq → Reach g s t → Inv t
Reach-init_wrr_rq-Inv g s t e r = Reach-Inv (init_wrr_rq-Inv s e) r
