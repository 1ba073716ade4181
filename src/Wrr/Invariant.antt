-- ===== src/Wrr/Invariant.antt =====
-- The bookkeeping of the wrr run queue: no task is queued twice, and the two counters say how many
-- tasks are queued and what they weigh. Every handler of wrr.c keeps it.
use linux_kernel.Prelude.{
  ℕ, ◌%◌, ◌≡◌, refl, Bool, true, false, not, ◌&&◌, List, [], ◌∷◌, arith, if◌then◌else◌, ◌==◌,
  length, length-append, if_cases,
}
use linux_kernel.Prelude.Words.{u32_mod, sub32}
use linux_kernel.Sched.{Task, Rq, set_task, resched_task}
use linux_kernel.Wrr.{
  Cgroups, update_curr_wrr, refresh_entity, enqueue_wrr_entity, enqueue_task_wrr, remove,
  dequeue_wrr_entity, dequeue_task_wrr, requeue_task_wrr, yield_task_wrr, put_prev_task_wrr,
  task_tick_wrr, set_curr_task_wrr, switched_to_wrr, background, has_neighbours, set_slice, refill,
  slice_expired, charge, delta_exec,
}
use linux_kernel.Wrr.Queue.{
  contains, Distinct, weights, weights-append, weights-remove, weights-link_head, weights-link_tail,
  weights-update_same, length-remove, remove-Distinct, contains-remove, Distinct-append_one,
}

pub record Inv (rq : Rq) : Type 0 where
  pub distinct : Distinct rq.wrr.queue
  pub counted : rq.wrr.wrr_nr_running ≡ length rq.wrr.queue % u32_mod
  pub weighed : rq.wrr.total_weight ≡ weights rq.tasks rq.wrr.queue % u32_mod

abbrev pub queued : ℕ → Rq → Bool
queued p rq = contains p rq.wrr.queue

-- A step that leaves the queue's counters alone and no weight of a task changed.
pub record Keeps (rq rq' : Rq) : Type 0 where
  pub wrr : rq'.wrr ≡ rq.wrr
  pub tasks : (xs : List ℕ) → weights rq'.tasks xs ≡ weights rq.tasks xs

-- The bookkeeping holds after such a step.
pub Keeps-Inv : {rq rq' : Rq} → Keeps rq rq' → Inv rq → Inv rq'
Keeps-Inv {rq} {rq'} k v = record {
  distinct = rw k.wrr v.distinct;
  counted = rw k.wrr v.counted;
  weighed = rw (k.wrr, k.tasks rq.wrr.queue) v.weighed;
}

pub update_curr_wrr-Keeps : (rq : Rq) → Keeps rq (update_curr_wrr rq)
unfolding update_curr_wrr
update_curr_wrr-Keeps rq = record {
  wrr = ground arith;
  tasks = λ xs. ground (
    arith,
    weights-update_same rq.tasks rq.curr
        ((charge rq (rq.tasks rq.curr) (delta_exec rq (rq.tasks rq.curr))).tasks rq.curr) xs,
  );
}

pub queue-update_curr_wrr : (rq : Rq) → (update_curr_wrr rq).wrr ≡ rq.wrr
queue-update_curr_wrr rq = (update_curr_wrr-Keeps rq).wrr

set_slice-Keeps : (rq : Rq) (p n : ℕ) → Keeps rq (set_slice rq p n)
set_slice-Keeps rq p n = record {
  wrr = refl;
  tasks = λ xs. weights-update_same rq.tasks p _ xs refl;
}

resched_task-Keeps : (rq : Rq) (p : ℕ) → Keeps rq (resched_task rq p)
unfolding resched_task
resched_task-Keeps rq p = record {
  wrr = refl;
  tasks = λ xs. weights-update_same rq.tasks p _ xs refl;
}

abbrev refreshed : Cgroups → Rq → ℕ → Task
refreshed g rq p = record (rq.tasks p) { wrr = refresh_entity g (rq.tasks p) }

enqueue_wrr_entity-Inv :
    (g : Cgroups) (rq : Rq) (p : ℕ) (head : Bool)
    → queued p rq ≡ false
    → Inv rq
    → Inv (enqueue_wrr_entity g rq p head)
unfolding enqueue_wrr_entity contains weights
enqueue_wrr_entity-Inv g rq p true h v = record {
  distinct = (h, v.distinct);
  counted = omega (arith, v.counted);
  weighed =
      omega (arith, v.weighed, weights-link_head rq.tasks p (refreshed g rq p) rq.wrr.queue h);
}
enqueue_wrr_entity-Inv g rq p false h v = record {
  distinct = Distinct-append_one p rq.wrr.queue v.distinct h;
  counted = omega (arith, v.counted, length-append rq.wrr.queue (p ∷ []));
  weighed =
      omega (arith, v.weighed, weights-link_tail rq.tasks p (refreshed g rq p) rq.wrr.queue h);
}

dequeue_wrr_entity-Inv :
    (rq : Rq) (p : ℕ) → queued p rq ≡ true → Inv rq → Inv (dequeue_wrr_entity rq p)
unfolding dequeue_wrr_entity
dequeue_wrr_entity-Inv rq p h v = record {
  distinct = remove-Distinct p rq.wrr.queue v.distinct;
  counted = omega (arith, v.counted, length-remove p rq.wrr.queue h);
  weighed = omega (arith, v.weighed, weights-remove rq.tasks p rq.wrr.queue h);
}

pub requeue_task_wrr-Inv :
    (rq : Rq) (p : ℕ) (head : Bool) → queued p rq ≡ true → Inv rq → Inv (requeue_task_wrr rq p head)
unfolding requeue_task_wrr weights contains
requeue_task_wrr-Inv rq p true h v = record {
  distinct = (contains-remove p rq.wrr.queue v.distinct, remove-Distinct p rq.wrr.queue v.distinct);
  counted = omega (arith, v.counted, length-remove p rq.wrr.queue h);
  weighed = omega (arith, v.weighed, weights-remove rq.tasks p rq.wrr.queue h);
}
requeue_task_wrr-Inv rq p false h v = record {
  distinct =
      Distinct-append_one p (remove p rq.wrr.queue) (remove-Distinct p rq.wrr.queue v.distinct)
        (contains-remove p rq.wrr.queue v.distinct);
  counted = omega (
    arith,
    v.counted,
    length-remove p rq.wrr.queue h,
    length-append (remove p rq.wrr.queue) (p ∷ []),
  );
  weighed = omega (
    arith,
    v.weighed,
    weights-remove rq.tasks p rq.wrr.queue h,
    weights-append rq.tasks (remove p rq.wrr.queue) (p ∷ []),
  );
}

put_prev_task_wrr-Keeps : (rq : Rq) (p : ℕ) → Keeps (update_curr_wrr rq) (put_prev_task_wrr rq p)
unfolding put_prev_task_wrr
put_prev_task_wrr-Keeps rq p = record {
  wrr = refl;
  tasks = λ xs. weights-update_same (update_curr_wrr rq).tasks p _ xs refl;
}

set_curr_task_wrr-Keeps : (rq : Rq) → Keeps rq (set_curr_task_wrr rq)
unfolding set_curr_task_wrr
set_curr_task_wrr-Keeps rq = record {
  wrr = refl;
  tasks = λ xs. weights-update_same rq.tasks rq.curr _ xs refl;
}

-- A task that is not queued is enqueued with the bookkeeping kept.
pub enqueue_task_wrr-Inv :
    (g : Cgroups) (rq : Rq) (p flags : ℕ)
    → queued p rq ≡ false
    → Inv rq
    → Inv (enqueue_task_wrr g rq p flags)
unfolding enqueue_task_wrr
enqueue_task_wrr-Inv g rq p flags h v =
    let w = enqueue_wrr_entity-Inv g rq p _ h v in
    record { distinct = w.distinct; counted = w.counted; weighed = w.weighed }

-- A queued task is dequeued with the bookkeeping kept.
pub dequeue_task_wrr-Inv :
    (rq : Rq) (p : ℕ) → queued p rq ≡ true → Inv rq → Inv (dequeue_task_wrr rq p)
unfolding dequeue_task_wrr
dequeue_task_wrr-Inv rq p h v =
    let k = update_curr_wrr-Keeps rq in
    let w = dequeue_wrr_entity-Inv (update_curr_wrr rq) p (rw k.wrr h) (Keeps-Inv k v) in
    record { distinct = w.distinct; counted = w.counted; weighed = w.weighed }

pub yield_task_wrr-Inv : (rq : Rq) → queued rq.curr rq ≡ true → Inv rq → Inv (yield_task_wrr rq)
unfolding yield_task_wrr
yield_task_wrr-Inv rq h v = requeue_task_wrr-Inv rq rq.curr false h v

pub put_prev_task_wrr-Inv : (rq : Rq) (p : ℕ) → Inv rq → Inv (put_prev_task_wrr rq p)
put_prev_task_wrr-Inv rq p v =
    Keeps-Inv (put_prev_task_wrr-Keeps rq p) (Keeps-Inv (update_curr_wrr-Keeps rq) v)

pub set_curr_task_wrr-Inv : (rq : Rq) → Inv rq → Inv (set_curr_task_wrr rq)
set_curr_task_wrr-Inv rq v = Keeps-Inv (set_curr_task_wrr-Keeps rq) v

slice_expired-Inv :
    (g : Cgroups) (rq : Rq) (p : ℕ) → queued p rq ≡ true → Inv rq → Inv (slice_expired g rq p)
unfolding slice_expired
slice_expired-Inv g rq p h v =
    let k = set_slice-Keeps rq p (refill g (rq.tasks p)) in
    let w =
      requeue_task_wrr-Inv (set_slice rq p (refill g (rq.tasks p))) p false h (Keeps-Inv k v) in
    if_cases Inv (has_neighbours p rq.wrr.queue) (λ _. Keeps-Inv (resched_task-Keeps _ p) w)
      (λ _. Keeps-Inv k v)

-- A tick keeps the bookkeeping, whether the slice lasts, is refilled, or the task goes to the tail.
pub task_tick_wrr-Inv :
    (g : Cgroups) (rq : Rq) (p : ℕ) → queued p rq ≡ true → Inv rq → Inv (task_tick_wrr g rq p)
unfolding task_tick_wrr
task_tick_wrr-Inv g rq p h v =
    let k = update_curr_wrr-Keeps rq in
    if_cases Inv (not (sub32 ((update_curr_wrr rq).tasks p).wrr.time_slice 1 == 0))
      (λ _. Keeps-Inv (set_slice-Keeps (update_curr_wrr rq) p _) (Keeps-Inv k v))
      (λ _. slice_expired-Inv g (update_curr_wrr rq) p (rw k.wrr h) (Keeps-Inv k v))

set_weight-Keeps :
    (rq : Rq) (p w : ℕ)
    → w ≡ (rq.tasks p).wrr.weight
    → let t = rq.tasks p in
      Keeps rq (set_task rq p (record t { wrr = record (t.wrr) { weight = w } }))
set_weight-Keeps rq p w h = record {
  wrr = refl;
  tasks = λ xs. weights-update_same rq.tasks p _ xs h;
}

resched_weight :
    (g : Cgroups) (rq : Rq) (p : ℕ)
    → (rq.tasks p).wrr.weight ≡ (if background g (rq.tasks p).sched_task_group then 1 else 10)
    → let t = (resched_task rq rq.curr).tasks p in
      (if background g t.sched_task_group then 1 else 10) ≡ t.wrr.weight
unfolding resched_task
resched_weight g rq p h = ground arith

-- switched_to_wrr sets a weight without correcting `total_weight`: the bookkeeping is kept if the
-- weight that it sets is the one that the task was enqueued with.
pub switched_to_wrr-Inv :
    (g : Cgroups) (rq : Rq) (p : ℕ)
    → (rq.tasks p).wrr.weight ≡ (if background g (rq.tasks p).sched_task_group then 1 else 10)
    → Inv rq
    → Inv (switched_to_wrr g rq p)
unfolding switched_to_wrr
switched_to_wrr-Inv g rq p h v =
    let k = resched_task-Keeps rq rq.curr in
    let rq' = resched_task rq rq.curr in
    let w = if background g (rq'.tasks p).sched_task_group then 1 else 10 in
    if_cases Inv ((rq.tasks p).on_rq && not (rq.curr == p))
      (λ _. Keeps-Inv (set_weight-Keeps rq' p w (resched_weight g rq p h)) (Keeps-Inv k v)) (λ _. v)
