-- ===== src/Wrr/Rotation.antt =====
-- The rotation of the wrr run queue: a task runs until its time slice is used up and then goes to
-- the tail, so that every queued task gets its turn in order.
use linux_kernel.Prelude.{ℕ, suc, ◌<◌, ◌≡◌, List, [], ◌∷◌, ◌++◌, arith, if◌then◌else◌, ◌==◌}
use linux_kernel.Prelude.Words.{u32_mod}
use linux_kernel.Sched.{Rq, resched_task}
use linux_kernel.Wrr.{
  Cgroups, update_curr_wrr, remove, requeue_task_wrr, task_tick_wrr, slice_expired, refill,
}
use linux_kernel.Wrr.Queue.{contains, Distinct, has_neighbours_lem}
use linux_kernel.Wrr.Invariant.{queue-update_curr_wrr}

abbrev pub slice : Rq → ℕ → ℕ
slice rq p = (rq.tasks p).wrr.time_slice

-- The entity `p` with a new time slice, and every other entity as it was.
abbrev pub Sliced : Rq → Rq → ℕ → ℕ → Type 0
Sliced rq rq' p n =
    (q : ℕ)
    → (rq'.tasks q).wrr
      ≡ (if p == q then record ((rq.tasks q).wrr) { time_slice = n } else (rq.tasks q).wrr)

pub wrr-update_curr_wrr : (rq : Rq) (q : ℕ) → ((update_curr_wrr rq).tasks q).wrr ≡ (rq.tasks q).wrr
unfolding update_curr_wrr
wrr-update_curr_wrr rq q = ground arith

-- A tick that does not use up the slice.
pub tick_running :
    (g : Cgroups) (rq : Rq) (p n : ℕ)
    → slice rq p ≡ suc (suc n)
    → suc (suc n) < u32_mod
    → ((task_tick_wrr g rq p).wrr ≡ rq.wrr) × Sliced rq (task_tick_wrr g rq p) p (suc n)
unfolding task_tick_wrr
tick_running g rq p n e b = (
  ground (arith, wrr-update_curr_wrr rq p, queue-update_curr_wrr rq),
  λ q. ground (arith, wrr-update_curr_wrr rq p, wrr-update_curr_wrr rq q),
)

-- The tick that uses it up, for the task at the head.
slice_expired_lem :
    (g : Cgroups) (rq : Rq) (p : ℕ) (xs : List ℕ)
    → rq.wrr.queue ≡ p ∷ xs
    → Distinct (p ∷ xs)
    → ((slice_expired g rq p).wrr ≡ record (rq.wrr) { queue = xs ++ (p ∷ []) })
      × Sliced rq (slice_expired g rq p) p (refill g (rq.tasks p))
unfolding slice_expired resched_task requeue_task_wrr remove contains
slice_expired_lem g rq p [] e d = (ground arith, λ q. ground arith)
slice_expired_lem g rq p (x ∷ xs) e d =
    (ground (arith, has_neighbours_lem p (p ∷ x ∷ xs)), λ q. ground arith)

-- The tick that uses up the slice refills it by weight and moves the task to the tail.
pub tick_expired :
    (g : Cgroups) (rq : Rq) (p : ℕ) (xs : List ℕ)
    → rq.wrr.queue ≡ p ∷ xs
    → Distinct (p ∷ xs)
    → slice rq p ≡ 1
    → ((task_tick_wrr g rq p).wrr ≡ record (rq.wrr) { queue = xs ++ (p ∷ []) })
      × Sliced rq (task_tick_wrr g rq p) p (refill g (rq.tasks p))
unfolding task_tick_wrr
tick_expired g rq p xs e d s =
    let w = queue-update_curr_wrr rq in
    let ex = slice_expired_lem g (update_curr_wrr rq) p xs (rw w e) d in
    (
      ground (arith, wrr-update_curr_wrr rq p, w, ex.0),
      λ q. ground (arith, wrr-update_curr_wrr rq p, wrr-update_curr_wrr rq q, ex.1 q),
    )
