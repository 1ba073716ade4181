-- ===== src/Wrr/Turns.antt =====
-- Whole turns of the round robin: the core switches to the task that pick_next_task_wrr gives, and
-- the timer ticks it until its time slice has run out.
use linux_kernel.Prelude.{
  ℕ, zero, suc, ◌≤◌, ◌<◌, ◌≡◌, ◌≢◌, refl, ◌∙◌, ap, List, [], ◌∷◌, ◌++◌, append_assoc, append-nil,
  none, some, arith, length,
}
use linux_kernel.Prelude.Words.{u32_mod}
use linux_kernel.Sched.{Task, Rq, WrrRq}
use linux_kernel.Wrr.{Cgroups, put_prev_task_wrr, task_tick_wrr, refill, pick_next_task_wrr}
use linux_kernel.Wrr.Queue.{Distinct, Distinct-append_one}
use linux_kernel.Wrr.Invariant.{queue-update_curr_wrr}
use linux_kernel.Wrr.Rotation.{slice, Sliced, tick_running, tick_expired, wrr-update_curr_wrr}

-- scheduler_tick on a wrr task, `n` times; the clock may read anything at each.
pub ticks : Cgroups → (ℕ → ℕ) → ℕ → Rq → ℕ → Rq
ticks g clk zero rq p = rq
ticks g clk (suc n) rq p = ticks g clk n (task_tick_wrr g (record rq { clock_task = clk n }) p) p

-- The part of __schedule that concerns the wrr class: put_prev_task and pick_next_task.
pub switch : Rq → Rq
switch rq =
    let rq' = put_prev_task_wrr rq rq.curr in
    elim (pick_next_task_wrr rq') [ none ↦ rq' | some p ↦ record rq' { curr = p } ]

-- One turn: the task that is switched to uses up its slice.
pub turn : Cgroups → (ℕ → ℕ) → Rq → Rq
turn g clk rq = let rq' = switch rq in ticks g clk (slice rq' rq'.curr) rq' rq'.curr

pub turns : Cgroups → (ℕ → ℕ → ℕ) → ℕ → Rq → Rq
turns g clk zero rq = rq
turns g clk (suc n) rq = turns g clk n (turn g (clk n) rq)

-- The slice that is refilled depends on the weight alone, which a tick leaves.
refill-Sliced :
    (g : Cgroups) (r s : Rq) (p n : ℕ)
    → Sliced r s p n
    → refill g (s.tasks p) ≡ refill g (r.tasks p)
refill-Sliced g r s p n h = ground (arith, h p)

Sliced-trans :
    (g : Cgroups) (r s t : Rq) (p n : ℕ)
    → Sliced r s p n
    → Sliced s t p (refill g (s.tasks p))
    → Sliced r t p (refill g (r.tasks p))
Sliced-trans g r s t p n h k = λ q. ground (arith, h q, k q, refill-Sliced g r s p n h)

-- A whole slice: the task moves from the head to the tail and its slice is refilled by its weight.
ticks_lem :
    (g : Cgroups) (clk : ℕ → ℕ) (n : ℕ) (rq : Rq) (p : ℕ) (xs : List ℕ)
    → slice rq p ≡ suc n
    → suc n < u32_mod
    → rq.wrr.queue ≡ p ∷ xs
    → Distinct (p ∷ xs)
    → ((ticks g clk (suc n) rq p).wrr ≡ record (rq.wrr) { queue = xs ++ (p ∷ []) })
      × Sliced rq (ticks g clk (suc n) rq p) p (refill g (rq.tasks p))
unfolding ticks
ticks_lem g clk zero rq p xs s b e d = tick_expired g (record rq { clock_task = clk 0 }) p xs e d s
ticks_lem g clk (suc n) rq p xs s b e d =
    let start = record rq { clock_task = clk (suc n) } in
    let (w, t) = tick_running g start p n s b in
    let next = task_tick_wrr g start p in
    let (w', t') =
      ticks_lem g clk n next p xs (ground (arith, t p)) (omega arith)
        (ap (λ (r : WrrRq). r.queue) w ∙ e) d in
    (
      w' ∙ ap (λ (r : WrrRq). record r { queue = xs ++ (p ∷ []) }) w,
      Sliced-trans g rq next (ticks g clk (suc n) next p) p (suc n) t t',
    )

-- Every queued task has ticks left, as fit in its `unsigned int`.
abbrev pub Ready : Rq → List ℕ → Type 0
Ready rq [] = Unit {0}
Ready rq (x ∷ xs) = (0 < slice rq x) × (slice rq x < u32_mod) × Ready rq xs

pub record Turning (rq : Rq) (q : List ℕ) : Type 0 where
  pub queue : rq.wrr.queue ≡ q
  pub running : rq.wrr.wrr_nr_running ≢ 0
  pub distinct : Distinct q
  pub ready : Ready rq q

put_prev_task_wrr_lem :
    (rq : Rq) (p : ℕ)
    → ((put_prev_task_wrr rq p).wrr ≡ rq.wrr)
      × ((q : ℕ) → ((put_prev_task_wrr rq p).tasks q).wrr ≡ (rq.tasks q).wrr)
unfolding put_prev_task_wrr
put_prev_task_wrr_lem rq p = (
  queue-update_curr_wrr rq,
  λ q. ground (arith, wrr-update_curr_wrr rq p, wrr-update_curr_wrr rq q),
)

switch_lem :
    (rq : Rq) (p : ℕ) (xs : List ℕ)
    → rq.wrr.queue ≡ p ∷ xs
    → rq.wrr.wrr_nr_running ≢ 0
    → ((switch rq).curr ≡ p)
      × ((switch rq).wrr ≡ rq.wrr)
      × ((q : ℕ) → ((switch rq).tasks q).wrr ≡ (rq.tasks q).wrr)
unfolding switch pick_next_task_wrr
switch_lem rq p xs e r =
    let (w, t) = put_prev_task_wrr_lem rq rq.curr in
    (ground (arith, w), ground (arith, w), λ q. ground (arith, w, t q))

Ready-Sliced :
    (r s : Rq) (p n : ℕ) (xs : List ℕ)
    → Sliced r s p n
    → 0 < n
    → n < u32_mod
    → Ready r xs
    → Ready s xs
Ready-Sliced r s p n [] h l u k = tt
Ready-Sliced r s p n (x ∷ xs) h l u k =
    (ground (arith, h x), ground (arith, h x), Ready-Sliced r s p n xs h l u k.2)

ticks_full :
    (g : Cgroups) (clk : ℕ → ℕ) (n : ℕ) (rq : Rq) (p : ℕ) (xs : List ℕ)
    → slice rq p ≡ n
    → 0 < n
    → n < u32_mod
    → rq.wrr.queue ≡ p ∷ xs
    → Distinct (p ∷ xs)
    → ((ticks g clk n rq p).wrr ≡ record (rq.wrr) { queue = xs ++ (p ∷ []) })
      × Sliced rq (ticks g clk n rq p) p (refill g (rq.tasks p))
ticks_full g clk zero rq p xs s l u e d = elim l [ ]
ticks_full g clk (suc n) rq p xs s l u e d = ticks_lem g clk n rq p xs s u e d

-- HZ is such that a slice has at least one tick and fits in an `unsigned int`.
pub record HzFits (g : Cgroups) : Type 0 where
  pub at_least : 100 ≤ g.hz
  pub at_most : g.hz ≤ 1000000

refill_bounds : (g : Cgroups) → HzFits g → (t : Task) → (0 < refill g t) × (refill g t < u32_mod)
refill_bounds g h t = ground arith

Ready-append_one :
    (r : Rq) (p : ℕ) (xs : List ℕ)
    → Ready r xs
    → 0 < slice r p
    → slice r p < u32_mod
    → Ready r (xs ++ (p ∷ []))
Ready-append_one r p [] k l u = (l, u, tt)
Ready-append_one r p (x ∷ xs) k l u = (k.0, k.1, Ready-append_one r p xs k.2 l u)

Ready-same :
    (r s : Rq) (xs : List ℕ)
    → ((q : ℕ) → (s.tasks q).wrr ≡ (r.tasks q).wrr)
    → Ready r xs
    → Ready s xs
Ready-same r s [] h k = tt
Ready-same r s (x ∷ xs) h k = (ground (arith, h x), ground (arith, h x), Ready-same r s xs h k.2)

-- One turn of a queue that starts with `p`: `p` goes to the tail with a new slice.
pub turn-Turning :
    (g : Cgroups) (clk : ℕ → ℕ) (rq : Rq) (p : ℕ) (xs : List ℕ)
    → HzFits g
    → Turning rq (p ∷ xs)
    → Turning (turn g clk rq) (xs ++ (p ∷ []))
unfolding turn switch
turn-Turning g clk rq p xs hz v =
    let rq' = switch rq in
    let (c, w, t) = switch_lem rq p xs v.queue v.running in
    let ready = Ready-same rq rq' (p ∷ xs) t v.ready in
    let q : rq'.wrr.queue ≡ p ∷ xs = ap (λ (r : WrrRq). r.queue) w ∙ v.queue in
    let (w', s) = ticks_full g clk (slice rq' p) rq' p xs refl ready.0 ready.1 q v.distinct in
    let out = ticks g clk (slice rq' p) rq' p in
    let b = refill_bounds g hz (rq'.tasks p) in
    rw c (record {
      queue = ap (λ (r : WrrRq). r.queue) w';
      running = λ z. v.running (ground (arith, w, w', z));
      distinct = Distinct-append_one p xs v.distinct.1 v.distinct.0;
      ready =
          Ready-append_one out p xs (Ready-Sliced rq' out p _ xs s b.0 b.1 ready.2)
            (ground (arith, s p, b)) (ground (arith, s p, b));
    })

-- Liveness: a task with `xs` before it in the queue is the one that is picked after as many turns
-- as `xs` is long, with the tasks of `xs` behind it.
pub turns_reach :
    (g : Cgroups) (clk : ℕ → ℕ → ℕ) (rq : Rq) (xs : List ℕ) (p : ℕ) (ys : List ℕ)
    → HzFits g
    → Turning rq (xs ++ (p ∷ ys))
    → let rq' = turns g clk (length xs) rq in
      Turning rq' (p ∷ (ys ++ xs)) × (pick_next_task_wrr rq' ≡ some p)
unfolding turns pick_next_task_wrr
turns_reach g clk rq [] p ys hz v = (rw append-nil v, ground (arith, v.queue))
turns_reach g clk rq (x ∷ xs) p ys hz v =
    let rq' = turn g (clk (length xs)) rq in
    let v' = turn-Turning g (clk (length xs)) rq x (xs ++ (p ∷ ys)) hz v in
    let moved : Turning rq' (xs ++ (p ∷ (ys ++ (x ∷ [])))) = rw append_assoc at v' in
    let (w, picked) = turns_reach g clk rq' xs p (ys ++ (x ∷ [])) hz moved in
    (rw append_assoc at w, picked)
