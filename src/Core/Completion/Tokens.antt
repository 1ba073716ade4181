-- ===== src/Core/Completion/Tokens.antt =====
-- What the calls on a completion add up to, in any order.
use linux_kernel.Prelude.{
  ℕ, zero, suc, ◌+◌, ◌-◌, ◌%◌, ◌≤◌, ◌≡◌, ◌≢◌, ◌⊎◌, inl, inr, refl, ap, Bool, true, false, List, [],
  ◌∷◌, arith,
}
use linux_kernel.Prelude.Words.{u32_mod}
use linux_kernel.Prelude.Int.{pos}
use linux_kernel.Core.Completion.{
  Waiter, Completion, set_asleep, complete, complete_all, Wait, returns, remove_wait_queue,
  try_wait_for_completion,
}
use linux_kernel.Core.Completion.Waking.{
  awake, sleeping, awake-le, sleeping-le, set_asleep-OnlyWakes, __wake_up_common-OnlyWakes,
  wakes_one, wakes_all,
}
use linux_kernel.Core.Completion.Steps.{
  passed, queued, Step, Reach, Part, resume_wait-Part, do_wait_for_common-Part,
}

positive : (n k : ℕ) → n ≢ 0 → k ≡ 1 → n - 1 + k ≡ n
positive zero k h e = absurd (h refl)
positive (suc n) k h e = omega arith

-- A success takes one completion.
Part-done : {x : Completion} {r : Completion × Wait} → Part x r → r.0.done + passed r.1 ≡ x.done
Part-done (Part.nothing y o h k e) = omega arith
Part-done {x} (Part.leaves p v h e) = positive x.done (passed (returns v)) h e
Part-done {x} (Part.barges v h e) = positive x.done (passed (returns v)) h e

Step-done :
    {x y : Completion} {g k : ℕ} → Step x g k y → (y.done + k) % u32_mod ≡ (x.done + g) % u32_mod
unfolding complete complete_all try_wait_for_completion
Step-done (Step.gives_one x) = omega arith
Step-done (Step.gives_all x) = omega arith
Step-done (Step.tries x) = ground arith
Step-done (Step.enters x p signal t) =
    let taken = Part-done (do_wait_for_common-Part x p signal t) in omega arith
Step-done (Step.resumes x p signal t q a) =
    let taken = Part-done (resume_wait-Part x p signal t) in omega arith
Step-done (Step.woken x p) = refl
Step-done (Step.sleeps_elsewhere x p q) = refl

-- After any calls, `done` and the waits that succeeded make up what `done` was and what was given,
-- modulo 2^32: a call of complete gives 1, and one of complete_all 2^31 - 1.
pub Reach-done :
    {x y : Completion} {n m : ℕ} → Reach x n m y → (y.done + m) % u32_mod ≡ (x.done + n) % u32_mod
Reach-done Reach.here = omega arith
Reach-done (Reach.next {n = n} {m = m} {g = g} {k = k} r st) =
    let before = Reach-done r in let now = Step-done st in omega arith

-- Either no waiter sleeps, or at least as many as there are completions to take are awake.
pub NoLost : Completion → Type 0
NoLost x = (sleeping x.wait x.asleep ≡ 0) ⊎ (x.done ≤ awake x.wait x.asleep)

remove_wait_queue-sleeping :
    (ws : List Waiter) (p : ℕ) (a : ℕ → Bool) → sleeping (remove_wait_queue ws p) a ≤ sleeping ws a
remove_wait_queue-sleeping [] p a = omega arith
remove_wait_queue-sleeping (w ∷ ws) p a =
    let rest = remove_wait_queue-sleeping ws p a in ground arith

remove_wait_queue-awake :
    (ws : List Waiter) (p : ℕ) (a : ℕ → Bool) → awake ws a ≤ awake (remove_wait_queue ws p) a + 1
remove_wait_queue-awake [] p a = omega arith
remove_wait_queue-awake (w ∷ ws) p a = let rest = remove_wait_queue-awake ws p a in ground arith

Part-NoLost : {x : Completion} {r : Completion × Wait} → Part x r → NoLost x → NoLost r.0
unfolding NoLost
Part-NoLost (Part.nothing y o h k e) l = inr (omega arith)
Part-NoLost {x} (Part.leaves p v h e) l =
    let s = remove_wait_queue-sleeping x.wait p x.asleep in
    let a = remove_wait_queue-awake x.wait p x.asleep in ground arith
Part-NoLost {x} (Part.barges v h e) l = ground arith

sleeps_elsewhere_same :
    (ws : List Waiter) (p : ℕ) (a : ℕ → Bool)
    → queued p ws ≡ false
    → (sleeping ws (set_asleep a p true) ≡ sleeping ws a)
      × (awake ws (set_asleep a p true) ≡ awake ws a)
sleeps_elsewhere_same [] p a h = (refl, refl)
sleeps_elsewhere_same (w ∷ ws) p a h =
    let (s, t) = sleeps_elsewhere_same ws p a (ground arith) in (ground arith, ground arith)

Step-NoLost : {x y : Completion} {g k : ℕ} → Step x g k y → NoLost x → NoLost y
unfolding complete complete_all try_wait_for_completion NoLost
Step-NoLost (Step.gives_one x) l =
    let one = wakes_one x.wait x.asleep in
    let fewer = sleeping-le x.wait (__wake_up_common-OnlyWakes x.wait (pos 1) x.asleep) in
    ground arith
Step-NoLost (Step.gives_all x) l = inl (wakes_all x.wait (pos 0) x.asleep refl)
Step-NoLost (Step.tries x) l = ground arith
Step-NoLost (Step.enters x p signal t) l = Part-NoLost (do_wait_for_common-Part x p signal t) l
Step-NoLost (Step.resumes x p signal t q a) l = Part-NoLost (resume_wait-Part x p signal t) l
Step-NoLost (Step.woken x p) l =
    let wakes = set_asleep-OnlyWakes x.asleep p in
    let fewer = sleeping-le x.wait wakes in let more = awake-le x.wait wakes in ground arith
Step-NoLost (Step.sleeps_elsewhere x p q) l =
    let (s, t) = sleeps_elsewhere_same x.wait p x.asleep q in ground arith

-- If nobody waits at first, then after any calls either no waiter sleeps, or at least as many waiters as
-- there are completions to take are awake: no wake-up is lost.
pub Reach-NoLost :
    {x y : Completion} {n m : ℕ}
    → x.wait ≡ []
    → Reach x n m y
    → (sleeping y.wait y.asleep ≡ 0) ⊎ (y.done ≤ awake y.wait y.asleep)
unfolding NoLost
Reach-NoLost {x} e Reach.here = inl (ap (λ ws. sleeping ws x.asleep) e)
Reach-NoLost e (Reach.next r st) = Step-NoLost st (Reach-NoLost e r)
