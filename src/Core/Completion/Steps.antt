-- ===== src/Core/Completion/Steps.antt =====
-- All the calls on one completion, one after the other, by any tasks.
use linux_kernel.Prelude.{
  ℕ, zero, suc, ◌+◌, ◌-◌, ◌≡◌, ◌≢◌, ◌⊎◌, inl, inr, refl, Bool, true, false, ◌&&◌, ◌||◌, not, List,
  [], ◌∷◌, ◌++◌, arith, if◌then◌else◌, if_cases, Bool-cases, ◌==◌,
}
use linux_kernel.Prelude.Int.{ℤ, pos, negsuc, eqb_ℤ}
use linux_kernel.Prelude.Errno.{erestartsys}
use linux_kernel.Core.Completion.{
  Waiter, Completion, set_asleep, complete, complete_all, half_of_all, Wait, sleeps, returns,
  or_one, remove_wait_queue, finish_wait, wait_round, do_wait_for_common, resume_wait,
  try_wait_for_completion,
}

-- One if a wait ends with a positive number.
abbrev pub passed : Wait → ℕ
passed (sleeps t) = 0
passed (returns (pos zero)) = 0
passed (returns (pos (suc n))) = 1
passed (returns (negsuc n)) = 0

abbrev pub one_if : Bool → ℕ
one_if b = if b then 1 else 0

abbrev pub queued : ℕ → List Waiter → Bool
queued p [] = false
queued p (w ∷ ws) = w.task == p || queued p ws

-- A call, with the completions it gives and those that it takes. A task comes back from
-- schedule_timeout when it is awake; a timer or a signal may wake it; a task in no wait here may sleep
-- for another reason.
pub data Step : Completion → ℕ → ℕ → Completion → Type 0 where
  gives_one : (x : Completion) → Step x 1 0 (complete x)
  gives_all : (x : Completion) → Step x half_of_all 0 (complete_all x)
  tries :
      (x : Completion)
      → Step x 0 (one_if (try_wait_for_completion x).1) (try_wait_for_completion x).0
  enters :
      (x : Completion) (p : ℕ) (signal : Bool) (timeout : ℕ)
      → Step x 0
          (passed (do_wait_for_common x p signal timeout).1)
          (do_wait_for_common x p signal timeout).0
  resumes :
      (x : Completion) (p : ℕ) (signal : Bool) (timeout : ℕ)
      → queued p x.wait ≡ true
      → x.asleep p ≡ false
      → Step x 0 (passed (resume_wait x p signal timeout).1) (resume_wait x p signal timeout).0
  woken : (x : Completion) (p : ℕ) → Step x 0 0 (record x { asleep = set_asleep x.asleep p false })
  sleeps_elsewhere :
      (x : Completion) (p : ℕ)
      → queued p x.wait ≡ false
      → Step x 0 0 (record x { asleep = set_asleep x.asleep p true })

pub data Reach (x : Completion) : ℕ → ℕ → Completion → Type 0 where
  here : Reach x 0 0 x
  next : {n m g k : ℕ} {y z : Completion} → Reach x n m y → Step y g k z → Reach x (n + g) (m + k) z

-- What a part of a wait does: there was no completion to take, and it ends without success; or it takes
-- one, and leaves the queue or was not in it.
pub data Part (x : Completion) : Completion × Wait → Type 0 where
  nothing : (y : Completion) (o : Wait) → x.done ≡ 0 → y.done ≡ 0 → passed o ≡ 0 → Part x (y, o)
  leaves :
      (p : ℕ) (v : ℤ)
      → x.done ≢ 0
      → passed (returns v) ≡ 1
      → Part x (record x { wait = remove_wait_queue x.wait p; done = x.done - 1 }, returns v)
  barges :
      (v : ℤ)
      → x.done ≢ 0
      → passed (returns v) ≡ 1
      → Part x (record x { done = x.done - 1 }, returns v)

or_one-passed : (t : ℕ) → passed (returns (or_one (pos t))) ≡ 1
or_one-passed zero = refl
or_one-passed (suc t) =
    if_cases (λ (v : ℤ). passed (returns v) ≡ 1) (eqb_ℤ (pos (suc t)) (pos 0)) {x = pos 1}
      {y = pos (suc t)} (λ _. refl) (λ _. refl)

nonzero : (n : ℕ) → (n == 0) ≡ false → n ≢ 0
nonzero n h e = ground arith

is_zero : (n : ℕ) → (n == 0) ≡ true → n ≡ 0
is_zero n h = ground arith

wait_round-Part :
    (x y : Completion) (p : ℕ) (signal : Bool) (t : ℕ)
    → x.done ≡ 0
    → y.done ≡ 0
    → Part x (wait_round y p signal t)
unfolding wait_round finish_wait
wait_round-Part x y p signal t h k =
    if_cases (Part x) signal
      (λ _.
        if_cases (Part x) (y.done == 0)
          (λ _.
            Part.nothing (record y { wait = remove_wait_queue y.wait p }) (returns erestartsys) h k
              refl)
          (λ e. absurd (nonzero y.done e k)))
      (λ _. Part.nothing (record y { asleep = set_asleep y.asleep p true }) (sleeps t) h k refl)

finish_wait-Part :
    (x : Completion) (p t : ℕ) → (x.done ≢ 0) ⊎ (t ≡ 0) → Part x (finish_wait x p (pos t))
unfolding finish_wait
finish_wait-Part x p t h =
    if_cases (Part x) (x.done == 0)
      (λ e.
        Part.nothing (record x { wait = remove_wait_queue x.wait p }) (returns (pos t))
          (is_zero x.done e) (is_zero x.done e) (timed_out (is_zero x.done e) h))
      (λ e. Part.leaves p (or_one (pos t)) (nonzero x.done e) (or_one-passed t))
  where
    timed_out : x.done ≡ 0 → (x.done ≢ 0) ⊎ (t ≡ 0) → passed (returns (pos t)) ≡ 0
    timed_out e (inl k) = absurd (k e)
    timed_out e (inr k) = rw k refl

pub resume_wait-Part :
    (x : Completion) (p : ℕ) (signal : Bool) (t : ℕ) → Part x (resume_wait x p signal t)
unfolding resume_wait
resume_wait-Part x p signal t =
    if_cases (Part x) (x.done == 0 && not (t == 0))
      (λ h. wait_round-Part x x p signal t (ground arith) (ground arith))
      (λ h. finish_wait-Part x p t (ended h))
  where
    ended : (x.done == 0 && not (t == 0)) ≡ false → (x.done ≢ 0) ⊎ (t ≡ 0)
    ended h = elim (Bool-cases (x.done == 0)) [
      | inl e ↦ inr (ground arith)
      | inr e ↦ inl (nonzero x.done e)
    ]

pub do_wait_for_common-Part :
    (x : Completion) (p : ℕ) (signal : Bool) (t : ℕ) → Part x (do_wait_for_common x p signal t)
unfolding do_wait_for_common
do_wait_for_common-Part x p signal t =
    if_cases (Part x) (x.done == 0)
      (λ e.
        wait_round-Part x
          (record x { wait = x.wait ++ (record { task = p; exclusive = true } ∷ []) }) p signal t
          (is_zero x.done e) (is_zero x.done e))
      (λ e. Part.barges (or_one (pos t)) (nonzero x.done e) (or_one-passed t))
