-- ===== src/Dispatch/Balance.antt =====
-- The counter against the counts of switches, over any sequence of events.
use linux_kernel.Prelude.{
  Bool-cases, inl, inr, ℕ, zero, suc, ◌+◌, ◌%◌, ◌<◌, ◌≡◌, ◌≢◌, refl, ap, ◌∙◌, Bool, true, false,
  ◌&&◌, not, List, [], ◌∷◌, arith, ◌==◌,
}
use linux_kernel.Prelude.Words.{u32_mod}
use linux_kernel.Dispatch.{State, Classes, Event, __schedule, copy_process, happen, run}
use linux_kernel.Dispatch.Counting.{
  one_if, current, switches, schedule-ctx, schedule-current, schedule-switches,
}

-- Events after the fork of a task: p is not forked again, and there are n processors.
pub data Since {Q : Type 0} (p n : ℕ) : List (Event Q) → Type 0 where
  none_left : Since p n []
  schedule :
      (preempt b : Bool) {cpu : ℕ} {es : List (Event Q)}
      → cpu < n
      → Since p n es
      → Since p n (Event.schedule preempt b cpu ∷ es)
  fork :
      (orig : ℕ) {q : ℕ} {es : List (Event Q)}
      → q ≢ p
      → Since p n es
      → Since p n (Event.fork orig q ∷ es)
  change :
      (q state on_rq : ℕ) (frozen in_iowait : Bool) (cpu u w : ℕ) (classes : Q)
      {es : List (Event Q)}
      → Since p n es
      → Since p n (Event.change q state on_rq frozen in_iowait cpu u w classes ∷ es)

module _ {Q : Type 0} where
  -- The number of processors below n on which a task is the current one.
  abbrev pub running : ℕ → ℕ → State Q → ℕ
  running zero p s = 0
  running (suc n) p s = one_if (current s n == p) + running n p s

  running_same :
      (n p : ℕ) (s t : State Q)
      → ((i : ℕ) → i < n → current t i ≡ current s i)
      → running n p t ≡ running n p s
  running_same zero p s t h = refl
  running_same (suc n) p s t h =
      let now : current t n ≡ current s n = h n (omega arith) in
      let rest : running n p t ≡ running n p s = running_same n p s t (λ i l. h i (omega arith)) in
      cc

  running_moves :
      (n p cpu : ℕ) (s t : State Q)
      → cpu < n
      → ((i : ℕ) → i ≢ cpu → current t i ≡ current s i)
      → running n p t + one_if (current s cpu == p) ≡ running n p s + one_if (current t cpu == p)
  running_moves zero p cpu s t l h = elim l [ ]
  running_moves (suc n) p cpu s t l h = elim (Bool-cases (cpu == n)) [
    | inl e ↦
        let same : running n p t ≡ running n p s =
          running_same n p s t (λ i k. h i (differ i k e)) in
        let at : cpu ≡ n = ground arith in ground arith
    | inr e ↦
        let below : n ≢ cpu = apart e in
        let here = h n below in
        let rest = running_moves n p cpu s t (ground arith) h in ground arith
  ]
    where
      differ : (i : ℕ) → i < n → (cpu == n) ≡ true → i ≢ cpu
      differ i k e j = ground arith

      apart : (cpu == n) ≡ false → n ≢ cpu
      apart e j = ground arith

module _ {Q : Type 0} (c : Classes Q) where
  -- The calls of __schedule that leave p as the current task.
  unfoldable pub picks : ℕ → List (Event Q) → State Q → ℕ
  picks p [] s = 0
  picks p (Event.schedule preempt b cpu ∷ es) s =
      let t = __schedule c preempt b cpu s in one_if (current t cpu == p) + picks p es t
  picks p (Event.fork orig q ∷ es) s = picks p es (copy_process c orig q s)
  picks p (Event.change q state on_rq frozen in_iowait cpu u w classes ∷ es) s =
      picks p es (happen c (Event.change q state on_rq frozen in_iowait cpu u w classes) s)

  -- Those that find p as the current task already.
  unfoldable pub picks_again : ℕ → List (Event Q) → State Q → ℕ
  picks_again p [] s = 0
  picks_again p (Event.schedule preempt b cpu ∷ es) s =
      let t = __schedule c preempt b cpu s in
      one_if (current s cpu == p && current t cpu == p) + picks_again p es t
  picks_again p (Event.fork orig q ∷ es) s = picks_again p es (copy_process c orig q s)
  picks_again p (Event.change q state on_rq frozen in_iowait cpu u w classes ∷ es) s =
      picks_again p es (happen c (Event.change q state on_rq frozen in_iowait cpu u w classes) s)

  run-ctx :
      {p n : ℕ} {es : List (Event Q)} (s : State Q)
      → Since p n es
      → (s.tasks p).ctx < u32_mod
      → ((run c es s).tasks p).ctx ≡ ((s.tasks p).ctx + picks p es s) % u32_mod
  unfolding run happen picks copy_process
  run-ctx s none_left h = ground arith
  run-ctx {p = p} s (schedule preempt b {cpu = cpu} l r) h =
      let step = schedule-ctx c preempt b cpu p s in
      run-ctx (__schedule c preempt b cpu s) r (ground arith) ∙ ground arith
  run-ctx {p = p} s (fork orig {q = q} ne r) h =
      run-ctx (copy_process c orig q s) r (ground arith) ∙ ground arith
  run-ctx s (change q state on_rq frozen in_iowait cpu u w classes r) h =
      run-ctx (happen c (Event.change q state on_rq frozen in_iowait cpu u w classes) s) r
        (ground arith)
      ∙ ground arith

  run-switches :
      {p n : ℕ} {es : List (Event Q)} (s : State Q)
      → Since p n es
      → (switches (run c es s) p + running n p (run c es s) + picks_again p es s) % u32_mod
        ≡ (switches s p + running n p s + picks p es s) % u32_mod
  unfolding run happen picks picks_again copy_process
  run-switches s none_left = refl
  run-switches {p = p} {n = n} s (schedule preempt b {cpu = cpu} {es = es} l r) =
      let t = __schedule c preempt b cpu s in
      let away = schedule-switches c preempt b cpu p s in
      let moved = running_moves n p cpu s t l (λ i k. schedule-current c preempt b cpu i s k) in
      let rest = run-switches t r in
      add_step (switches (run c es t) p + running n p (run c es t)) (picks_again p es t)
        (picks p es t) (switches t p) (switches s p) (running n p t) (running n p s)
        (current s cpu == p) (current t cpu == p) away moved rest
    where
      add_step :
          (a again picks x y r q : ℕ) (was is : Bool)
          → x % u32_mod ≡ (y + one_if (was && not is)) % u32_mod
          → r + one_if was ≡ q + one_if is
          → (a + again) % u32_mod ≡ (x + r + picks) % u32_mod
          → (a + (one_if (was && is) + again)) % u32_mod ≡ (y + q + (one_if is + picks)) % u32_mod
      add_step a again picks x y r q true true h k e = omega arith
      add_step a again picks x y r q true false h k e = omega arith
      add_step a again picks x y r q false true h k e = omega arith
      add_step a again picks x y r q false false h k e = omega arith
  run-switches {p = p} {n = n} s (fork orig {q = q} {es = es} ne r) =
      let t = copy_process c orig q s in
      let kept : switches t p ≡ switches s p = ground arith in
      let same : running n p t ≡ running n p s = running_same n p s t (λ i k. refl) in
      run-switches t r
      ∙ ap (λ m. (m + running n p t + picks p es t) % u32_mod) kept
      ∙ ap (λ m. (switches s p + m + picks p es t) % u32_mod) same
  run-switches {p = p} {n = n} s
        (change q state on_rq frozen in_iowait cpu u w classes {es = es} r) =
      let t = happen c (Event.change q state on_rq frozen in_iowait cpu u w classes) s in
      let kept : switches t p ≡ switches s p = ground arith in
      let same : running n p t ≡ running n p s = running_same n p s t (λ i k. ground arith) in
      run-switches t r
      ∙ ap (λ m. (m + running n p t + picks p es t) % u32_mod) kept
      ∙ ap (λ m. (switches s p + m + picks p es t) % u32_mod) same

  forked_ctx : (orig p : ℕ) (s : State Q) → ((copy_process c orig p s).tasks p).ctx ≡ 0
  unfolding copy_process
  forked_ctx orig p s = ground arith

  forked_switches : (orig p : ℕ) (s : State Q) → switches (copy_process c orig p s) p ≡ 0
  unfolding copy_process
  forked_switches orig p s = ground arith

  forked_current :
      {n : ℕ} (orig p : ℕ) (s : State Q) (i : ℕ)
      → i < n
      → current (copy_process c orig p s) i ≡ current s i
  unfolding copy_process
  forked_current orig p s i k = refl

  -- After the fork of a task that runs on none of the n processors, and any events in which it is not
  -- forked again: its `ctx` is the number of the calls of __schedule that left it as the current
  -- task, which are its switches away, voluntary or not, the calls that found it running and kept it,
  -- and one if it runs now. All this is modulo 2^32.
  pub copy_process-run-ctx :
      (orig p n : ℕ) (es : List (Event Q)) (s : State Q)
      → Since p n es
      → running n p s ≡ 0
      → let born = copy_process c orig p s in
        let t = run c es born in
        ((t.tasks p).ctx ≡ picks p es born % u32_mod)
        × ((t.tasks p).ctx ≡ (switches t p + running n p t + picks_again p es born) % u32_mod)
  copy_process-run-ctx orig p n es s r h =
      let born = copy_process c orig p s in
      let counted = run-ctx born r (rw (forked_ctx orig p s) (omega arith)) in
      let balanced = run-switches born r in
      let fresh = forked_ctx orig p s in
      let no_switch = forked_switches orig p s in
      let waits = running_same n p s born (forked_current orig p s) in (omega arith, omega arith)
