-- ===== src/Core/Completion/Waking.antt =====
-- Which waiters __wake_up_common wakes.
use linux_kernel.Prelude.{
  ℕ, ◌+◌, ◌≤◌, ◌<◌, ◌≡◌, ◌⊎◌, inl, inr, refl, Bool, true, false, List, [], ◌∷◌, arith,
  if◌then◌else◌, if_cases, Bool-cases,
}
use linux_kernel.Prelude.Int.{ℤ, pos, negsuc, ◌-ℤ◌, eqb_ℤ, pos_part}
use linux_kernel.Core.Completion.{Waiter, set_asleep, __wake_up_common}

-- The waiters that are awake, and those that sleep.
abbrev pub awake : List Waiter → (ℕ → Bool) → ℕ
awake [] asleep = 0
awake (w ∷ ws) asleep = (if asleep w.task then 0 else 1) + awake ws asleep

abbrev pub sleeping : List Waiter → (ℕ → Bool) → ℕ
sleeping [] asleep = 0
sleeping (w ∷ ws) asleep = (if asleep w.task then 1 else 0) + sleeping ws asleep

-- No task sleeps after that was awake before.
abbrev pub OnlyWakes : (before after : ℕ → Bool) → Type 0
OnlyWakes before after = (p : ℕ) → after p ≡ true → before p ≡ true

pub awake-le : (ws : List Waiter) {a b : ℕ → Bool} → OnlyWakes a b → awake ws a ≤ awake ws b
awake-le [] h = omega arith
awake-le (w ∷ ws) h = let rest = awake-le ws h in let here = h w.task in ground arith

pub sleeping-le :
    (ws : List Waiter) {a b : ℕ → Bool} → OnlyWakes a b → sleeping ws b ≤ sleeping ws a
sleeping-le [] h = omega arith
sleeping-le (w ∷ ws) h = let rest = sleeping-le ws h in let here = h w.task in ground arith

pub set_asleep-OnlyWakes : (a : ℕ → Bool) (p : ℕ) → OnlyWakes a (set_asleep a p false)
set_asleep-OnlyWakes a p q h = ground arith

pub __wake_up_common-OnlyWakes :
    (ws : List Waiter) (nr : ℤ) (a : ℕ → Bool) → OnlyWakes a (__wake_up_common ws nr a)
unfolding __wake_up_common
__wake_up_common-OnlyWakes [] nr a q h = h
__wake_up_common-OnlyWakes (w ∷ ws) nr a q h =
    let woken = set_asleep a w.task false in
    let go_on = __wake_up_common-OnlyWakes ws nr woken q in
    let pass = __wake_up_common-OnlyWakes ws nr a q in
    let counted = __wake_up_common-OnlyWakes ws (nr -ℤ pos 1) woken q in ground arith

-- A waiter that is awake is passed over.
passed_over :
    (w : Waiter) (ws : List Waiter) (nr : ℤ) (a : ℕ → Bool)
    → a w.task ≡ false
    → __wake_up_common (w ∷ ws) nr a ≡ __wake_up_common ws nr a
unfolding __wake_up_common
passed_over w ws nr a h = rw h refl

-- A waiter that sleeps is woken, and stays so.
woken-OnlyWakes :
    (w : Waiter) (ws : List Waiter) (nr : ℤ) (a : ℕ → Bool)
    → a w.task ≡ true
    → OnlyWakes (set_asleep a w.task false) (__wake_up_common (w ∷ ws) nr a)
unfolding __wake_up_common
woken-OnlyWakes w ws nr a h q =
    let woken = set_asleep a w.task false in
    let go_on = __wake_up_common-OnlyWakes ws nr woken q in
    let counted = __wake_up_common-OnlyWakes ws (nr -ℤ pos 1) woken q in
    rw h (
      if_cases (λ (r : ℕ → Bool). r q ≡ true → woken q ≡ true) w.exclusive
        (λ _.
          if_cases (λ (r : ℕ → Bool). r q ≡ true → woken q ≡ true) (eqb_ℤ (nr -ℤ pos 1) (pos 0))
            (λ _ k. k) (λ _. counted))
        (λ _. go_on))

-- A wake-up of one leaves no waiter asleep, or one more is awake.
pub wakes_one :
    (ws : List Waiter) (a : ℕ → Bool)
    → (sleeping ws a ≡ 0) ⊎ (awake ws a < awake ws (__wake_up_common ws (pos 1) a))
wakes_one [] a = inl refl
wakes_one (w ∷ ws) a = elim (Bool-cases (a w.task)) [
  | inl up ↦
      let r = __wake_up_common (w ∷ ws) (pos 1) a in
      let stays = woken-OnlyWakes w ws (pos 1) a up in
      let here = stays w.task in
      let rest = awake-le ws stays in
      let first = awake-le ws (set_asleep-OnlyWakes a w.task) in inr (ground arith)
  | inr was ↦
      let rest = wakes_one ws a in
      let more = __wake_up_common-OnlyWakes ws (pos 1) a w.task in
      let same = passed_over w ws (pos 1) a was in rw same (ground arith)
]

lower : (nr : ℤ) → pos_part nr ≡ 0 → pos_part (nr -ℤ pos 1) ≡ 0
unfolding ◌-ℤ◌
lower (pos k) h = ground arith
lower (negsuc k) h = ground arith

not_zero : (nr : ℤ) → pos_part nr ≡ 0 → eqb_ℤ (nr -ℤ pos 1) (pos 0) ≡ false
unfolding ◌-ℤ◌
not_zero (pos k) h = ground arith
not_zero (negsuc k) h = ground arith

wakes_rest :
    (w : Waiter) (ws : List Waiter) (nr : ℤ) (a : ℕ → Bool)
    → pos_part nr ≡ 0
    → a w.task ≡ true
    → sleeping ws (__wake_up_common ws (nr -ℤ pos 1) (set_asleep a w.task false)) ≡ 0
    → sleeping ws (__wake_up_common ws nr (set_asleep a w.task false)) ≡ 0
    → sleeping ws (__wake_up_common (w ∷ ws) nr a) ≡ 0
unfolding __wake_up_common
wakes_rest w ws nr a h up counted go_on =
    rw (up, not_zero nr h)
      (if_cases (λ (r : ℕ → Bool). sleeping ws r ≡ 0) w.exclusive (λ _. counted) (λ _. go_on))

-- A wake-up of all, whose count never comes to 0.
pub wakes_all :
    (ws : List Waiter) (nr : ℤ) (a : ℕ → Bool)
    → pos_part nr ≡ 0
    → sleeping ws (__wake_up_common ws nr a) ≡ 0
unfolding __wake_up_common
wakes_all [] nr a h = refl
wakes_all (w ∷ ws) nr a h =
    let woken = set_asleep a w.task false in
    let counted = wakes_all ws (nr -ℤ pos 1) woken (lower nr h) in
    let go_on = wakes_all ws nr woken h in
    let rest = wakes_all ws nr a h in
    elim (Bool-cases (a w.task)) [
      | inl up ↦
          let here = woken-OnlyWakes w ws nr a up w.task in
          let behind = wakes_rest w ws nr a h up counted go_on in
          none_left (__wake_up_common (w ∷ ws) nr a) here behind
      | inr was ↦
          let here = __wake_up_common-OnlyWakes ws nr a w.task in
          rw (passed_over w ws nr a was) (ground arith)
    ]
  where
    none_left :
        (r : ℕ → Bool)
        → (r w.task ≡ true → set_asleep a w.task false w.task ≡ true)
        → sleeping ws r ≡ 0
        → sleeping (w ∷ ws) r ≡ 0
    none_left r h k = ground arith
