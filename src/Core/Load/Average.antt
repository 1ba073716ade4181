-- ===== src/Core/Load/Average.antt =====
-- The averages stay between the values that they average.
use native.Mathlib.Nat.{pow-succ'}
use linux_kernel.Prelude.{
  ℕ, zero, suc, ◌+◌, ◌-◌, ◌*◌, ◌/◌, ◌%◌, ◌^◌, ◌<◌, ◌≤◌, ◌≡◌, sym, ap, ◌∙◌, arith, min, max,
  if◌then◌else◌, if_cases, ◌==◌, true,
}
use linux_kernel.Prelude.Words.{sub32}
use linux_kernel.Core.Load.{
  fixed_1, fshift, calc_load, fixed_mul, power_loop, fixed_power_int, calc_load_n,
}

-- A product of a number up to `m` and a part of 2048.
part : (x e m : ℕ) → x ≤ m → x * e ≤ m * e
part x e m h = grind arith

split : (m a b : ℕ) → m * (a + b) ≡ m * a + m * b
split m a b = grind arith

weighted : (x y e m : ℕ) → x ≤ m → y ≤ m → e ≤ 2048 → x * e + y * (2048 - e) ≤ m * 2048
weighted x y e m hx hy he =
    let a = part x e m hx in
    let b = part y (2048 - e) m hy in
    let c = split m e (2048 - e) in
    let d = ap (λ (k : ℕ). m * k) (let z : e + (2048 - e) ≡ 2048 = omega arith in z) in omega arith

weighted_above : (x y e m : ℕ) → m ≤ x → m ≤ y → e ≤ 2048 → m * 2048 ≤ x * e + y * (2048 - e)
weighted_above x y e m hx hy he =
    let a = part m e x hx in
    let b = part m (2048 - e) y hy in
    let c = split m e (2048 - e) in
    let d = ap (λ (k : ℕ). m * k) (let z : e + (2048 - e) ≡ 2048 = omega arith in z) in omega arith

-- For a weight of at most 1 and values below 2^20: a step of the load average lies between the smaller and the
-- larger of the old average and the active load.
pub calc_load-between :
    (load exp active : ℕ)
    → exp ≤ fixed_1
    → load < 2 ^ 20
    → active < 2 ^ 20
    → (min load active ≤ calc_load load exp active) × (calc_load load exp active ≤ max load active)
unfolding calc_load
calc_load-between load exp active e l a =
    let up = weighted load active exp (max load active) (omega arith) (omega arith) e in
    let down = weighted_above load active exp (min load active) (omega arith) (omega arith) e in
    let w : sub32 fixed_1 exp ≡ 2048 - exp = omega arith in
    let x = part load exp (2 ^ 20) (omega arith) in
    let y = part active (2048 - exp) (2 ^ 20) (omega arith) in rw w (omega arith)

product : (x y : ℕ) → x ≤ 2048 → y ≤ 2048 → x * y ≤ 2048 * 2048
product x y a b = grind arith

fixed_mul-le : (x y : ℕ) → x ≤ fixed_1 → y ≤ fixed_1 → fixed_mul fshift x y ≤ fixed_1
fixed_mul-le x y a b = let p = product x y a b in omega arith

power_loop-le :
    (k result x n : ℕ) → result ≤ fixed_1 → x ≤ fixed_1 → power_loop k fshift result x n ≤ fixed_1
unfolding power_loop
power_loop-le zero result x n a b = a
power_loop-le (suc k) result x n a b =
    let now =
      if_cases (λ (r : ℕ). r ≤ fixed_1) (n % 2 == 1) (λ _. fixed_mul-le result x a b) (λ _. a) in
    let rest =
      power_loop-le k (if n % 2 == 1 then fixed_mul fshift result x else result)
        (fixed_mul fshift x x) (n / 2) now (fixed_mul-le x x b b) in
    if_cases (λ (r : ℕ). r ≤ fixed_1) (n / 2 == 0) (λ _. now) (λ _. rest)

-- For a weight of at most 1 and values below 2^20: catching up on any number of load cycles at once leaves the
-- average between the smaller and the larger of the old average and the active load.
pub calc_load_n-between :
    (load exp active n : ℕ)
    → exp ≤ fixed_1
    → load < 2 ^ 20
    → active < 2 ^ 20
    → (min load active ≤ calc_load_n load exp active n)
      × (calc_load_n load exp active n ≤ max load active)
unfolding calc_load_n fixed_power_int
calc_load_n-between load exp active n e l a =
    let p =
      if_cases (λ (r : ℕ). r ≤ fixed_1) (n == 0) (λ _. omega arith)
        (λ _. power_loop-le 32 fixed_1 exp n (omega arith) e) in
    calc_load-between load (fixed_power_int exp fshift n) active p l a

half_lt : (n k : ℕ) → n < 2 ^ suc (suc k) → n / 2 < 2 ^ suc k
half_lt n k h = let p = pow-succ' 2 (suc k) in omega arith

-- For a number below 2^(k+1), k + 1 rounds of the loop of fixed_power_int are enough: more change nothing. The 32
-- rounds of fixed_power_int are enough for any n of 32 bits.
pub power_loop_fuel :
    (k d bits result x n : ℕ)
    → n < 2 ^ suc k
    → power_loop (suc (k + d)) bits result x n ≡ power_loop (suc k) bits result x n
unfolding power_loop
power_loop_fuel zero d bits result x n h =
    let z : (n / 2 == 0) ≡ true = ground arith in
    let now = if n % 2 == 1 then fixed_mul bits result x else result in
    ap (λ b. if b then now else power_loop (0 + d) bits now (fixed_mul bits x x) (n / 2)) z
    ∙ sym (ap (λ b. if b then now else now) z)
power_loop_fuel (suc k) d bits result x n h =
    let now = if n % 2 == 1 then fixed_mul bits result x else result in
    let rest = power_loop_fuel k d bits now (fixed_mul bits x x) (n / 2) (half_lt n k h) in
    let same =
      ap (λ (m : ℕ). power_loop m bits now (fixed_mul bits x x) (n / 2))
        (let e : suc k + d ≡ suc (k + d) = omega arith in e) in
    ap (λ (r : ℕ). if n / 2 == 0 then now else r) (same ∙ rest)
