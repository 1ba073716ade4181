-- ===== src/Core/Load.antt =====
-- sched/core.c: the load averages of the system and of the processor, with CONFIG_NO_HZ and one
-- processor. A `long` is its pattern of 32 bits; messages and barriers are left out.
pub mod Average
pub mod Moving
pub mod Folding
mod Tests
use linux_kernel.Prelude.{
  ℕ, zero, suc, ◌+◌, ◌-◌, ◌*◌, ◌/◌, ◌%◌, ◌^◌, Bool, true, false, ◌&&◌, ◌||◌, not, List, [], ◌∷◌,
  get_or, if◌then◌else◌, ◌==◌, ltb, leb,
}
use linux_kernel.Prelude.Words.{add32, sub32, u32_mod}
use linux_kernel.Sched.{update}

abbrev pub fshift : ℕ
fshift = 11

abbrev pub fixed_1 : ℕ
fixed_1 = 2048

abbrev pub exp_1 : ℕ
exp_1 = 1884

abbrev pub exp_5 : ℕ
exp_5 = 2014

abbrev pub exp_15 : ℕ
exp_15 = 2037

-- The variables of the load averages, and the fields of rq that they use. `hz` is HZ.
pub record LoadState : Type 0 where
  pub hz : ℕ
  pub jiffies : ℕ
  pub calc_load_tasks : ℕ
  pub calc_load_update : ℕ
  pub avenrun : ℕ → ℕ
  pub calc_load_idle : ℕ → ℕ
  pub calc_load_idx : ℕ
  pub nr_running : ℕ
  pub nr_uninterruptible : ℕ
  pub calc_load_active : ℕ
  pub rq_calc_load_update : ℕ
  pub load_weight : ℕ
  pub nr_load_updates : ℕ
  pub last_load_update_tick : ℕ
  pub cpu_load : ℕ → ℕ

abbrev pub load_freq : LoadState → ℕ
load_freq s = 5 * s.hz + 1

-- time_before(a, b): the difference, as a signed number, is negative.
abbrev pub time_before : ℕ → ℕ → Bool
time_before a b = leb (2 ^ 31) (sub32 a b)

abbrev pub is_positive : ℕ → Bool
is_positive w = ltb 0 w && ltb w (2 ^ 31)

pub get_avenrun : LoadState → (offset shift : ℕ) → ℕ → ℕ
get_avenrun s offset shift i = add32 (s.avenrun i) offset * 2 ^ shift % u32_mod

-- The new state, and the difference.
unfoldable pub calc_load_fold_active : LoadState → LoadState × ℕ
calc_load_fold_active s =
    let nr_active = add32 s.nr_running s.nr_uninterruptible in
    if nr_active == s.calc_load_active
    then (s, 0)
    else (record s { calc_load_active = nr_active }, sub32 nr_active s.calc_load_active)

unfoldable pub calc_load : (load exp active : ℕ) → ℕ
calc_load load exp active =
    ((load * exp % u32_mod + active * sub32 fixed_1 exp % u32_mod) % u32_mod + 2 ^ 10)
    % u32_mod
    / 2 ^ fshift

unfoldable pub calc_load_write_idx : LoadState → ℕ
calc_load_write_idx s =
    if time_before s.jiffies s.calc_load_update
    then s.calc_load_idx % 2
    else (s.calc_load_idx + 1) % 2

abbrev pub calc_load_read_idx : LoadState → ℕ
calc_load_read_idx s = s.calc_load_idx % 2

unfoldable pub calc_load_enter_idle : LoadState → LoadState
calc_load_enter_idle s =
    let (t, delta) = calc_load_fold_active s in
    let idx = calc_load_write_idx t in
    if delta == 0 then t else record t {
      calc_load_idle = update t.calc_load_idle idx (add32 (t.calc_load_idle idx) delta);
    }

unfoldable pub calc_load_exit_idle : LoadState → LoadState
calc_load_exit_idle s =
    if time_before s.jiffies s.rq_calc_load_update
    then s
    else if time_before s.jiffies (add32 s.calc_load_update 10)
    then record s { rq_calc_load_update = add32 s.calc_load_update (load_freq s) }
    else record s { rq_calc_load_update = s.calc_load_update }

unfoldable pub calc_load_fold_idle : LoadState → LoadState × ℕ
calc_load_fold_idle s =
    let idx = calc_load_read_idx s in
    let delta = s.calc_load_idle idx in
    if delta == 0
    then (s, 0)
    else (record s { calc_load_idle = update s.calc_load_idle idx 0 }, delta)

-- result or x times y, rounded, with `bits` bits after the point.
abbrev pub fixed_mul : (bits : ℕ) → ℕ → ℕ → ℕ
fixed_mul bits x y = (x * y % u32_mod + 2 ^ bits / 2) % u32_mod / 2 ^ bits

-- The loop of fixed_power_int, for n that is not 0, with fuel.
unfoldable pub power_loop : ℕ → (bits result x n : ℕ) → ℕ
power_loop zero bits result x n = result
power_loop (suc k) bits result x n =
    let now = if n % 2 == 1 then fixed_mul bits result x else result in
    let rest = power_loop k bits now (fixed_mul bits x x) (n / 2) in
    if n / 2 == 0 then now else rest

unfoldable pub fixed_power_int : (x frac_bits n : ℕ) → ℕ
fixed_power_int x frac_bits n =
    if n == 0 then 2 ^ frac_bits else power_loop 32 frac_bits (2 ^ frac_bits) x n

unfoldable pub calc_load_n : (load exp active n : ℕ) → ℕ
calc_load_n load exp active n = calc_load load (fixed_power_int exp fshift n) active

-- atomic_long_read(&calc_load_tasks), as a fixed-point number that is not negative.
abbrev pub active_load : LoadState → ℕ
active_load s = if is_positive s.calc_load_tasks then s.calc_load_tasks * fixed_1 % u32_mod else 0

abbrev pub next_averages : (ℕ → ℕ) → (by : ℕ → ℕ → ℕ) → ℕ → ℕ
next_averages avenrun by i =
    if i == 0
    then by (avenrun 0) exp_1
    else if i == 1
    then by (avenrun 1) exp_5
    else if i == 2
    then by (avenrun 2) exp_15
    else avenrun i

-- `delta` is a `long`: it is not negative here, since jiffies are not before the update.
unfoldable pub calc_global_nohz : LoadState → LoadState
calc_global_nohz s =
    let n = 1 + sub32 s.jiffies (add32 s.calc_load_update 10) / load_freq s in
    let caught = record s {
      avenrun = next_averages s.avenrun (λ load e. calc_load_n load e (active_load s) n);
      calc_load_update = add32 s.calc_load_update (n * load_freq s);
    } in
    if time_before s.jiffies (add32 s.calc_load_update 10)
    then record s { calc_load_idx = s.calc_load_idx + 1 }
    else record caught { calc_load_idx = s.calc_load_idx + 1 }

unfoldable pub calc_global_load : LoadState → LoadState
calc_global_load s =
    let (t, delta) = calc_load_fold_idle s in
    let folded = record t { calc_load_tasks = add32 t.calc_load_tasks delta } in
    let averaged = record folded {
      avenrun = next_averages folded.avenrun (λ load e. calc_load load e (active_load folded));
      calc_load_update = add32 folded.calc_load_update (load_freq folded);
    } in
    if time_before s.jiffies (add32 s.calc_load_update 10) then s else calc_global_nohz averaged

unfoldable pub calc_load_account_active : LoadState → LoadState
calc_load_account_active s =
    let (t, delta) = calc_load_fold_active s in
    if time_before s.jiffies s.rq_calc_load_update then s else record t {
      calc_load_tasks = add32 t.calc_load_tasks delta;
      rq_calc_load_update = add32 t.rq_calc_load_update (load_freq t);
    }

abbrev pub degrade_zero_ticks : List ℕ
degrade_zero_ticks = 0 ∷ 8 ∷ 32 ∷ 64 ∷ 128 ∷ []

-- The columns that the source leaves out are 0.
abbrev pub degrade_factor : List (List ℕ)
degrade_factor =
    (0 ∷ 0 ∷ 0 ∷ 0 ∷ 0 ∷ 0 ∷ 0 ∷ 0 ∷ [])
    ∷ (64 ∷ 32 ∷ 8 ∷ 0 ∷ 0 ∷ 0 ∷ 0 ∷ 0 ∷ [])
    ∷ (96 ∷ 72 ∷ 40 ∷ 12 ∷ 1 ∷ 0 ∷ 0 ∷ 0 ∷ [])
    ∷ (112 ∷ 98 ∷ 75 ∷ 43 ∷ 15 ∷ 1 ∷ 0 ∷ 0 ∷ [])
    ∷ (120 ∷ 112 ∷ 98 ∷ 76 ∷ 45 ∷ 16 ∷ 2 ∷ 0 ∷ [])
    ∷ []

-- The loop of decay_load_missed, over the columns of the row.
unfoldable pub decay_loop : (row : List ℕ) → (load missed : ℕ) → ℕ
decay_loop [] load missed = load
decay_loop (f ∷ row) load missed =
    let next = if missed % 2 == 0 then load else load * f % u32_mod / 2 ^ 7 in
    let rest = decay_loop row next (missed / 2) in if missed == 0 then load else rest

unfoldable pub decay_load_missed : (load missed_updates idx : ℕ) → ℕ
decay_load_missed load missed idx =
    if missed == 0
    then load
    else if leb (get_or degrade_zero_ticks idx 0) missed
    then 0
    else if idx == 1
    then load / 2 ^ missed
    else decay_loop (get_or degrade_factor idx []) load missed

-- The new cpu_load[i], for scale 1 << i.
unfoldable pub average : (this_load old_load i scale : ℕ) → ℕ
average this_load old_load i scale =
    let new_load =
      if ltb old_load this_load then add32 this_load (scale + u32_mod - 1) else this_load in
    add32 (old_load * (scale + u32_mod - 1) % u32_mod) new_load / 2 ^ i

-- The loop of update_cpu_load, from i on, for n more averages.
unfoldable pub loads_loop : ℕ → (i scale this_load missed : ℕ) → (ℕ → ℕ) → ℕ → ℕ
loads_loop zero i scale this_load missed loads = loads
loads_loop (suc n) i scale this_load missed loads =
    loads_loop n (suc i) (scale + scale) this_load missed
      (update loads i (average this_load (decay_load_missed (loads i) missed i) i scale))

unfoldable pub update_cpu_load : LoadState → LoadState
update_cpu_load s =
    let pending = sub32 s.jiffies s.last_load_update_tick in
    let counted = record s { nr_load_updates = add32 s.nr_load_updates 1 } in
    if s.jiffies == s.last_load_update_tick then counted else record counted {
      last_load_update_tick = s.jiffies;
      cpu_load =
          loads_loop 4 1 2 s.load_weight (sub32 pending 1) (update s.cpu_load 0 s.load_weight);
    }

abbrev pub update_cpu_load_active : LoadState → LoadState
update_cpu_load_active s = calc_load_account_active (update_cpu_load s)
