-- ===== src/Core/Load/Moving.antt =====
-- update_cpu_load at every tick: each average moves towards the load.
use linux_kernel.Prelude.{
  ℕ, zero, suc, ◌-◌, ◌^◌, ◌<◌, ◌≤◌, ◌≡◌, refl, ap, ◌∙◌, arith, min, max, if_cases, ◌==◌, false,
}
use linux_kernel.Prelude.Words.{u32_mod, add32, sub32}
use linux_kernel.Sched.{update}
use linux_kernel.Core.Load.{LoadState, average, decay_load_missed, loads_loop, update_cpu_load}

-- The averages of the loop, for each index with its scale.
average_moves :
    (w old i : ℕ)
    → w < 2 ^ 27
    → old < 2 ^ 27
    → (i == 0) ≡ false
    → i < 5
    → (min (suc old) w ≤ average w old i (2 ^ i)) × (average w old i (2 ^ i) ≤ max (old - 1) w)
unfolding average
average_moves w old zero a b z l = absurd (ground arith)
average_moves w old (suc zero) a b z l = ground arith
average_moves w old (suc (suc zero)) a b z l = ground arith
average_moves w old (suc (suc (suc zero))) a b z l = ground arith
average_moves w old (suc (suc (suc (suc zero)))) a b z l = ground arith
average_moves w old (suc (suc (suc (suc (suc n))))) a b z l = absurd (omega arith)

decay_none : (load i : ℕ) → decay_load_missed load 0 i ≡ load
unfolding decay_load_missed
decay_none load i = refl

looped :
    (w : ℕ) (loads : ℕ → ℕ) (i : ℕ)
    → (i == 0) ≡ false
    → i < 5
    → loads_loop 4 1 2 w 0 loads i ≡ average w (loads i) i (2 ^ i)
unfolding loads_loop decay_load_missed
looped w loads zero z l = absurd (ground arith)
looped w loads (suc zero) z l = refl
looped w loads (suc (suc zero)) z l = refl
looped w loads (suc (suc (suc zero))) z l = refl
looped w loads (suc (suc (suc (suc zero)))) z l = refl
looped w loads (suc (suc (suc (suc (suc n))))) z l = absurd (omega arith)

new_loads :
    (s : LoadState)
    → s.last_load_update_tick < u32_mod
    → s.jiffies ≡ add32 s.last_load_update_tick 1
    → (update_cpu_load s).cpu_load
      ≡ loads_loop 4 1 2 s.load_weight 0 (update s.cpu_load 0 s.load_weight)
unfolding update_cpu_load
new_loads s b j =
    let w = s.load_weight in
    let loads = update s.cpu_load 0 w in
    if_cases (λ (t : LoadState). t.cpu_load ≡ loads_loop 4 1 2 w 0 loads)
      (s.jiffies == s.last_load_update_tick) (λ y. absurd (ground arith))
      (λ _.
        ap (λ (m : ℕ). loads_loop 4 1 2 w m loads)
          (let e : sub32 (sub32 s.jiffies s.last_load_update_tick) 1 ≡ 0 = omega arith in e))

loop_keeps_0 : (w : ℕ) (loads : ℕ → ℕ) → loads_loop 4 1 2 w 0 loads 0 ≡ loads 0
unfolding loads_loop
loop_keeps_0 w loads = refl

-- When no tick was missed, for loads below 2^27: update_cpu_load moves each of the averages 1 to 4 towards the
-- load, by 1 at least, unless it is there already, and never beyond; the average 0 is the load.
pub update_cpu_load_lem :
    (s : LoadState) (i : ℕ)
    → s.last_load_update_tick < u32_mod
    → s.jiffies ≡ add32 s.last_load_update_tick 1
    → s.load_weight < 2 ^ 27
    → s.cpu_load i < 2 ^ 27
    → (i == 0) ≡ false
    → i < 5
    → ((update_cpu_load s).cpu_load 0 ≡ s.load_weight)
      × (min (suc (s.cpu_load i)) s.load_weight ≤ (update_cpu_load s).cpu_load i)
      × ((update_cpu_load s).cpu_load i ≤ max (s.cpu_load i - 1) s.load_weight)
update_cpu_load_lem s i b j w o z l =
    let new = new_loads s b j in
    let loads = update s.cpu_load 0 s.load_weight in
    let at : (update_cpu_load s).cpu_load i ≡ average s.load_weight (s.cpu_load i) i (2 ^ i) =
      ap (λ (f : ℕ → ℕ). f i) new
      ∙ looped s.load_weight loads i z l
      ∙ ap (λ (x : ℕ). average s.load_weight x i (2 ^ i)) (other i z) in
    let m = average_moves s.load_weight (s.cpu_load i) i w o z l in
    (ap (λ (f : ℕ → ℕ). f 0) new ∙ loop_keeps_0 s.load_weight loads, rw at (m.0), rw at (m.1))
  where
    other : (i : ℕ) → (i == 0) ≡ false → update s.cpu_load 0 s.load_weight i ≡ s.cpu_load i
    other i z = ground arith
