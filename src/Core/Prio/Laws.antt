-- ===== src/Core/Prio/Laws.antt =====
-- Ranges of the priorities, and what the load tables promise.
use linux_kernel.Prelude.{
  ℕ, ◌+◌, ◌*◌, ◌≤◌, ◌<◌, ◌^◌, ◌≡◌, refl, Bool, true, false, ◌&&◌, arith, if_cases, all_below,
  all_below_sound, ◌==◌, leb, get_or,
}
use linux_kernel.Prelude.Int.{ℤ, pos, ◌+ℤ◌, ◌-ℤ◌, pos_part, neg_part}
use linux_kernel.Sched.{Task, SchedEntity, max_rt_prio, sched_idle}
use linux_kernel.Core.Prio.Tables.{prio_to_weight, prio_to_wmult}
use linux_kernel.Core.Prio.{
  normal_prio, effective_prio, nice_to_prio, prio_to_nice, set_load_weight, task_has_rt_policy,
  rt_prio,
}

abbrev pub InRange : ℤ → ℕ → ℕ → Type 0
InRange a lo hi = (lo + neg_part a ≤ pos_part a) × (pos_part a ≤ hi + neg_part a)

-- NICE_TO_PRIO maps the nice values to the static priorities, and PRIO_TO_NICE maps them back.
pub prio_to_nice-nice_to_prio : (nice : ℤ) → prio_to_nice (nice_to_prio nice) ≡ nice
unfolding prio_to_nice nice_to_prio ◌+ℤ◌ ◌-ℤ◌
prio_to_nice-nice_to_prio nice = ground arith

-- With an rt_priority of at most 99, and of at least 1 under an rt policy, and a static priority
-- from 100 to 139, the normal priority lies from 0 to 139, and is an rt one (below 100) exactly
-- under an rt policy.
pub normal_prio_range :
    (t : Task)
    → t.rt_priority ≤ 99
    → InRange t.static_prio 100 139
    → InRange (normal_prio t) 0 139 × (rt_prio (normal_prio t) ≡ task_has_rt_policy t)
unfolding normal_prio ◌-ℤ◌
normal_prio_range t h s = (ground arith, ground arith)

-- effective_prio stores the normal priority, and returns it unless the task runs at an rt priority,
-- which it then keeps.
pub effective_prio_lem :
    (t : Task)
    → ((effective_prio t).0.normal_prio ≡ normal_prio t)
      × (rt_prio t.prio ≡ true → (effective_prio t).1 ≡ t.prio)
      × (rt_prio t.prio ≡ false → (effective_prio t).1 ≡ normal_prio t)
unfolding effective_prio
effective_prio_lem t = (refl, λ h. ground arith, λ h. ground arith)

abbrev pub IsInverse : ℕ → ℕ → Type 0
IsInverse w inv = (2 ^ 32 ≤ w * inv + w) × (w * inv ≤ 2 ^ 32 + w)

inverse_test : ℕ → Bool
unfolding prio_to_weight prio_to_wmult
inverse_test i =
    let w = get_or prio_to_weight i 0 in
    let v = get_or prio_to_wmult i 0 in leb (2 ^ 32) (w * v + w) && leb (w * v) (2 ^ 32 + w)

inverse_table : all_below 40 inverse_test ≡ true
unfolding all_below inverse_test
inverse_table = refl

inverse_test_sound :
    (i : ℕ)
    → inverse_test i ≡ true
    → IsInverse (get_or prio_to_weight i 0) (get_or prio_to_wmult i 0)
unfolding inverse_test
inverse_test_sound i h = ground arith

prio_index : (p : ℤ) (i : ℕ) → p ≡ pos (max_rt_prio + i) → pos_part (p -ℤ pos max_rt_prio) ≡ i
unfolding ◌-ℤ◌
prio_index p i e = ground arith

-- For every static priority from 100 to 139 and every policy, the inverse weight that
-- set_load_weight stores is 2^32 divided by the weight, to within one unit.
pub set_load_weight-IsInverse :
    (t : Task) (i : ℕ)
    → i < 40
    → t.static_prio ≡ pos (max_rt_prio + i)
    → let e = (set_load_weight t).se in IsInverse e.load_weight e.inv_weight
unfolding set_load_weight
set_load_weight-IsInverse t i h e =
    let at : pos_part (t.static_prio -ℤ pos max_rt_prio) ≡ i = prio_index t.static_prio i e in
    if_cases (λ (s : SchedEntity). IsInverse s.load_weight s.inv_weight) (t.policy == sched_idle)
      (λ _. omega arith)
      (λ _. rw at (inverse_test_sound i (all_below_sound 40 inverse_test i inverse_table h)))
