-- ===== src/Core/Bandwidth/Schedulable.antt =====
-- Which trees of groups tg_set_rt_bandwidth and sched_rt_global_constraints accept.
use linux_kernel.Prelude.{
  ℕ, ◌≤◌, ◌≡◌, ◌≢◌, ◌⊎◌, inl, inr, refl, ap, sym, ◌∙◌, false, none, arith, if◌then◌else◌, ◌==◌,
  Bool-cases,
}
use linux_kernel.Prelude.Words.{add32}
use linux_kernel.Prelude.Int.{ℤ, pos, eqb_ℤ, eq_of_eqb_ℤ}
use linux_kernel.Core.Bandwidth.{
  Node, Group, Groups, node, System, runtime_inf, global_rt_period, global_rt_runtime,
  rt_bandwidth_enabled, to_ratio, tg_has_rt_tasks, RtSchedulableData, children_sum,
  tg_rt_schedulable, or_else, walk_tg_tree_from, walk_children, tg_nop,
}

-- The share of the processor that a group asks for, in 2^-20.
abbrev pub ratio : Node → ℕ
ratio n = to_ratio n.rt_period n.rt_runtime

-- The sum that the code computes, wrap included.
unfoldable pub ratios : Groups → ℕ → ℕ
ratios Groups.nil sum = sum
ratios (Groups.cons c cs) sum = ratios cs (add32 sum (ratio (node c)))

-- What one group has to satisfy.
pub record Fits (e : System) (n : Node) (cs : Groups) : Type 0 where
  pub within_period : (n.rt_runtime ≤ n.rt_period) ⊎ (n.rt_runtime ≡ runtime_inf)
  pub not_starved :
      (rt_bandwidth_enabled e ≡ false)
      ⊎ ((n.rt_runtime ≢ 0) ⊎ (tg_has_rt_tasks e.threads e.rq_tg n.tg ≡ false))
  pub within_global : ratio n ≤ to_ratio (global_rt_period e) (global_rt_runtime e)
  pub holds_children : ratios cs 0 ≤ ratio n

mutual
  pub data AllFit (e : System) : Group → Type 0 where
    group : {n : Node} {cs : Groups} → Fits e n cs → EachFits e cs → AllFit e (Group.group n cs)

  pub data EachFits (e : System) : Groups → Type 0 where
    nil : EachFits e Groups.nil
    cons : {c : Group} {cs : Groups} → AllFit e c → EachFits e cs → EachFits e (Groups.cons c cs)

abbrev pub no_target : RtSchedulableData
no_target = record { tg = none; rt_period = 0; rt_runtime = 0 }

-- The check of one group, with nothing replaced.
abbrev pub check : System → Group → ℤ
check e g = tg_rt_schedulable e no_target g

pub children_sum-ratios : (cs : Groups) (sum : ℕ) → children_sum no_target cs sum ≡ ratios cs sum
unfolding children_sum ratios
children_sum-ratios Groups.nil sum = refl
children_sum-ratios (Groups.cons c cs) sum = children_sum-ratios cs (add32 sum (ratio (node c)))

not_starved_of :
    (e : System) (n : Node) (cs : Groups)
    → check e (Group.group n cs) ≡ pos 0
    → (rt_bandwidth_enabled e ≡ false)
      ⊎ ((n.rt_runtime ≢ 0) ⊎ (tg_has_rt_tasks e.threads e.rq_tg n.tg ≡ false))
unfolding tg_rt_schedulable
not_starved_of e n cs h = elim (Bool-cases (rt_bandwidth_enabled e)) [
  | inr off ↦ inl off
  | inl on ↦ elim (Bool-cases (n.rt_runtime == 0)) [
    | inr some_runtime ↦ inr (inl (λ z. ground arith))
    | inl zero_runtime ↦ inr (inr (ground arith))
  ]
]

check-Fits :
    (e : System) (n : Node) (cs : Groups) → check e (Group.group n cs) ≡ pos 0 → Fits e n cs
unfolding tg_rt_schedulable
check-Fits e n cs h =
    let sums = children_sum-ratios cs 0 in
    record {
      within_period = ground arith;
      not_starved = not_starved_of e n cs h;
      within_global = ground arith;
      holds_children = ground arith;
    }

Fits-check :
    (e : System) (n : Node) (cs : Groups) → Fits e n cs → check e (Group.group n cs) ≡ pos 0
unfolding tg_rt_schedulable
Fits-check e n cs h =
    let sums = children_sum-ratios cs 0 in
    let a = h.within_period in
    let b = h.not_starved in let c = h.within_global in let d = h.holds_children in ground arith

or_else_zero : (a b : ℤ) → a ≡ pos 0 → b ≡ pos 0 → or_else a b ≡ pos 0
or_else_zero a b h k = rw h k

zero_left : (a b : ℤ) → or_else a b ≡ pos 0 → a ≡ pos 0
zero_left a b h = elim (Bool-cases (eqb_ℤ a (pos 0))) [
  | inl e ↦ eq_of_eqb_ℤ a (pos 0) e
  | inr e ↦ sym (ap (λ c. if c then b else a) e) ∙ h
]

zero_right : (a b : ℤ) → or_else a b ≡ pos 0 → b ≡ pos 0
zero_right a b h = sym (ap (λ m. or_else m b) (zero_left a b h)) ∙ h

abbrev pub walk : System → Group → ℤ
walk e g = walk_tg_tree_from (check e) tg_nop g

abbrev pub walk_each : System → Groups → ℤ
walk_each e cs = walk_children (check e) tg_nop cs

mutual
  unfolding walk_tg_tree_from

  pub walk-AllFit : (e : System) (g : Group) → walk e g ≡ pos 0 → AllFit e g
  walk-AllFit e (Group.group n cs) h =
      let here = zero_left (check e (Group.group n cs)) (or_else (walk_each e cs) (pos 0)) h in
      let below = zero_right (check e (Group.group n cs)) (or_else (walk_each e cs) (pos 0)) h in
      AllFit.group (check-Fits e n cs here)
        (walk_each-EachFits e cs (zero_left (walk_each e cs) (pos 0) below))

  walk_each-EachFits : (e : System) (cs : Groups) → walk_each e cs ≡ pos 0 → EachFits e cs
  walk_each-EachFits e Groups.nil h = EachFits.nil
  walk_each-EachFits e (Groups.cons c cs) h =
      EachFits.cons (walk-AllFit e c (zero_left (walk e c) (walk_each e cs) h))
        (walk_each-EachFits e cs (zero_right (walk e c) (walk_each e cs) h))

mutual
  unfolding walk_tg_tree_from

  pub AllFit-walk : {e : System} {g : Group} → AllFit e g → walk e g ≡ pos 0
  AllFit-walk {e} (AllFit.group {n = n} {cs = cs} f fs) =
      or_else_zero (check e (Group.group n cs)) (or_else (walk_each e cs) (pos 0))
        (Fits-check e n cs f) (or_else_zero (walk_each e cs) (pos 0) (EachFits-walk_each fs) refl)

  EachFits-walk_each : {e : System} {cs : Groups} → EachFits e cs → walk_each e cs ≡ pos 0
  EachFits-walk_each EachFits.nil = refl
  EachFits-walk_each {e} (EachFits.cons {c = c} {cs = cs} f fs) =
      or_else_zero (walk e c) (walk_each e cs) (AllFit-walk f) (EachFits-walk_each fs)
