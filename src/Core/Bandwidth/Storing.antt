-- ===== src/Core/Bandwidth/Storing.antt =====
-- What tg_set_rt_bandwidth checks is the tree that it would store.
use linux_kernel.Prelude.{
  ℕ, suc, ◌≡◌, ◌≢◌, ◌⊎◌, inl, inr, refl, ap, sym, ◌∙◌, ◌&&◌, not, some, arith, if◌then◌else◌,
  if_cases, ltb, ◌==◌,
}
use linux_kernel.Prelude.Words.{add32}
use linux_kernel.Prelude.Int.{ℤ, pos, eqb_ℤ, neg_part}
use linux_kernel.Prelude.Errno.{einval, ebusy}
use linux_kernel.Core.Bandwidth.{
  Group, Groups, node, System, runtime_inf, global_rt_period, global_rt_runtime,
  rt_bandwidth_enabled, to_ratio, tg_has_rt_tasks, RtSchedulableData, period_of, runtime_of,
  children_sum, tg_rt_schedulable, or_else, walk_tg_tree_from, walk_children, tg_nop,
  __rt_schedulable, set_bandwidth, set_children, tg_set_rt_bandwidth,
}
use linux_kernel.Core.Bandwidth.Schedulable.{
  ratio, ratios, AllFit, no_target, check, children_sum-ratios, walk, walk_each, walk-AllFit,
  AllFit-walk,
}

module _ (e : System) (tg period runtime : ℕ) where
  abbrev replaced : RtSchedulableData
  replaced = record { tg = some tg; rt_period = period; rt_runtime = runtime }

  replaced-ratio :
      (g : Group)
      → to_ratio (period_of replaced (node g)) (runtime_of replaced (node g))
        ≡ ratio (node (set_bandwidth tg period runtime g))
  unfolding set_bandwidth
  replaced-ratio (Group.group n cs) = ground arith

  children_sum-set :
      (cs : Groups) (sum : ℕ)
      → children_sum replaced cs sum ≡ ratios (set_children tg period runtime cs) sum
  unfolding children_sum ratios set_bandwidth
  children_sum-set Groups.nil sum = refl
  children_sum-set (Groups.cons c cs) sum =
      ap (λ r. children_sum replaced cs (add32 sum r)) (replaced-ratio c)
      ∙ children_sum-set cs (add32 sum (ratio (node (set_bandwidth tg period runtime c))))

  replaced-check :
      (g : Group) → tg_rt_schedulable e replaced g ≡ check e (set_bandwidth tg period runtime g)
  unfolding tg_rt_schedulable set_bandwidth
  replaced-check (Group.group n cs) =
      let sums =
        children_sum-set cs 0 ∙ sym (children_sum-ratios (set_children tg period runtime cs) 0) in
      ground arith

  mutual
    unfolding walk_tg_tree_from set_bandwidth

    replaced-walk :
        (g : Group)
        → walk_tg_tree_from (tg_rt_schedulable e replaced) tg_nop g
          ≡ walk e (set_bandwidth tg period runtime g)
    replaced-walk (Group.group n cs) =
        let here = replaced-check (Group.group n cs) in
        let below = replaced-walk_each cs in
        ap
          (λ r.
            or_else r (or_else (walk_children (tg_rt_schedulable e replaced) tg_nop cs) (pos 0)))
          here
        ∙ ap
            (λ r.
              or_else (check e (set_bandwidth tg period runtime (Group.group n cs)))
                (or_else r (pos 0)))
            below

    replaced-walk_each :
        (cs : Groups)
        → walk_children (tg_rt_schedulable e replaced) tg_nop cs
          ≡ walk_each e (set_children tg period runtime cs)
    replaced-walk_each Groups.nil = refl
    replaced-walk_each (Groups.cons c cs) =
        ap (λ r. or_else r (walk_children (tg_rt_schedulable e replaced) tg_nop cs))
          (replaced-walk c)
        ∙ ap (λ r. or_else (walk e (set_bandwidth tg period runtime c)) r) (replaced-walk_each cs)

-- The results of the walk.
pub data IsVerdict : ℤ → Type 0 where
  fine : IsVerdict (pos 0)
  invalid : IsVerdict einval
  busy : IsVerdict ebusy

or_else-IsVerdict : (a b : ℤ) → IsVerdict a → IsVerdict b → IsVerdict (or_else a b)
or_else-IsVerdict a b h k = if_cases IsVerdict (eqb_ℤ a (pos 0)) (λ _. k) (λ _. h)

check-IsVerdict : (e : System) (g : Group) → IsVerdict (check e g)
unfolding tg_rt_schedulable
check-IsVerdict e (Group.group n cs) =
    if_cases IsVerdict (ltb n.rt_period n.rt_runtime && not (n.rt_runtime == runtime_inf))
      (λ _. IsVerdict.invalid)
      (λ _.
        if_cases IsVerdict
          (rt_bandwidth_enabled e && n.rt_runtime == 0 && tg_has_rt_tasks e.threads e.rq_tg n.tg)
          (λ _. IsVerdict.busy)
          (λ _.
            if_cases IsVerdict (ltb (to_ratio (global_rt_period e) (global_rt_runtime e)) (ratio n))
              (λ _. IsVerdict.invalid)
              (λ _.
                if_cases IsVerdict (ltb (ratio n) (children_sum no_target cs 0))
                  (λ _. IsVerdict.invalid) (λ _. IsVerdict.fine))))

mutual
  unfolding walk_tg_tree_from

  pub walk-IsVerdict : (e : System) (g : Group) → IsVerdict (walk e g)
  walk-IsVerdict e (Group.group n cs) =
      or_else-IsVerdict (check e (Group.group n cs)) (or_else (walk_each e cs) (pos 0))
        (check-IsVerdict e (Group.group n cs))
        (or_else-IsVerdict (walk_each e cs) (pos 0) (walk_each-IsVerdict e cs) IsVerdict.fine)

  walk_each-IsVerdict : (e : System) (cs : Groups) → IsVerdict (walk_each e cs)
  walk_each-IsVerdict e Groups.nil = IsVerdict.fine
  walk_each-IsVerdict e (Groups.cons c cs) =
      or_else-IsVerdict (walk e c) (walk_each e cs) (walk-IsVerdict e c) (walk_each-IsVerdict e cs)

-- tg_set_rt_bandwidth either stores the period and the runtime and returns 0, and then every group of
-- the tree fits; or not every group would fit, and it returns -EINVAL or -EBUSY and leaves the tree.
-- A group fits if its runtime is at most its period or unlimited, is not 0 while bandwidth is enabled
-- and tg_has_rt_tasks finds a task, its share is at most the global one, and the 32-bit sum of its
-- children's shares is at most its share.
pub tg_set_rt_bandwidth_lem :
    (e : System) (tg period runtime : ℕ) (root : Group)
    → let after = set_bandwidth tg period runtime root in
      (AllFit e after × (tg_set_rt_bandwidth e tg period runtime root ≡ (after, pos 0)))
      ⊎ ((¬ AllFit e after)
          × ((tg_set_rt_bandwidth e tg period runtime root ≡ (root, einval))
              ⊎ (tg_set_rt_bandwidth e tg period runtime root ≡ (root, ebusy))))
unfolding tg_set_rt_bandwidth __rt_schedulable
tg_set_rt_bandwidth_lem e tg period runtime root = decide (walk-IsVerdict e after) refl
  where
    after : Group
    after = set_bandwidth tg period runtime root

    fail : {r : ℤ} → walk e after ≡ r → pos 0 ≢ r → ¬ AllFit e after
    fail h ne f = ne (sym (AllFit-walk f) ∙ h)

    zero_apart : {n : ℕ} → 0 ≢ suc n
    zero_apart h = omega arith

    store : ℤ → Group × ℤ
    store err = if eqb_ℤ err (pos 0) then (after, err) else (root, err)

    decide :
        {r : ℤ}
        → IsVerdict r
        → walk e after ≡ r
        → (AllFit e after
            × (store (__rt_schedulable e (replaced e tg period runtime) root) ≡ (after, pos 0)))
          ⊎ ((¬ AllFit e after)
              × ((store (__rt_schedulable e (replaced e tg period runtime) root) ≡ (root, einval))
                  ⊎ (store (__rt_schedulable e (replaced e tg period runtime) root)
                      ≡ (root, ebusy))))
    decide IsVerdict.fine h =
        inl (walk-AllFit e after h, ap store (replaced-walk e tg period runtime root ∙ h))
    decide IsVerdict.invalid h = inr (
      fail h (λ k. zero_apart (ap neg_part k)),
      inl (ap store (replaced-walk e tg period runtime root ∙ h)),
    )
    decide IsVerdict.busy h = inr (
      fail h (λ k. zero_apart (ap neg_part k)),
      inr (ap store (replaced-walk e tg period runtime root ∙ h)),
    )
