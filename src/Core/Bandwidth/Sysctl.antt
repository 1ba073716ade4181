-- ===== src/Core/Bandwidth/Sysctl.antt =====
-- A write of sysctl_sched_rt_period or sysctl_sched_rt_runtime.
use linux_kernel.Prelude.{
  ℕ, ◌≤◌, ◌≡◌, ◌≢◌, ◌⊎◌, inl, inr, refl, ap, sym, ◌∙◌, suc, true, ◌&&◌, not, arith, if◌then◌else◌,
  if_cases, ltb, ◌==◌,
}
use linux_kernel.Prelude.Int.{ℤ, pos, neg_part, eqb_ℤ}
use linux_kernel.Prelude.Errno.{einval, ebusy}
use linux_kernel.Core.Bandwidth.{
  Group, System, Defaults, runtime_inf, global_rt_period, global_rt_runtime, __rt_schedulable,
  sched_rt_global_constraints, sched_rt_handler,
}
use linux_kernel.Core.Bandwidth.Schedulable.{AllFit, walk-AllFit, AllFit-walk}
use linux_kernel.Core.Bandwidth.Storing.{IsVerdict, walk-IsVerdict}

-- The settings can be kept to.
pub record GlobalFits (e : System) (root : Group) : Type 0 where
  pub has_period : e.sysctl_sched_rt_period ≢ 0
  pub within_period :
      (global_rt_runtime e ≤ global_rt_period e) ⊎ (global_rt_runtime e ≡ runtime_inf)
  pub groups : AllFit e root

sched_rt_global_constraints-IsVerdict :
    (e : System) (root : Group) → IsVerdict (sched_rt_global_constraints e root)
unfolding sched_rt_global_constraints __rt_schedulable
sched_rt_global_constraints-IsVerdict e root =
    if_cases IsVerdict (e.sysctl_sched_rt_period == 0) (λ _. IsVerdict.invalid)
      (λ _.
        if_cases IsVerdict
          (ltb (global_rt_period e) (global_rt_runtime e)
            && not (global_rt_runtime e == runtime_inf))
          (λ _. IsVerdict.invalid) (λ _. walk-IsVerdict e root))

sched_rt_global_constraints-GlobalFits :
    (e : System) (root : Group) → sched_rt_global_constraints e root ≡ pos 0 → GlobalFits e root
unfolding sched_rt_global_constraints __rt_schedulable
sched_rt_global_constraints-GlobalFits e root h = record {
  has_period = λ z. ground arith;
  within_period = ground arith;
  groups = walk-AllFit e root (ground arith);
}

GlobalFits-sched_rt_global_constraints :
    (e : System) (root : Group) → GlobalFits e root → sched_rt_global_constraints e root ≡ pos 0
unfolding sched_rt_global_constraints __rt_schedulable
GlobalFits-sched_rt_global_constraints e root f =
    let a = f.has_period in let b = f.within_period in let c = AllFit-walk f.groups in ground arith

abbrev pub restored : System → System → System
restored old e = record e {
  sysctl_sched_rt_period = old.sysctl_sched_rt_period;
  sysctl_sched_rt_runtime = old.sysctl_sched_rt_runtime;
}

-- A write that proc_dointvec takes: either the period is not 0, the runtime is at most the period or
-- unlimited and all groups fit, and then the values stay, become those of def_rt_bandwidth, and 0 is
-- returned; or this does not hold, the values of before are restored, def_rt_bandwidth is kept, and
-- -EINVAL or -EBUSY is returned.
pub sched_rt_handler_lem :
    (e old : System) (defaults : Defaults) (root : Group)
    → let out = sched_rt_handler true (e, pos 0) old defaults root in
      (GlobalFits e root
        × (out ≡ (
          e,
          record { def_runtime = global_rt_runtime e; def_period = global_rt_period e },
          pos 0,
        )))
      ⊎ ((¬ GlobalFits e root)
          × ((out ≡ (restored old e, defaults, einval))
              ⊎ (out ≡ (restored old e, defaults, ebusy))))
unfolding sched_rt_handler
sched_rt_handler_lem e old defaults root =
    decide (sched_rt_global_constraints-IsVerdict e root) refl
  where
    finish : ℤ → System × Defaults × ℤ
    finish err =
        if eqb_ℤ err (pos 0)
        then (e, record { def_runtime = global_rt_runtime e; def_period = global_rt_period e }, err)
        else (restored old e, defaults, err)

    zero_apart : {n : ℕ} → 0 ≢ suc n
    zero_apart h = omega arith

    fail : {r : ℤ} → sched_rt_global_constraints e root ≡ r → pos 0 ≢ r → ¬ GlobalFits e root
    fail h ne f = ne (sym (GlobalFits-sched_rt_global_constraints e root f) ∙ h)

    decide :
        {r : ℤ}
        → IsVerdict r
        → sched_rt_global_constraints e root ≡ r
        → let out = finish (sched_rt_global_constraints e root) in
          (GlobalFits e root
            × (out ≡ (
              e,
              record { def_runtime = global_rt_runtime e; def_period = global_rt_period e },
              pos 0,
            )))
          ⊎ ((¬ GlobalFits e root)
              × ((out ≡ (restored old e, defaults, einval))
                  ⊎ (out ≡ (restored old e, defaults, ebusy))))
    decide IsVerdict.fine h = inl (sched_rt_global_constraints-GlobalFits e root h, ap finish h)
    decide IsVerdict.invalid h = inr (fail h (λ k. zero_apart (ap neg_part k)), inl (ap finish h))
    decide IsVerdict.busy h = inr (fail h (λ k. zero_apart (ap neg_part k)), inr (ap finish h))
