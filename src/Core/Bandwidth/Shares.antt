-- ===== src/Core/Bandwidth/Shares.antt =====
-- What an accepted tree promises: the groups' shares of the processor together.
use linux_kernel.Prelude.{
  ℕ, suc, zero, ◌+◌, ◌*◌, ◌/◌, ◌%◌, ◌^◌, ◌≤◌, ◌<◌, ◌≡◌, ◌≢◌, ◌⊎◌, inl, inr, ap, sym, ◌∙◌, arith,
  false, if_cases, ◌==◌,
}
use linux_kernel.Prelude.Words.{add32, u32_mod, u64_mod}
use linux_kernel.Prelude.Int.{ℤ, pos, neg_part}
use linux_kernel.Core.Bandwidth.Storing.{tg_set_rt_bandwidth_lem}
use linux_kernel.Core.Bandwidth.{
  Node, Group, Groups, node, System, runtime_inf, global_rt_period, global_rt_runtime, to_ratio,
  set_bandwidth, tg_set_rt_bandwidth,
}
use linux_kernel.Core.Bandwidth.Schedulable.{ratio, ratios, AllFit, EachFits}
use native.Mathlib.Nat.{div-le_of_le-mul}

unfoldable mutual
  -- The groups with no children, and their shares together.
  pub leaf_shares : Group → ℕ
  leaf_shares (Group.group n Groups.nil) = ratio n
  leaf_shares (Group.group n (Groups.cons c cs)) = leaf_shares c + leaf_shares_each cs

  pub leaf_shares_each : Groups → ℕ
  leaf_shares_each Groups.nil = 0
  leaf_shares_each (Groups.cons c cs) = leaf_shares c + leaf_shares_each cs

abbrev pub count : Groups → ℕ
count Groups.nil = 0
count (Groups.cons c cs) = suc (count cs)

-- No group has 2^12 children.
mutual
  pub data Narrow : Group → Type 0 where
    group : {n : Node} {cs : Groups} → count cs < 4096 → EachNarrow cs → Narrow (Group.group n cs)

  pub data EachNarrow : Groups → Type 0 where
    nil : EachNarrow Groups.nil
    cons : {c : Group} {cs : Groups} → Narrow c → EachNarrow cs → EachNarrow (Groups.cons c cs)

to_ratio-le :
    (period runtime : ℕ)
    → (runtime ≤ period) ⊎ (runtime ≡ runtime_inf)
    → to_ratio period runtime ≤ 2 ^ 20
unfolding to_ratio
to_ratio-le period runtime h =
    if_cases (λ m. m ≤ 2 ^ 20) (runtime == runtime_inf) (λ _. omega arith)
      (λ ne. bounded (within h ne))
  where
    within :
        (runtime ≤ period) ⊎ (runtime ≡ runtime_inf)
        → (runtime == runtime_inf) ≡ false
        → runtime ≤ period
    within h ne = ground arith

    bounded : runtime ≤ period → (runtime * 2 ^ 20) % u64_mod / period % u32_mod ≤ 2 ^ 20
    bounded l =
        let quotient : (runtime * 2 ^ 20) % u64_mod / period ≤ 2 ^ 20 =
          div-le_of_le-mul period (omega arith) in
        omega arith

ratio_of : {e : System} {g : Group} → AllFit e g → ratio (node g) ≤ 2 ^ 20
ratio_of (AllFit.group {n = n} f fs) = to_ratio-le n.rt_period n.rt_runtime f.within_period

-- The children's shares together, without a wrap.
total : Groups → ℕ
total Groups.nil = 0
total (Groups.cons c cs) = ratio (node c) + total cs

ratios-total :
    {e : System} {cs : Groups} (sum : ℕ)
    → EachFits e cs
    → sum + count cs * 2 ^ 20 < u32_mod
    → ratios cs sum ≡ sum + total cs
unfolding ratios total
ratios-total sum EachFits.nil h = omega arith
ratios-total sum (EachFits.cons {c = c} {cs = cs} f fs) h =
    let share = ratio_of f in
    let next : add32 sum (ratio (node c)) ≡ sum + ratio (node c) = omega arith in
    ap (ratios cs) next ∙ ratios-total (sum + ratio (node c)) fs (omega arith) ∙ omega arith

mutual
  unfolding leaf_shares total

  leaf_shares-le : {e : System} {g : Group} → AllFit e g → Narrow g → leaf_shares g ≤ ratio (node g)
  leaf_shares-le (AllFit.group {n = n} f EachFits.nil) w = omega arith
  leaf_shares-le (AllFit.group {n = n} f (EachFits.cons {c = c} {cs = cs} g gs))
        (Narrow.group l ws) =
      let all = leaf_shares_each-le (EachFits.cons g gs) ws in
      let sums = ratios-total 0 (EachFits.cons g gs) (omega arith) in
      let room = f.holds_children in omega arith

  leaf_shares_each-le :
      {e : System} {cs : Groups} → EachFits e cs → EachNarrow cs → leaf_shares_each cs ≤ total cs
  leaf_shares_each-le EachFits.nil w = omega arith
  leaf_shares_each-le (EachFits.cons f fs) (EachNarrow.cons w ws) =
      let here = leaf_shares-le f w in let below = leaf_shares_each-le fs ws in omega arith

share_of :
    {e : System} {g : Group}
    → AllFit e g
    → ratio (node g) ≤ to_ratio (global_rt_period e) (global_rt_runtime e)
share_of (AllFit.group f fs) = f.within_global

stored :
    (e : System) (tg period runtime : ℕ) (root : Group)
    → tg_set_rt_bandwidth e tg period runtime root ≡ (set_bandwidth tg period runtime root, pos 0)
    → AllFit e (set_bandwidth tg period runtime root)
stored e tg period runtime root h = elim (tg_set_rt_bandwidth_lem e tg period runtime root) [
  | inl (fit, _) ↦ fit
  | inr (_, inl k) ↦ absurd (zero_apart (ap err (sym h ∙ k)))
  | inr (_, inr k) ↦ absurd (zero_apart (ap err (sym h ∙ k)))
]
  where
    err : Group × ℤ → ℕ
    err (g, r) = neg_part r

    zero_apart : {n : ℕ} → 0 ≢ suc n
    zero_apart h = omega arith

-- If tg_set_rt_bandwidth returns 0 and no group of the tree has 4096 children, the shares of all the
-- groups without children together are at most the global share.
pub tg_set_rt_bandwidth-leaf_shares :
    (e : System) (tg period runtime : ℕ) (root : Group)
    → Narrow (set_bandwidth tg period runtime root)
    → tg_set_rt_bandwidth e tg period runtime root ≡ (set_bandwidth tg period runtime root, pos 0)
    → leaf_shares (set_bandwidth tg period runtime root)
      ≤ to_ratio (global_rt_period e) (global_rt_runtime e)
tg_set_rt_bandwidth-leaf_shares e tg period runtime root w h =
    let fit = stored e tg period runtime root h in
    let inside = leaf_shares-le fit w in let outside = share_of fit in omega arith

-- Children that each ask for the whole processor, after whose sum the 32-bit word starts again.
abbrev pub repeat : ℕ → Group → Groups
repeat zero g = Groups.nil
repeat (suc n) g = Groups.cons g (repeat n g)

ratios-repeat :
    (n sum : ℕ) (g : Group)
    → ratio (node g) ≡ 2 ^ 20
    → sum < u32_mod
    → ratios (repeat n g) sum ≡ (sum + n * 2 ^ 20) % u32_mod
unfolding ratios
ratios-repeat zero sum g e h = omega arith
ratios-repeat (suc n) sum g e h =
    ap (λ r. ratios (repeat n g) (add32 sum r)) e
    ∙ ratios-repeat n (add32 sum (2 ^ 20)) g e (omega arith)
    ∙ omega arith

-- The sum of the shares of 4096 children, each the whole processor, is 0.
pub ratios_wrap : (g : Group) → ratio (node g) ≡ 2 ^ 20 → ratios (repeat 4096 g) 0 ≡ 0
ratios_wrap g h = ratios-repeat 4096 0 g h (omega arith) ∙ omega arith
