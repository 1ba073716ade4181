-- ===== src/Core/Bandwidth/Setting.antt =====
-- The files cpu.rt_runtime_us and cpu.rt_period_us of a group, and the sysctl variables.
use linux_kernel.Prelude.{
  ℕ, suc, ◌*◌, ◌/◌, ◌%◌, ◌^◌, ◌<◌, ◌≡◌, ◌≢◌, inl, inr, refl, ap, sym, ◌∙◌, Option, none, some, true,
  false, arith, if◌then◌else◌, ◌==◌,
}
use linux_kernel.Prelude.Words.{u64_mod}
use linux_kernel.Prelude.Int.{ℤ, pos, negsuc, ltb_ℤ, pos_part, neg_part}
use linux_kernel.Prelude.Errno.{einval}
use linux_kernel.Core.Bandwidth.{
  Node, Group, Groups, System, runtime_inf, nsec_per_usec, set_bandwidth, set_children,
  tg_set_rt_bandwidth, to_u64, to_long, sched_group_set_rt_runtime, sched_group_rt_runtime,
  sched_group_set_rt_period, sched_group_rt_period,
}
use linux_kernel.Core.Bandwidth.Storing.{tg_set_rt_bandwidth_lem}

abbrev or_option : Option Node → Option Node → Option Node
or_option none b = b
or_option (some n) b = some n

-- The group that a number names.
unfoldable mutual
  pub find_group : ℕ → Group → Option Node
  find_group tg (Group.group n cs) =
      let below = find_child tg cs in if n.tg == tg then some n else below

  pub find_child : ℕ → Groups → Option Node
  find_child tg Groups.nil = none
  find_child tg (Groups.cons c cs) = or_option (find_group tg c) (find_child tg cs)

abbrev changed : (period runtime : ℕ) → Option Node → Option Node
changed period runtime none = none
changed period runtime (some n) =
    some (record n { rt_period = period; rt_runtime = runtime; rq_runtime = runtime })

or_option-changed :
    (period runtime : ℕ) (a b : Option Node)
    → or_option (changed period runtime a) (changed period runtime b)
      ≡ changed period runtime (or_option a b)
or_option-changed period runtime none b = refl
or_option-changed period runtime (some n) b = refl

mutual
  unfolding find_group set_bandwidth

  find_group-set :
      (tg period runtime : ℕ) (g : Group)
      → find_group tg (set_bandwidth tg period runtime g) ≡ changed period runtime (find_group tg g)
  find_group-set tg period runtime (Group.group n cs) =
      let below = find_child-set tg period runtime cs in ground arith

  find_child-set :
      (tg period runtime : ℕ) (cs : Groups)
      → find_child tg (set_children tg period runtime cs)
        ≡ changed period runtime (find_child tg cs)
  find_child-set tg period runtime Groups.nil = refl
  find_child-set tg period runtime (Groups.cons c cs) =
      ap (λ a. or_option a (find_child tg (set_children tg period runtime cs)))
        (find_group-set tg period runtime c)
      ∙ ap (or_option (changed period runtime (find_group tg c)))
          (find_child-set tg period runtime cs)
      ∙ or_option-changed period runtime (find_group tg c) (find_child tg cs)

accepted :
    (e : System) (tg period runtime : ℕ) (root : Group)
    → (tg_set_rt_bandwidth e tg period runtime root).1 ≡ pos 0
    → tg_set_rt_bandwidth e tg period runtime root ≡ (set_bandwidth tg period runtime root, pos 0)
accepted e tg period runtime root h = elim (tg_set_rt_bandwidth_lem e tg period runtime root) [
  | inl (_, k) ↦ k
  | inr (_, inl k) ↦ absurd (zero_apart (ap err (sym h ∙ ap second k)))
  | inr (_, inr k) ↦ absurd (zero_apart (ap err (sym h ∙ ap second k)))
]
  where
    second : Group × ℤ → ℤ
    second (g, r) = r

    err : ℤ → ℕ
    err r = neg_part r

    zero_apart : {n : ℕ} → 0 ≢ suc n
    zero_apart h = omega arith

-- What stands in the group after an accepted call.
accepted-find_group :
    (e : System) (n : Node) (period runtime : ℕ) (root : Group)
    → find_group n.tg root ≡ some n
    → (tg_set_rt_bandwidth e n.tg period runtime root).1 ≡ pos 0
    → find_group n.tg (tg_set_rt_bandwidth e n.tg period runtime root).0
      ≡ some (record n { rt_period = period; rt_runtime = runtime; rq_runtime = runtime })
accepted-find_group e n period runtime root f h =
    ap (λ (r : Group × ℤ). find_group n.tg r.0) (accepted e n.tg period runtime root h)
    ∙ find_group-set n.tg period runtime root
    ∙ ap (changed period runtime) f

-- The text of an unlimited runtime is -1.
abbrev pub shown : ℤ → ℤ
shown us = if ltb_ℤ us (pos 0) then negsuc 0 else us

read_back : (us : ℕ) → us < 2 ^ 31 → to_long ((us * 1000) % u64_mod / 1000) ≡ pos us
read_back us h =
    let e : (us * 1000) % u64_mod / 1000 ≡ us = omega arith in ap to_long e ∙ ground arith

abbrev stored_runtime : ℤ → ℕ
stored_runtime us = if ltb_ℤ us (pos 0) then runtime_inf else (to_u64 us * nsec_per_usec) % u64_mod

abbrev read_runtime : ℕ → ℤ
read_runtime r = if r == runtime_inf then negsuc 0 else to_long (r / nsec_per_usec)

reads : (us : ℤ) → pos_part us < 2 ^ 31 → read_runtime (stored_runtime us) ≡ shown us
reads (negsuc k) l =
    let negative : ltb_ℤ (negsuc k) (pos 0) ≡ true = ground arith in
    ap
      (λ b. read_runtime (if b then runtime_inf else (to_u64 (negsuc k) * nsec_per_usec) % u64_mod))
      negative
    ∙ sym (ap (λ b. if b then negsuc 0 else negsuc k) negative)
reads (pos k) l =
    let limited : ltb_ℤ (pos k) (pos 0) ≡ false = ground arith in
    let finite : (((k * 1000) % u64_mod) == runtime_inf) ≡ false = ground arith in
    ap (λ b. read_runtime (if b then runtime_inf else (k * 1000) % u64_mod)) limited
    ∙ ap (λ b. if b then negsuc 0 else to_long ((k * 1000) % u64_mod / 1000)) finite
    ∙ read_back k l
    ∙ sym (ap (λ b. if b then negsuc 0 else pos k) limited)

-- For a group of the tree and a runtime in microseconds that is negative or below 2^31: if
-- sched_group_set_rt_runtime returns 0, then sched_group_rt_runtime gives the same number, or -1 for a
-- negative one; the period is as before, and the processor's rt_rq of the group has the new runtime.
pub sched_group_set_rt_runtime-sched_group_rt_runtime :
    (e : System) (n : Node) (us : ℤ) (root : Group)
    → find_group n.tg root ≡ some n
    → pos_part us < 2 ^ 31
    → (sched_group_set_rt_runtime e n us root).1 ≡ pos 0
    → (m : Node) × (find_group n.tg (sched_group_set_rt_runtime e n us root).0 ≡ some m)
      × (sched_group_rt_runtime m ≡ shown us)
      × (sched_group_rt_period m ≡ sched_group_rt_period n)
      × (m.rq_runtime ≡ m.rt_runtime)
unfolding sched_group_set_rt_runtime sched_group_rt_runtime sched_group_rt_period
sched_group_set_rt_runtime-sched_group_rt_runtime e n us root f l h =
    (_, accepted-find_group e n n.rt_period (stored_runtime us) root f h, reads us l, refl, refl)

-- For a group of the tree and a period in microseconds from 1 to below 2^31: if sched_group_set_rt_period
-- returns 0, then sched_group_rt_period gives the same number, and the runtime is as before.
pub sched_group_set_rt_period-sched_group_rt_period :
    (e : System) (n : Node) (us : ℕ) (root : Group)
    → find_group n.tg root ≡ some n
    → 0 < us
    → us < 2 ^ 31
    → (sched_group_set_rt_period e n (pos us) root).1 ≡ pos 0
    → (m : Node) × (find_group n.tg (sched_group_set_rt_period e n (pos us) root).0 ≡ some m)
      × (sched_group_rt_period m ≡ pos us)
      × (sched_group_rt_runtime m ≡ sched_group_rt_runtime n)
      × (m.rq_runtime ≡ n.rt_runtime)
unfolding sched_group_set_rt_period sched_group_rt_runtime sched_group_rt_period
sched_group_set_rt_period-sched_group_rt_period e n us root f i l h =
    let period = (us * 1000) % u64_mod in
    let positive : (period == 0) ≡ false = ground arith in
    let same =
      ap (λ b. if b then (root, einval) else tg_set_rt_bandwidth e n.tg period n.rt_runtime root)
        positive in
    (
      _,
      ap (λ (r : Group × ℤ). find_group n.tg r.0) same
          ∙ accepted-find_group e n period n.rt_runtime root f
              (sym (ap (λ (r : Group × ℤ). r.1) same) ∙ h),
      read_back us l,
      refl,
      refl,
    )
