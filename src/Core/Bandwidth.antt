-- ===== src/Core/Bandwidth.antt =====
-- sched/core.c: the bandwidth of the real-time class, which task groups share (to_ratio to
-- sched_rt_handler, with CONFIG_RT_GROUP_SCHED) and the walk over the tree of groups. Times are u64
-- nanoseconds; that ktime_to_ns undoes ns_to_ktime is documented of them, so `rt_period` is the number
-- that ktime_to_ns gives.
pub mod Schedulable
pub mod Storing
pub mod Shares
pub mod Setting
pub mod Sysctl
mod Tests
use linux_kernel.Prelude.{
  ℕ, suc, ◌+◌, ◌-◌, ◌*◌, ◌/◌, ◌%◌, ◌^◌, Bool, true, false, ◌&&◌, not, List, [], ◌∷◌, Option, none,
  some, if◌then◌else◌, ltb, leb, ◌==◌,
}
use linux_kernel.Prelude.Words.{add32, u32_mod, u64_mod}
use linux_kernel.Prelude.Int.{ℤ, pos, negsuc, ltb_ℤ, eqb_ℤ}
use linux_kernel.Prelude.Errno.{einval, ebusy}
use linux_kernel.Sched.{max_rt_prio}

-- struct task_group, with its struct rt_bandwidth and the runtime of its rt_rq on the one processor. A
-- group is known by a number, as the kernel knows it by its address.
pub record Node : Type 0 where
  pub tg : ℕ
  pub rt_period : ℕ
  pub rt_runtime : ℕ
  pub rq_runtime : ℕ

mutual
  pub data Group : Type 0 where
    group : Node → Groups → Group

  pub data Groups : Type 0 where
    nil : Groups
    cons : Group → Groups → Groups

abbrev pub node : Group → Node
node (Group.group n cs) = n

-- The system: the two sysctl variables, the priorities of the threads, and the group to which the
-- processor's own rt_rq belongs.
pub record System : Type 0 where
  pub sysctl_sched_rt_period : ℕ
  pub sysctl_sched_rt_runtime : ℤ
  pub threads : List ℕ
  pub rq_tg : ℕ

abbrev pub runtime_inf : ℕ
runtime_inf = u64_mod - 1

abbrev pub nsec_per_usec : ℕ
nsec_per_usec = 1000

abbrev pub global_rt_period : System → ℕ
global_rt_period e = e.sysctl_sched_rt_period * nsec_per_usec

abbrev pub global_rt_runtime : System → ℕ
global_rt_runtime e = elim e.sysctl_sched_rt_runtime [
  | pos n ↦ n * nsec_per_usec
  | negsuc n ↦ runtime_inf
]

abbrev pub rt_bandwidth_enabled : System → Bool
rt_bandwidth_enabled e = not (ltb_ℤ e.sysctl_sched_rt_runtime (pos 0))

-- `unsigned long` has 32 bits; `runtime << 20` is a u64. The callers give no period of 0, by which the
-- source's division would fault.
unfoldable pub to_ratio : (period runtime : ℕ) → ℕ
to_ratio period runtime =
    if runtime == runtime_inf then 2 ^ 20 else (runtime * 2 ^ 20) % u64_mod / period % u32_mod

-- do_each_thread; rt_task compares the priority.
unfoldable pub tg_has_rt_tasks : List ℕ → (rq_tg tg : ℕ) → Bool
tg_has_rt_tasks [] rq_tg tg = false
tg_has_rt_tasks (prio ∷ threads) rq_tg tg =
    let rest = tg_has_rt_tasks threads rq_tg tg in
    if ltb prio max_rt_prio && rq_tg == tg then true else rest

-- struct rt_schedulable_data; `none` is NULL.
pub record RtSchedulableData : Type 0 where
  pub tg : Option ℕ
  pub rt_period : ℕ
  pub rt_runtime : ℕ

abbrev pub is_target : RtSchedulableData → ℕ → Bool
is_target d tg = elim d.tg [ none ↦ false | some t ↦ tg == t ]

abbrev pub period_of : RtSchedulableData → Node → ℕ
period_of d n = if is_target d n.tg then d.rt_period else n.rt_period

abbrev pub runtime_of : RtSchedulableData → Node → ℕ
runtime_of d n = if is_target d n.tg then d.rt_runtime else n.rt_runtime

-- The loop over the children of a group.
unfoldable pub children_sum : RtSchedulableData → Groups → ℕ → ℕ
children_sum d Groups.nil sum = sum
children_sum d (Groups.cons c cs) sum =
    children_sum d cs (add32 sum (to_ratio (period_of d (node c)) (runtime_of d (node c))))

unfoldable pub tg_rt_schedulable : System → RtSchedulableData → Group → ℤ
tg_rt_schedulable e d (Group.group n cs) =
    let period = period_of d n in
    let runtime = runtime_of d n in
    let total = to_ratio period runtime in
    if ltb period runtime && not (runtime == runtime_inf)
    then einval
    else if rt_bandwidth_enabled e && runtime == 0 && tg_has_rt_tasks e.threads e.rq_tg n.tg
    then ebusy
    else if ltb (to_ratio (global_rt_period e) (global_rt_runtime e)) total
    then einval
    else if ltb total (children_sum d cs 0)
    then einval
    else pos 0

-- A visitor's result other than 0 ends the walk.
abbrev pub or_else : ℤ → ℤ → ℤ
or_else ret next = if eqb_ℤ ret (pos 0) then next else ret

unfoldable mutual
  pub walk_tg_tree_from : (down up : Group → ℤ) → Group → ℤ
  walk_tg_tree_from down up (Group.group n cs) =
      or_else (down (Group.group n cs)) (or_else (walk_children down up cs) (up (Group.group n cs)))

  pub walk_children : (down up : Group → ℤ) → Groups → ℤ
  walk_children down up Groups.nil = pos 0
  walk_children down up (Groups.cons c cs) =
      or_else (walk_tg_tree_from down up c) (walk_children down up cs)

abbrev pub tg_nop : Group → ℤ
tg_nop g = pos 0

unfoldable pub __rt_schedulable : System → RtSchedulableData → (root : Group) → ℤ
__rt_schedulable e d root = walk_tg_tree_from (tg_rt_schedulable e d) tg_nop root

abbrev pub set_node : (tg period runtime : ℕ) → Node → Node
set_node tg period runtime n =
    if n.tg == tg
    then record n { rt_period = period; rt_runtime = runtime; rq_runtime = runtime }
    else n

-- The stores to the one group that the pointer `tg` names.
unfoldable mutual
  pub set_bandwidth : (tg period runtime : ℕ) → Group → Group
  set_bandwidth tg period runtime (Group.group n cs) =
      Group.group (set_node tg period runtime n) (set_children tg period runtime cs)

  pub set_children : (tg period runtime : ℕ) → Groups → Groups
  set_children tg period runtime Groups.nil = Groups.nil
  set_children tg period runtime (Groups.cons c cs) =
      Groups.cons (set_bandwidth tg period runtime c) (set_children tg period runtime cs)

unfoldable pub tg_set_rt_bandwidth :
    System → (tg rt_period rt_runtime : ℕ) → (root : Group) → Group × ℤ
tg_set_rt_bandwidth e tg rt_period rt_runtime root =
    let err =
      __rt_schedulable e (record { tg = some tg; rt_period = rt_period; rt_runtime = rt_runtime })
        root in
    if eqb_ℤ err (pos 0) then (set_bandwidth tg rt_period rt_runtime root, err) else (root, err)

-- The conversion of a `long` to u64.
abbrev pub to_u64 : ℤ → ℕ
to_u64 (pos n) = n
to_u64 (negsuc n) = u64_mod - suc n

unfoldable pub sched_group_set_rt_runtime :
    System → Node → (rt_runtime_us : ℤ) → (root : Group) → Group × ℤ
sched_group_set_rt_runtime e n rt_runtime_us root =
    let runtime =
      if ltb_ℤ rt_runtime_us (pos 0)
      then runtime_inf
      else (to_u64 rt_runtime_us * nsec_per_usec) % u64_mod in
    tg_set_rt_bandwidth e n.tg n.rt_period runtime root

-- The conversion of a u64 to `long`, of 32 bits.
abbrev pub to_long : ℕ → ℤ
to_long u =
    if ltb (u % u32_mod) (2 ^ 31) then pos (u % u32_mod) else negsuc (u32_mod - 1 - u % u32_mod)

unfoldable pub sched_group_rt_runtime : Node → ℤ
sched_group_rt_runtime n =
    if n.rt_runtime == runtime_inf then negsuc 0 else to_long (n.rt_runtime / nsec_per_usec)

unfoldable pub sched_group_set_rt_period :
    System → Node → (rt_period_us : ℤ) → (root : Group) → Group × ℤ
sched_group_set_rt_period e n rt_period_us root =
    let period = (to_u64 rt_period_us * nsec_per_usec) % u64_mod in
    if period == 0 then (root, einval) else tg_set_rt_bandwidth e n.tg period n.rt_runtime root

unfoldable pub sched_group_rt_period : Node → ℤ
sched_group_rt_period n = to_long (n.rt_period / nsec_per_usec)

unfoldable pub sched_rt_global_constraints : System → (root : Group) → ℤ
sched_rt_global_constraints e root =
    let runtime = global_rt_runtime e in
    let period = global_rt_period e in
    if e.sysctl_sched_rt_period == 0
    then einval
    else if ltb period runtime && not (runtime == runtime_inf)
    then einval
    else __rt_schedulable e (record { tg = none; rt_period = 0; rt_runtime = 0 }) root

-- `true` is 1.
unfoldable pub sched_rt_can_attach : Node → (prio : ℕ) → Bool
sched_rt_can_attach n prio = if ltb prio max_rt_prio && n.rt_runtime == 0 then false else true

-- struct rt_bandwidth def_rt_bandwidth.
pub record Defaults : Type 0 where
  pub def_runtime : ℕ
  pub def_period : ℕ

-- sched_rt_handler; `parsed` is the system as proc_dointvec leaves it, with its result.
unfoldable pub sched_rt_handler :
    (write : Bool) (parsed : System × ℤ)
    → System
    → Defaults
    → (root : Group) → System × Defaults × ℤ
sched_rt_handler write (e, ret) old defaults root =
    if eqb_ℤ ret (pos 0) && write
    then checked (sched_rt_global_constraints e root)
    else (e, defaults, ret)
  where
    checked : ℤ → System × Defaults × ℤ
    checked err =
        if eqb_ℤ err (pos 0)
        then (e, record { def_runtime = global_rt_runtime e; def_period = global_rt_period e }, err)
        else (
          record e {
            sysctl_sched_rt_period = old.sysctl_sched_rt_period;
            sysctl_sched_rt_runtime = old.sysctl_sched_rt_runtime;
          },
          defaults,
          err,
        )
