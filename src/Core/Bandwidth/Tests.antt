-- ===== src/Core/Bandwidth/Tests.antt =====
-- A root group with two children, of which the first gets 400 of 1000 milliseconds.
use linux_kernel.Prelude.{ℕ, ◌≤◌, ◌≡◌, ◌⊎◌, refl, true, [], ◌∷◌, some, arith}
use linux_kernel.Prelude.Int.{pos}
use linux_kernel.Prelude.Errno.{einval, ebusy}
use linux_kernel.Core.Bandwidth.{
  Node, Group, Groups, System, Defaults, global_rt_period, global_rt_runtime, to_ratio,
  tg_has_rt_tasks, children_sum, tg_rt_schedulable, walk_tg_tree_from, __rt_schedulable,
  set_bandwidth, tg_set_rt_bandwidth, sched_group_set_rt_runtime, sched_group_rt_runtime,
  sched_group_rt_period, sched_rt_handler,
}
use linux_kernel.Core.Bandwidth.Schedulable.{AllFit}
use linux_kernel.Core.Bandwidth.Storing.{tg_set_rt_bandwidth_lem}
use linux_kernel.Core.Bandwidth.Shares.{
  Narrow, EachNarrow, leaf_shares, tg_set_rt_bandwidth-leaf_shares,
}
use linux_kernel.Core.Bandwidth.Setting.{
  find_group, shown, sched_group_set_rt_runtime-sched_group_rt_runtime,
}
use linux_kernel.Core.Bandwidth.Sysctl.{GlobalFits, restored, sched_rt_handler_lem}

abbrev system : System
system = record {
  sysctl_sched_rt_period = 1000000;
  sysctl_sched_rt_runtime = pos 950000;
  threads = 120 ∷ 50 ∷ [];
  rq_tg = 0;
}

abbrev node_with : ℕ → ℕ → Node
node_with tg runtime = record {
  tg = tg;
  rt_period = 1000000000;
  rt_runtime = runtime;
  rq_runtime = runtime;
}

abbrev leaf : ℕ → ℕ → Group
leaf tg runtime = Group.group (node_with tg runtime) Groups.nil

abbrev tree : Group
tree =
    Group.group (node_with 0 950000000)
      (Groups.cons (leaf 1 0) (Groups.cons (leaf 2 300000000) Groups.nil))

tg_set_rt_bandwidth_lem_example :
    let after = set_bandwidth 1 1000000000 400000000 tree in
    (AllFit system after
      × (tg_set_rt_bandwidth system 1 1000000000 400000000 tree ≡ (after, pos 0)))
    ⊎ ((¬ AllFit system after)
        × ((tg_set_rt_bandwidth system 1 1000000000 400000000 tree ≡ (tree, einval))
            ⊎ (tg_set_rt_bandwidth system 1 1000000000 400000000 tree ≡ (tree, ebusy))))
tg_set_rt_bandwidth_lem_example = tg_set_rt_bandwidth_lem system 1 1000000000 400000000 tree

tree-Narrow : Narrow (set_bandwidth 1 1000000000 400000000 tree)
unfolding set_bandwidth
tree-Narrow = Narrow.group (omega arith) (
    EachNarrow.cons (Narrow.group (omega arith) EachNarrow.nil)
      (EachNarrow.cons (Narrow.group (omega arith) EachNarrow.nil) EachNarrow.nil))

tree_accepted :
    tg_set_rt_bandwidth system 1 1000000000 400000000 tree
    ≡ (set_bandwidth 1 1000000000 400000000 tree, pos 0)
unfolding tg_set_rt_bandwidth __rt_schedulable walk_tg_tree_from tg_rt_schedulable children_sum
    to_ratio tg_has_rt_tasks
tree_accepted = refl

tg_set_rt_bandwidth-leaf_shares_example :
    leaf_shares (set_bandwidth 1 1000000000 400000000 tree)
    ≤ to_ratio (global_rt_period system) (global_rt_runtime system)
tg_set_rt_bandwidth-leaf_shares_example =
    tg_set_rt_bandwidth-leaf_shares system 1 1000000000 400000000 tree tree-Narrow tree_accepted

found : find_group 1 tree ≡ some (node_with 1 0)
unfolding find_group
found = refl

runtime_accepted : (sched_group_set_rt_runtime system (node_with 1 0) (pos 400000) tree).1 ≡ pos 0
unfolding sched_group_set_rt_runtime tg_set_rt_bandwidth __rt_schedulable walk_tg_tree_from
    tg_rt_schedulable children_sum to_ratio tg_has_rt_tasks
runtime_accepted = refl

sched_group_set_rt_runtime-sched_group_rt_runtime_example :
    (m : Node) × (find_group 1
        (sched_group_set_rt_runtime system (node_with 1 0) (pos 400000) tree).0
      ≡ some m)
    × (sched_group_rt_runtime m ≡ shown (pos 400000))
    × (sched_group_rt_period m ≡ sched_group_rt_period (node_with 1 0))
    × (m.rq_runtime ≡ m.rt_runtime)
sched_group_set_rt_runtime-sched_group_rt_runtime_example =
    sched_group_set_rt_runtime-sched_group_rt_runtime system (node_with 1 0) (pos 400000) tree found
      (omega arith) runtime_accepted

-- A limit of a quarter of a second is too little for the groups.
abbrev tight : System
tight = record system { sysctl_sched_rt_runtime = pos 250000 }

abbrev defaults : Defaults
defaults = record { def_runtime = 950000000; def_period = 1000000000 }

sched_rt_handler_lem_example :
    let out = sched_rt_handler true (tight, pos 0) system defaults tree in
    (GlobalFits tight tree
      × (out ≡ (
        tight,
        record { def_runtime = global_rt_runtime tight; def_period = global_rt_period tight },
        pos 0,
      )))
    ⊎ ((¬ GlobalFits tight tree)
        × ((out ≡ (restored system tight, defaults, einval))
            ⊎ (out ≡ (restored system tight, defaults, ebusy))))
sched_rt_handler_lem_example = sched_rt_handler_lem tight system defaults tree
