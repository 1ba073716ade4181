-- ===== src/Core/Load/Tests.antt =====
-- Three tasks are active, of which the system knows two, with the averages of a kernel of 100 ticks a second.
use linux_kernel.Prelude.{◌≤◌, ◌≡◌, refl, arith, min, max}
use linux_kernel.Core.Load.{
  LoadState, exp_1, calc_load_n, calc_load_account_active, calc_load_enter_idle, calc_global_load,
  update_cpu_load,
}
use linux_kernel.Core.Load.Average.{calc_load_n-between}
use linux_kernel.Core.Load.Moving.{update_cpu_load_lem}
use linux_kernel.Core.Load.Folding.{Balanced, Event, Reach, Reach-Balanced}

abbrev state : LoadState
state = record {
  hz = 100;
  jiffies = 1000;
  calc_load_tasks = 2;
  calc_load_update = 900;
  avenrun = λ i. 2048;
  calc_load_idle = λ i. 0;
  calc_load_idx = 0;
  nr_running = 3;
  nr_uninterruptible = 0;
  calc_load_active = 2;
  rq_calc_load_update = 900;
  load_weight = 10;
  nr_load_updates = 0;
  last_load_update_tick = 999;
  cpu_load = λ i. 9;
}

-- The processor goes idle, and tells of its third task; then the averages are made.
Reach-Balanced_example :
    Balanced (calc_global_load (calc_load_account_active (calc_load_enter_idle state)))
Reach-Balanced_example =
    Reach-Balanced
      (Reach.more
        (Reach.more (Reach.more Reach.start (Event.enter_idle state))
          (Event.tick (calc_load_enter_idle state)))
        (Event.global (calc_load_account_active (calc_load_enter_idle state))))
      (record { told = refl; narrow = omega arith })

calc_load_n-between_example :
    (min 4096 2048 ≤ calc_load_n 4096 exp_1 2048 12)
    × (calc_load_n 4096 exp_1 2048 12 ≤ max 4096 2048)
calc_load_n-between_example =
    calc_load_n-between 4096 exp_1 2048 12 (omega arith) (omega arith) (omega arith)

-- The average does not stay at 9 when the load is 10.
update_cpu_load_lem_example :
    ((update_cpu_load state).cpu_load 0 ≡ 10)
    × (min 10 10 ≤ (update_cpu_load state).cpu_load 4)
    × ((update_cpu_load state).cpu_load 4 ≤ max 8 10)
update_cpu_load_lem_example =
    update_cpu_load_lem state 4 (omega arith) refl (omega arith) (omega arith) refl (omega arith)
