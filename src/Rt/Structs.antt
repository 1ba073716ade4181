-- ===== src/Rt/Structs.antt =====
-- The structs of the real-time class, of sched/sched.h and linux/sched.h, as far as rt.c uses them.
use linux_kernel.Prelude.{ℕ, ◌-◌, Bool, true, Option, List}
use linux_kernel.Prelude.Words.{u64_mod}
use linux_kernel.Prelude.Int.{ℤ}
use linux_kernel.Sched.{Class, update}

-- What rt.c takes from elsewhere: the bit search of the architecture and the tick rate HZ.
pub record RtEnv : Type 0 where
  pub sched_find_first_bit : (ℕ → Bool) → ℕ
  pub hz : ℕ

-- struct rt_bandwidth; `timer_active` is what hrtimer_active says of its timer.
pub record RtBandwidth : Type 0 where
  pub rt_period : ℕ
  pub rt_runtime : ℕ
  pub timer_active : Bool

-- struct rt_rq, with rt_prio_array in it, and its group's entity and bandwidth.
pub record RtRq : Type 0 where
  pub bitmap : ℕ → Bool
  pub queue : ℕ → List ℕ
  pub rt_nr_running : ℕ
  pub highest_prio : ℕ
  pub rt_throttled : Bool
  pub rt_time : ℕ
  pub rt_runtime : ℕ
  pub rt_nr_boosted : ℕ
  pub rt_se : Option ℕ
  pub rt_bandwidth : RtBandwidth

-- struct sched_rt_entity. Its `run_list` is its place in a queue of `rt_rq`.
pub record RtEntity : Type 0 where
  pub timeout : ℕ
  pub time_slice : ℕ
  pub parent : Option ℕ
  pub rt_rq : ℕ
  pub my_q : Option ℕ

-- The fields of task_struct that rt.c reads and writes, with the limits RLIMIT_RTTIME of its process.
pub record RtTask : Type 0 where
  pub policy : ℕ
  pub prio : ℕ
  pub normal_prio : ℕ
  pub sched_class : Class
  pub on_rq : Bool
  pub need_resched : Bool
  pub exec_start : ℕ
  pub exec_max : ℕ
  pub sum_exec_runtime : ℕ
  pub rlim_cur : ℕ
  pub rlim_max : ℕ
  pub sched_exp : ℕ

-- The processor's part of the class. `levels` is more than the number of groups on a path to the root.
-- `charged` lists the runtimes given to account_group_exec_runtime and cpuacct_charge.
pub record RtState : Type 0 where
  pub tasks : ℕ → RtTask
  pub entities : ℕ → RtEntity
  pub rqs : ℕ → RtRq
  pub leaf_rt_rq_list : List ℕ
  pub levels : ℕ
  pub curr : ℕ
  pub idle : ℕ
  pub clock_task : ℕ
  pub nr_running : ℕ
  pub skip_clock_update : ℤ
  pub bandwidth_enabled : Bool
  pub charged : List (ℕ × ℕ)

-- ~0ULL
abbrev pub runtime_inf : ℕ
runtime_inf = u64_mod - 1

abbrev pub set_rq : RtState → ℕ → RtRq → RtState
set_rq s g r = record s { rqs = update s.rqs g r }

abbrev pub rq_of : RtState → ℕ → RtRq
rq_of s se = s.rqs (s.entities se).rt_rq

abbrev pub set_need_resched : RtState → ℕ → RtState
set_need_resched s p = record s {
  tasks = update s.tasks p (record (s.tasks p) { need_resched = true });
}
