-- ===== src/Sched.antt =====
-- What the scheduler's files share: sched_class, task_struct and rq of
-- "project_Android Kernel Scheduler/scheduler/linux/sched.h" and ".../sched/sched.h", with the
-- fields that the modelled functions read and write, and the constants of those headers.
-- A pointer to a task is a number; the rq holds the tasks that the pointers reach.
use linux_kernel.Prelude.{ℕ, Bool, true, List, if◌then◌else◌, ◌==◌}
use linux_kernel.Prelude.Int.{ℤ}

-- The scheduling classes, in the order of `for_each_class`.
pub data Class : Type 0 where
  stop rt wrr fair idle : Class

abbrev pub sched_normal : ℕ
sched_normal = 0

abbrev pub sched_fifo : ℕ
sched_fifo = 1

abbrev pub sched_rr : ℕ
sched_rr = 2

abbrev pub sched_batch : ℕ
sched_batch = 3

abbrev pub sched_idle : ℕ
sched_idle = 5

abbrev pub sched_wrr : ℕ
sched_wrr = 6

abbrev pub max_rt_prio : ℕ
max_rt_prio = 100

-- struct sched_entity, the part that wrr.c uses.
pub record SchedEntity : Type 0 where
  pub exec_start : ℕ
  pub exec_max : ℕ
  pub sum_exec_runtime : ℕ
  pub load_weight : ℕ
  pub inv_weight : ℕ

-- struct sched_wrr_entity. `run_list` is the entity's place in the queue of its wrr_rq.
pub record SchedWrrEntity : Type 0 where
  pub weight : ℕ
  pub time_slice : ℕ

pub record Task : Type 0 where
  pub policy : ℕ
  pub on_rq : Bool
  pub prio : ℤ
  pub static_prio : ℤ
  pub normal_prio : ℤ
  pub rt_priority : ℕ
  pub sched_class : Class
  pub se : SchedEntity
  pub wrr : SchedWrrEntity
  pub sched_task_group : ℕ
  pub sched_reset_on_fork : Bool
  pub need_resched : Bool
  pub has_mm : Bool

-- struct wrr_rq. The circular list at `queue` is the sequence of the tasks that are linked in it.
pub record WrrRq : Type 0 where
  pub queue : List ℕ
  pub wrr_nr_running : ℕ
  pub total_weight : ℕ

-- struct rq. `others` is the memory of the other classes' run queues, which only they read.
-- `charged` lists the runtimes given to account_group_exec_runtime and cpuacct_charge.
pub record Rq : Type 0 where
  pub tasks : ℕ → Task
  pub wrr : WrrRq
  pub curr : ℕ
  pub idle : ℕ
  pub stop : ℕ
  pub nr_running : ℕ
  pub cfs_h_nr_running : ℕ
  pub clock : ℕ
  pub clock_task : ℕ
  pub skip_clock_update : ℤ
  pub others : List ℕ
  pub charged : List (ℕ × ℕ)

module _ {ℓ} {A : Type ℓ} where
  abbrev pub update : (ℕ → A) → ℕ → A → ℕ → A
  update f p v q = if p == q then v else f q

abbrev pub set_task : Rq → ℕ → Task → Rq
set_task rq p t = record rq { tasks = update rq.tasks p t }

-- resched_task of core.c, without CONFIG_SMP: it sets TIF_NEED_RESCHED.
unfoldable pub resched_task : Rq → ℕ → Rq
resched_task rq p = set_task rq p (record (rq.tasks p) { need_resched = true })

-- Class equality, which the source tests on the addresses of the classes.
abbrev pub class_rank : Class → ℕ
class_rank stop = 0
class_rank rt = 1
class_rank wrr = 2
class_rank fair = 3
class_rank idle = 4

abbrev pub same_class : Class → Class → Bool
same_class a b = class_rank a == class_rank b
