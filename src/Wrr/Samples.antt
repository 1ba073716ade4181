-- ===== src/Wrr/Samples.antt =====
-- Small control groups, tasks and run queues for the tests.
use linux_kernel.Prelude.{ℕ, true, false, Option, none, some, List, [], ◌∷◌, if◌then◌else◌, ◌==◌}
use linux_kernel.Prelude.Int.{pos}
use linux_kernel.Sched.{Task, Rq, WrrRq, Class, sched_wrr}
use linux_kernel.Wrr.{Cgroups}

-- Group 1 is "/bg", group 2 is "/fg", the others are the root "/".
abbrev pub paths : Option ℕ → List ℕ → List ℕ
paths none buf = buf
paths (some c) buf =
    if c == 1
    then b'/' ∷ b'b' ∷ b'g' ∷ 0 ∷ []
    else if c == 2
    then b'/' ∷ b'f' ∷ b'g' ∷ 0 ∷ []
    else b'/' ∷ 0 ∷ []

abbrev pub groups : Cgroups
groups = record {
  autogroup_path = λ tg buf. (false, buf);
  css_cgroup = λ tg. some tg;
  cgroup_path = paths;
  stack = [];
  hz = 100;
}

abbrev pub task : ℕ → ℕ → ℕ → Task
task group weight slice = record {
  policy = sched_wrr;
  on_rq = true;
  prio = pos 120;
  static_prio = pos 120;
  normal_prio = pos 120;
  rt_priority = 0;
  sched_class = Class.wrr;
  se = record {
    exec_start = 5;
    exec_max = 0;
    sum_exec_runtime = 0;
    load_weight = 0;
    inv_weight = 0;
  };
  wrr = record { weight = weight; time_slice = slice };
  sched_task_group = group;
  sched_reset_on_fork = false;
  need_resched = false;
  has_mm = true;
}

abbrev pub all_tasks : ℕ → Task
all_tasks p = if p == 1 then task 1 1 1 else if p == 2 then task 2 10 2 else task 2 0 0

abbrev pub with_queue : WrrRq → Rq
with_queue q = record {
  tasks = all_tasks;
  wrr = q;
  curr = 1;
  idle = 0;
  stop = 9;
  nr_running = 2;
  cfs_h_nr_running = 0;
  clock = 7;
  clock_task = 7;
  skip_clock_update = pos 0;
  others = [];
  charged = [];
}

abbrev pub empty_rq : Rq
empty_rq = with_queue (record { queue = []; wrr_nr_running = 0; total_weight = 0 })

-- A background task 1 with one tick left, then a foreground task 2 with two.
abbrev pub two_queued : Rq
two_queued = with_queue (record { queue = 1 ∷ 2 ∷ []; wrr_nr_running = 2; total_weight = 11 })
