-- ===== src/Core/Running/Tests.antt =====
-- Three tasks of the wrr class: task 1 runs, task 2 waits, task 5 sleeps.
use linux_kernel.Prelude.{◌≡◌, refl, true, false, none, some, [], arith, if◌then◌else◌, ◌==◌}
use linux_kernel.Sched.{Task, Rq}
use linux_kernel.Wrr.{remove}
use linux_kernel.Wrr.Queue.{contains, weights}
use linux_kernel.Wrr.Invariant.{Inv}
use linux_kernel.Wrr.Samples.{groups, task, two_queued}
use linux_kernel.Core.Classes.{Env, SchedClass, class_ops}
use linux_kernel.Core.Running.{Cpu, try_to_wake_up, __schedule}
use linux_kernel.Core.Running.Waking.{IsWoken, try_to_wake_up_lem}
use linux_kernel.Core.Running.Placed.{Placed, Step, Reach, Reach-Placed}
use linux_kernel.Core.Running.Sleeping.{IsSwitched, __schedule_lem}

abbrev empty_class : SchedClass
empty_class = record {
  enqueue_task = λ rq p flags. rq;
  dequeue_task = λ rq p flags. rq;
  check_preempt_curr = λ rq p flags. rq;
  pick_next_task = λ rq. (none, rq);
  put_prev_task = λ rq p. rq;
  set_curr_task = λ rq. rq;
  task_tick = λ rq p. rq;
  task_fork = none;
  switched_from = none;
  switched_to = λ rq p. rq;
  prio_changed = λ rq p old. rq;
}

abbrev env : Env
env = record { cgroups = groups; others = λ c. empty_class; sched_clock = 50 }

abbrev asleep_task : Task
asleep_task = record (task 2 10 2) { on_rq = false }

abbrev rq : Rq
rq = record two_queued {
  tasks = λ p. if p == 1 then task 1 1 1 else if p == 2 then task 2 10 2 else asleep_task;
}

-- Tasks 1 and 5 are in TASK_INTERRUPTIBLE.
abbrev cpu : Cpu
cpu = record {
  rq = rq;
  state = λ p. if p == 2 then 0 else 1;
  frozen = λ p. false;
  nvcsw = λ p. 0;
  nivcsw = λ p. 0;
  nr_uninterruptible = 0;
  nr_switches = 0;
}

rq-Inv : Inv rq
unfolding contains weights
rq-Inv = record { distinct = (refl, (refl, tt)); counted = refl; weighed = refl }

try_to_wake_up_lem_example :
    (d : Cpu) × (try_to_wake_up env cpu 5 3 0 ≡ (d, true))
    × IsWoken 5 cpu d
    × (try_to_wake_up env d 5 15 0 ≡ (d, false))
unfolding contains
try_to_wake_up_lem_example = try_to_wake_up_lem env cpu 5 3 0 15 0 refl refl refl refl rq-Inv

__schedule_lem_example :
    (d : Cpu) × (__schedule env false false none cpu ≡ some d) × IsSwitched 1 2 [] cpu d
unfolding contains class_ops remove
__schedule_lem_example =
    __schedule_lem env cpu 2 [] refl refl refl rq-Inv (omega arith) refl refl (λ r. refl)
      (λ r. refl)

rq-Placed : Placed rq
unfolding contains
rq-Placed = record { inv = rq-Inv; places = λ q h. ground arith }

-- Task 1 goes to sleep, and is woken.
goes_to_sleep : (d : Cpu) × (__schedule env false false none cpu ≡ some d) × IsSwitched 1 2 [] cpu d
unfolding contains class_ops remove
goes_to_sleep =
    __schedule_lem env cpu 2 [] refl refl refl rq-Inv (omega arith) refl refl (λ r. refl)
      (λ r. refl)

slept : Cpu
slept = goes_to_sleep.0

two_steps : Reach env cpu (try_to_wake_up env slept 1 3 0).0
unfolding slept class_ops remove
two_steps =
    Reach.step
      (Reach.step Reach.here (
        Step.sleeps cpu slept 2 [] refl refl refl (omega arith) refl refl (λ r. refl) (λ r. refl)
          goes_to_sleep.1))
      (Step.wakes slept 1 3 0 (goes_to_sleep.2.sched_class 1))

Reach-Placed_example : Placed ((try_to_wake_up env slept 1 3 0).0).rq
Reach-Placed_example = Reach-Placed env cpu (try_to_wake_up env slept 1 3 0).0 rq-Placed two_steps
