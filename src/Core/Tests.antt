-- ===== src/Core/Tests.antt =====
-- The theorems on core.c at concrete tasks, and runs of its functions.
use linux_kernel.Prelude.{◌≡◌, ◌≢◌, refl, true, false, none, some, arith, ◌⊎◌}
use linux_kernel.Prelude.Int.{ℤ, pos, negsuc, ◌+ℤ◌, ◌-ℤ◌}
use linux_kernel.Sched.{Class, Rq, sched_wrr, set_task}
use linux_kernel.Wrr.Samples.{groups, task, empty_rq, two_queued}
use linux_kernel.Core.Prio.{set_load_weight, can_nice, prio_to_nice}
use linux_kernel.Core.Prio.Laws.{IsInverse, set_load_weight-IsInverse}
use linux_kernel.Core.Classes.{Env, SchedClass, class_ops, pick_next_task}
use linux_kernel.Core.Picking.{wrr_or_below, pick_next_task_lem}
use linux_kernel.Wrr.{first_entry}
use linux_kernel.Core.Setscheduler.{Caller, Request, sched_setscheduler}
use linux_kernel.Core.Setscheduler.{change_policy}
use linux_kernel.Core.Setscheduler.Frames.{Frame, Leaves}
use linux_kernel.Core.Setscheduler.ToWrr.{Joined, change_policy_to_wrr}
use linux_kernel.Wrr.Queue.{contains, weights}
use linux_kernel.Wrr.Invariant.{Inv}
use linux_kernel.Core.Fork.{sched_fork}
use linux_kernel.Core.Fork.Wrr.{ForkLaws, forked_wrr_stays_fair}
use linux_kernel.Core.Nice.{set_user_nice, sys_nice, clamp}
use linux_kernel.Core.Nice.Wrr.{ignored, Reniced, set_user_nice_lem}

-- Classes that do nothing and have no task.
abbrev idle_class : SchedClass
idle_class = record {
  enqueue_task = λ rq p flags. rq;
  dequeue_task = λ rq p flags. rq;
  check_preempt_curr = λ rq p flags. rq;
  pick_next_task = λ rq. (none, rq);
  put_prev_task = λ rq p. rq;
  set_curr_task = λ rq. rq;
  task_tick = λ rq p. rq;
  task_fork = none;
  switched_from = none;
  switched_to = λ rq p. rq;
  prio_changed = λ rq p old. rq;
}

abbrev env : Env
env = record { cgroups = groups; others = λ c. idle_class; sched_clock = 50 }

abbrev root_user : Caller
root_user = record {
  capable = true;
  rlimit_rtprio = λ p. 0;
  rlimit_nice = λ p. 0;
  same_owner = λ p. true;
  security = λ p. pos 0;
  rt_bandwidth_enabled = false;
  group_rt_runtime = λ g. 0;
  group_is_autogroup = λ g. false;
  rt_mutex_getprio = λ t. t.normal_prio;
  rt_mutex_adjust_pi = λ rq p. rq;
}

set_load_weight-IsInverse_example :
    let e = (set_load_weight (task 2 10 4)).se in IsInverse e.load_weight e.inv_weight
set_load_weight-IsInverse_example = set_load_weight-IsInverse (task 2 10 4) 20 (omega arith) refl

fork_laws : ForkLaws env
fork_laws = record { policy = λ p. refl; sched_class = λ p. refl }

abbrev child_rq : Rq
child_rq = record empty_rq { tasks = λ p. sched_fork env (task 2 10 4) (task 2 10 4) }

forked_wrr_stays_fair_example :
    ((child_rq.tasks 5).sched_class ≡ Class.fair)
    × ((ret : ℤ) × (sched_setscheduler env root_user child_rq 5 (pos sched_wrr) (pos 0) true
          ≡ some (ret, child_rq)))
forked_wrr_stays_fair_example =
    forked_wrr_stays_fair env root_user child_rq 5 (task 2 10 4) (task 2 10 4) true fork_laws refl
      refl refl refl

-- Task 5 waits in the fair class.
abbrev fair_waiting : Rq
fair_waiting = set_task two_queued 5 (record (task 2 1 1) { policy = 0; sched_class = Class.fair })

fair_waiting-Inv : Inv fair_waiting
unfolding contains weights
fair_waiting-Inv = record { distinct = (refl, (refl, tt)); counted = refl; weighed = refl }

unmoved : (rq : Rq) → Frame 5 rq rq
unmoved rq = record {
  keeps = record { wrr = refl; tasks = λ xs. refl };
  curr = refl;
  on_rq = refl;
  sched_class = refl;
  sched_task_group = refl;
}

idle_class-Leaves : Leaves env root_user 5 Class.fair
unfolding class_ops
idle_class-Leaves = record {
  dequeue = λ rq flags. unmoved rq;
  switched = unmoved;
  adjust = unmoved;
}

abbrev wrr_request : Request
wrr_request = record { policy = sched_wrr; oldpolicy = none; reset_on_fork = false }

fair_ne : Class.fair ≢ Class.wrr
fair_ne h = ground arith

change_policy_to_wrr_example :
    Joined 5 fair_waiting (change_policy env root_user fair_waiting 5 wrr_request (pos 0))
unfolding contains
change_policy_to_wrr_example =
    change_policy_to_wrr env root_user fair_waiting 5 wrr_request (pos 0) Class.fair
      idle_class-Leaves fair_ne refl refl refl refl refl fair_waiting-Inv

two_queued-Inv : Inv two_queued
unfolding contains weights
two_queued-Inv = record { distinct = (refl, (refl, tt)); counted = refl; weighed = refl }

pick_next_task_lem_example :
    pick_next_task env two_queued ≡ wrr_or_below env two_queued (first_entry two_queued.wrr.queue)
unfolding class_ops
pick_next_task_lem_example =
    pick_next_task_lem env two_queued refl refl refl two_queued-Inv (omega arith)

set_user_nice_lem_example :
    ((ignored (two_queued.tasks 1) (pos 5) ≡ true)
      × (set_user_nice env two_queued 1 (pos 5) ≡ two_queued))
    ⊎ ((ignored (two_queued.tasks 1) (pos 5) ≡ false)
        × Reniced 1 (pos 5) two_queued (set_user_nice env two_queued 1 (pos 5)))
unfolding contains
set_user_nice_lem_example =
    set_user_nice_lem env two_queued 1 (pos 5) refl refl refl refl two_queued-Inv

-- nice(-45) of a task without the right to it, and nice(45) of the current task.
sys_nice_refused :
    sys_nice env two_queued 0 false (λ p n. pos 0) (negsuc 44) ≡ (negsuc 0, two_queued)
unfolding sys_nice clamp can_nice ◌+ℤ◌ prio_to_nice
sys_nice_refused = refl

sys_nice_most :
    sys_nice env two_queued 0 false (λ p n. pos 0) (pos 45)
    ≡ (pos 0, set_user_nice env two_queued 1 (pos 19))
unfolding sys_nice clamp ◌+ℤ◌ prio_to_nice ◌-ℤ◌
sys_nice_most = refl
