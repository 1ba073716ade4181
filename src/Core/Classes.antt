-- ===== src/Core/Classes.antt =====
-- struct sched_class as an interface, its wrr instance, and the functions of core.c that dispatch on
-- a task's class. The other classes are parameters: fair, stop and idle are not in the repository.
use linux_kernel.Prelude.{
  ℕ, ◌&&◌, ◌||◌, not, Option, none, some, List, if◌then◌else◌, ◌==◌, ltb, [], ◌∷◌,
}
use linux_kernel.Prelude.Int.{ℤ, pos, ltb_ℤ, eqb_ℤ}
use linux_kernel.Prelude.Words.{add64, sub64}
use linux_kernel.Sched.{Class, Task, Rq, resched_task, same_class, class_rank}
use linux_kernel.Wrr.{
  Cgroups, enqueue_task_wrr, dequeue_task_wrr, check_preempt_curr_wrr, pick_next_task_wrr,
  put_prev_task_wrr, set_curr_task_wrr, task_tick_wrr, task_fork_wrr, switched_to_wrr,
}

-- The function pointers that the modelled core calls. `none` is a NULL pointer.
pub record SchedClass : Type 0 where
  pub enqueue_task : Rq → ℕ → ℕ → Rq
  pub dequeue_task : Rq → ℕ → ℕ → Rq
  pub check_preempt_curr : Rq → ℕ → ℕ → Rq
  pub pick_next_task : Rq → Option ℕ × Rq
  pub put_prev_task : Rq → ℕ → Rq
  pub set_curr_task : Rq → Rq
  pub task_tick : Rq → ℕ → Rq
  pub task_fork : Option (Task → Task)
  pub switched_from : Option (Rq → ℕ → Rq)
  pub switched_to : Rq → ℕ → Rq
  pub prio_changed : Rq → ℕ → ℤ → Rq

-- What the core calls outside the modelled files. `sched_clock` is the clock's reading while the
-- run queue's lock is held.
pub record Env : Type 0 where
  pub cgroups : Cgroups
  pub others : Class → SchedClass
  pub sched_clock : ℕ

-- wrr_sched_class. Without CONFIG_SMP it has no switched_from.
unfoldable pub wrr_sched_class : Cgroups → SchedClass
wrr_sched_class g = record {
  enqueue_task = enqueue_task_wrr g;
  dequeue_task = λ rq p flags. dequeue_task_wrr rq p;
  check_preempt_curr = λ rq p flags. check_preempt_curr_wrr rq p;
  pick_next_task = λ rq. (pick_next_task_wrr rq, rq);
  put_prev_task = put_prev_task_wrr;
  set_curr_task = set_curr_task_wrr;
  task_tick = task_tick_wrr g;
  task_fork = some task_fork_wrr;
  switched_from = none;
  switched_to = switched_to_wrr g;
  prio_changed = λ rq p old. rq;
}

unfoldable pub class_ops : Env → Class → SchedClass
class_ops e Class.wrr = wrr_sched_class e.cgroups
class_ops e c = e.others c

abbrev pub class_of : Env → Rq → ℕ → SchedClass
class_of e rq p = class_ops e (rq.tasks p).sched_class

-- Without interrupt time accounting update_rq_clock_task adds the whole delta to clock_task.
unfoldable pub update_rq_clock : Env → Rq → Rq
update_rq_clock e rq =
    let delta = sub64 e.sched_clock rq.clock in
    if ltb_ℤ (pos 0) rq.skip_clock_update
    then rq
    else record rq { clock = add64 rq.clock delta; clock_task = add64 rq.clock_task delta }

unfoldable pub enqueue_task : Env → Rq → ℕ → ℕ → Rq
enqueue_task e rq p flags =
    let rq' = update_rq_clock e rq in (class_of e rq' p).enqueue_task rq' p flags

unfoldable pub dequeue_task : Env → Rq → ℕ → ℕ → Rq
dequeue_task e rq p flags =
    let rq' = update_rq_clock e rq in (class_of e rq' p).dequeue_task rq' p flags

unfoldable pub put_prev_task : Env → Rq → ℕ → Rq
put_prev_task e rq p =
    let rq' =
      if (rq.tasks p).on_rq || ltb_ℤ rq.skip_clock_update (pos 0)
      then update_rq_clock e rq
      else rq in
    (class_of e rq' p).put_prev_task rq' p

abbrev pub call_if : Option (Rq → ℕ → Rq) → Rq → ℕ → Rq
call_if none rq p = rq
call_if (some f) rq p = f rq p

unfoldable pub check_class_changed : Env → Rq → ℕ → Class → ℤ → Rq
check_class_changed e rq p prev oldprio =
    let now = rq.tasks p in
    if not (same_class prev now.sched_class)
    then (let rq' = call_if (class_ops e prev).switched_from rq p in
        (class_of e rq' p).switched_to rq' p)
    else if not (eqb_ℤ oldprio now.prio)
    then (class_of e rq p).prio_changed rq p oldprio
    else rq

-- The loop of check_preempt_curr meets the higher of two different classes first.
unfoldable pub check_preempt_curr : Env → Rq → ℕ → ℕ → Rq
check_preempt_curr e rq p flags =
    let c = (rq.tasks rq.curr).sched_class in
    let rq' =
      if same_class (rq.tasks p).sched_class c
      then (class_of e rq rq.curr).check_preempt_curr rq p flags
      else if ltb (class_rank (rq.tasks p).sched_class) (class_rank c)
      then resched_task rq rq.curr
      else rq in
    if (rq'.tasks rq'.curr).on_rq && (rq'.tasks rq'.curr).need_resched
    then record rq' { skip_clock_update = pos 1 }
    else rq'

-- for_each_class, from the class given on. `none` is the BUG() at its end.
unfoldable pub pick_from : Env → List Class → Rq → Option (ℕ × Rq)
pick_from e [] rq = none
pick_from e (c ∷ cs) rq =
    let (p, rq') = (class_ops e c).pick_next_task rq in
    let rest = pick_from e cs rq' in elim p [ some q ↦ some (q, rq') | none ↦ rest ]

abbrev pub all_classes : List Class
all_classes = Class.stop ∷ Class.rt ∷ Class.wrr ∷ Class.fair ∷ Class.idle ∷ []

unfoldable pub pick_next_task : Env → Rq → Option (ℕ × Rq)
pick_next_task e rq =
    let (p, rq') = (class_ops e Class.fair).pick_next_task rq in
    let all = pick_from e all_classes rq in
    if rq.nr_running == rq.cfs_h_nr_running
    then (let again = pick_from e all_classes rq' in
        elim p [ some q ↦ some (q, rq') | none ↦ again ])
    else all
