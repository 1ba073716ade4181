-- ===== src/Core/Running.antt =====
-- sched/core.c: activate_task and deactivate_task, waking (try_to_wake_up with its parts,
-- try_to_wake_up_local, wake_up_new_task), the tick, and one round of __schedule, without CONFIG_SMP.
-- Statistics, messages and the workqueues' own bookkeeping are left out.
pub mod Waking
pub mod Leaving
pub mod Sleeping
pub mod Placed
mod Tests
use Prim.Native.Nat.{bit_and}
use linux_kernel.Prelude.{
  ℕ, ◌+◌, Bool, true, false, ◌&&◌, not, Option, none, some, if◌then◌else◌, ◌==◌,
}
use linux_kernel.Prelude.Words.{add32, sub32, add64}
use linux_kernel.Prelude.Int.{pos}
use linux_kernel.Sched.{Task, Rq, set_task, update}
use linux_kernel.Core.Classes.{
  Env, class_of, update_rq_clock, enqueue_task, dequeue_task, check_preempt_curr, put_prev_task,
  pick_next_task,
}

-- The run queue of the processor, and what else these functions read and write of tasks and rq:
-- `frozen` is the flag PF_FROZEN.
pub record Cpu : Type 0 where
  pub rq : Rq
  pub state : ℕ → ℕ
  pub frozen : ℕ → Bool
  pub nvcsw : ℕ → ℕ
  pub nivcsw : ℕ → ℕ
  pub nr_uninterruptible : ℕ
  pub nr_switches : ℕ

abbrev pub task_running : ℕ
task_running = 0

-- TASK_INTERRUPTIBLE | TASK_UNINTERRUPTIBLE
abbrev pub task_normal : ℕ
task_normal = 3

abbrev pub enqueue_wakeup : ℕ
enqueue_wakeup = 1

abbrev pub dequeue_sleep : ℕ
dequeue_sleep = 1

abbrev pub task_contributes_to_load : Cpu → ℕ → Bool
task_contributes_to_load c p = not (bit_and (c.state p) 2 == 0) && not (c.frozen p)

abbrev pub set_on_rq : Rq → ℕ → Bool → Rq
set_on_rq rq p b = set_task rq p (record (rq.tasks p) { on_rq = b })

unfoldable pub activate_task : Env → Cpu → ℕ → ℕ → Cpu
activate_task e c p flags = record c {
  nr_uninterruptible =
      if task_contributes_to_load c p then sub32 c.nr_uninterruptible 1 else c.nr_uninterruptible;
  rq = enqueue_task e c.rq p flags;
}

unfoldable pub deactivate_task : Env → Cpu → ℕ → ℕ → Cpu
deactivate_task e c p flags = record c {
  nr_uninterruptible =
      if task_contributes_to_load c p then add32 c.nr_uninterruptible 1 else c.nr_uninterruptible;
  rq = dequeue_task e c.rq p flags;
}

unfoldable pub ttwu_activate : Env → Cpu → ℕ → ℕ → Cpu
ttwu_activate e c p en_flags =
    let a = activate_task e c p en_flags in record a { rq = set_on_rq a.rq p true }

unfoldable pub ttwu_do_wakeup : Env → Cpu → ℕ → ℕ → Cpu
ttwu_do_wakeup e c p wake_flags = record c {
  rq = check_preempt_curr e c.rq p wake_flags;
  state = update c.state p task_running;
}

unfoldable pub ttwu_do_activate : Env → Cpu → ℕ → ℕ → Cpu
ttwu_do_activate e c p wake_flags =
    ttwu_do_wakeup e (ttwu_activate e c p enqueue_wakeup) p wake_flags

unfoldable pub ttwu_remote : Env → Cpu → ℕ → ℕ → Cpu × Bool
ttwu_remote e c p wake_flags =
    if (c.rq.tasks p).on_rq then (ttwu_do_wakeup e c p wake_flags, true) else (c, false)

-- ttwu_queue is ttwu_do_activate with no flags.
unfoldable pub try_to_wake_up : Env → Cpu → ℕ → (state : ℕ) → (wake_flags : ℕ) → Cpu × Bool
try_to_wake_up e c p state wake_flags =
    let (woken, ret) = ttwu_remote e c p wake_flags in
    if bit_and (c.state p) state == 0
    then (c, false)
    else if (c.rq.tasks p).on_rq && ret
    then (woken, true)
    else (ttwu_do_activate e c p 0, true)

unfoldable pub try_to_wake_up_local : Env → Cpu → ℕ → Cpu
try_to_wake_up_local e c p =
    if p == c.rq.curr
    then c
    else if bit_and (c.state p) task_normal == 0
    then c
    else ttwu_do_wakeup e
        (if not (c.rq.tasks p).on_rq then ttwu_activate e c p enqueue_wakeup else c) p 0

-- TASK_ALL
abbrev pub wake_up_process : Env → Cpu → ℕ → Cpu × Bool
wake_up_process e c p = try_to_wake_up e c p task_normal 0
  where
    task_normal : ℕ
    task_normal = 3

-- WF_FORK is 2.
unfoldable pub wake_up_new_task : Env → Cpu → ℕ → Cpu
wake_up_new_task e c p =
    let a = activate_task e c p 0 in
    record a { rq = check_preempt_curr e (set_on_rq a.rq p true) p 2 }

-- scheduler_tick, without the load average.
unfoldable pub scheduler_tick : Env → Rq → Rq
scheduler_tick e rq =
    let rq' = update_rq_clock e rq in (class_of e rq' rq.curr).task_tick rq' rq.curr

-- The part of __schedule that puts prev to sleep; a worker's place may be taken by another.
unfoldable pub block_prev : Env → (to_wakeup : Option ℕ) → (signal_pending : Bool) → Cpu → ℕ → Cpu
block_prev e to_wakeup signal_pending c prev =
    let d = deactivate_task e c prev dequeue_sleep in
    let slept = record d { rq = set_on_rq d.rq prev false } in
    if signal_pending
    then record c { state = update c.state prev task_running }
    else elim to_wakeup [ none ↦ slept | some w ↦ try_to_wake_up_local e slept w ]

abbrev pub clear_need_resched : Rq → ℕ → Rq
clear_need_resched rq p = record (set_task rq p (record (rq.tasks p) { need_resched = false })) {
  skip_clock_update = pos 0;
}

-- prev != next: the switch is counted.
abbrev pub count_switch : (voluntary : Bool) → Cpu → ℕ → ℕ → Cpu
count_switch voluntary c prev next =
    let switched = record c {
      nr_switches = add64 c.nr_switches 1;
      rq = record (c.rq) { curr = next };
    } in
    if voluntary
    then record switched { nvcsw = update c.nvcsw prev (add32 (c.nvcsw prev) 1) }
    else record switched { nivcsw = update c.nivcsw prev (add32 (c.nivcsw prev) 1) }

-- From put_prev_task on; `none` is the BUG() of pick_next_task.
unfoldable pub switch_to_next : Env → (voluntary : Bool) → Cpu → ℕ → Option Cpu
switch_to_next e voluntary c prev = elim (pick_next_task e (put_prev_task e c.rq prev)) [
  | none ↦ none
  | some (next, rq) ↦
      (let cleared = record c { rq = clear_need_resched rq prev } in
        if not (prev == next)
        then some (count_switch voluntary cleared prev next)
        else some cleared)
]

-- One round of __schedule, up to its test of need_resched.
unfoldable pub __schedule :
    Env → (preempt_active signal_pending : Bool) → (to_wakeup : Option ℕ) → Cpu → Option Cpu
__schedule e preempt_active signal_pending to_wakeup c =
    let prev = c.rq.curr in
    if not (c.state prev == task_running) && not preempt_active
    then switch_to_next e true (block_prev e to_wakeup signal_pending c prev) prev
    else switch_to_next e false c prev
