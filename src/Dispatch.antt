-- ===== src/Dispatch.antt =====
-- "project_Process Scheduler/src": the counter `ctx` that the patch adds to struct task_struct in
-- sched.h, cleared by copy_process (fork.c), counted by __schedule (core.c) and printed in
-- /proc/<pid>/ctx (base.c). The run queues of the processors share the tasks; what the scheduling
-- classes keep is a parameter. The sanity checks of schedule_debug, the clock and context_switch change
-- nothing that is modelled. `unsigned long` has 64 bits.
pub mod Counting
pub mod Balance
pub mod Printing
mod Tests
use linux_kernel.Prelude.{
  ℕ, ◌+◌, ◌/◌, ◌%◌, Bool, true, false, ◌&&◌, not, List, [], ◌∷◌, ◌++◌, if◌then◌else◌, ◌==◌,
}
use linux_kernel.Prelude.Words.{add32, add64}
use linux_kernel.Prelude.Int.{ℤ, pos}

-- struct task_struct; `frozen` is the flag PF_FROZEN.
pub record Task : Type 0 where
  pub state : ℕ
  pub frozen : Bool
  pub in_iowait : Bool
  pub on_rq : ℕ
  pub ctx : ℕ
  pub nvcsw : ℕ
  pub nivcsw : ℕ

-- struct rq of one processor.
pub record Rq (Q : Type 0) : Type 0 where
  pub curr : ℕ
  pub nr_switches : ℕ
  pub nr_uninterruptible : ℕ
  pub nr_iowait : ℕ
  pub classes : Q

pub record State (Q : Type 0) : Type 0 where
  pub rqs : ℕ → Rq Q
  pub tasks : ℕ → Task

-- What the classes do: dequeue_task(rq, p, flags), and pick_next_task(rq, prev), which gives a task.
pub record Classes (Q : Type 0) : Type 0 where
  pub dequeue_task : Q → ℕ → ℕ → Q
  pub pick_next_task : Q → ℕ → ℕ × Q

abbrev pub task_running : ℕ
task_running = 0

abbrev pub task_new : ℕ
task_new = 2048

-- DEQUEUE_SLEEP | DEQUEUE_NOCLOCK
abbrev pub dequeue_flags : ℕ
dequeue_flags = 9

abbrev pub update {ℓ} : {A : Type ℓ} → (ℕ → A) → ℕ → A → ℕ → A
update f i a j = if j == i then a else f j

-- TASK_UNINTERRUPTIBLE is 2, TASK_NOLOAD is 1024.
abbrev pub task_contributes_to_load : Task → Bool
task_contributes_to_load t = not (t.state / 2 % 2 == 0) && not t.frozen && t.state / 1024 % 2 == 0

-- What happens to a machine. `change` is all the rest of the kernel, which writes neither the
-- counts nor `curr`: it wakes tasks, puts them on queues, sets their states.
pub data Event (Q : Type 0) : Type 0 where
  schedule : (preempt signal_pending : Bool) (cpu : ℕ) → Event Q
  fork : (orig p : ℕ) → Event Q
  change :
      (p state on_rq : ℕ) (frozen in_iowait : Bool) (cpu nr_uninterruptible nr_iowait : ℕ) (q : Q)
      → Event Q

-- dup_task_struct copies the parent: *dst = *src.
abbrev pub arch_dup_task_struct : Task → Task
arch_dup_task_struct src = src

abbrev pub clear_ctx : Task → Task
clear_ctx t = record t { ctx = 0 }

-- What sched_fork does to these fields: the task is new, and on no queue.
abbrev pub sched_fork_state : Task → Task
sched_fork_state t = record t { on_rq = 0; state = task_new }

-- What copy_mm does to these fields.
abbrev pub copy_mm_counts : Task → Task
copy_mm_counts t = record t { nvcsw = 0; nivcsw = 0 }

module _ {Q : Type 0} (c : Classes Q) where
  abbrev pub set_task : State Q → ℕ → Task → State Q
  set_task s p t = record s { tasks = update s.tasks p t }

  abbrev pub set_rq : State Q → ℕ → Rq Q → State Q
  set_rq s cpu rq = record s { rqs = update s.rqs cpu rq }

  -- deactivate_task(rq, p, DEQUEUE_SLEEP | DEQUEUE_NOCLOCK)
  unfoldable pub deactivate_task : State Q → ℕ → ℕ → State Q
  deactivate_task s cpu p =
      let t = s.tasks p in
      let rq = s.rqs cpu in
      set_rq (set_task s p (record t { on_rq = 0 })) cpu (record rq {
        nr_uninterruptible =
            if task_contributes_to_load t
            then add64 rq.nr_uninterruptible 1
            else rq.nr_uninterruptible;
        classes = c.dequeue_task rq.classes p dequeue_flags;
      })

  -- The part of __schedule that puts prev to sleep or lets a signal keep it running.
  unfoldable pub block_prev : (signal_pending : Bool) → State Q → ℕ → ℕ → State Q
  block_prev signal_pending s cpu prev =
      let t = s.tasks prev in
      let slept = deactivate_task s cpu prev in
      let rq = slept.rqs cpu in
      if signal_pending
      then set_task s prev (record t { state = task_running })
      else if t.in_iowait
      then set_rq slept cpu (record rq { nr_iowait = add32 rq.nr_iowait 1 })
      else slept

  -- `switch_count` points to nivcsw of prev, or to nvcsw.
  abbrev pub count_switch : (voluntary : Bool) → Task → Task
  count_switch voluntary t =
      if voluntary
      then record t { nvcsw = add64 t.nvcsw 1 }
      else record t { nivcsw = add64 t.nivcsw 1 }

  abbrev pub count_dispatch : Task → Task
  count_dispatch t = record t { ctx = add32 t.ctx 1 }

  -- From pick_next_task on.
  unfoldable pub switch_to_next : (voluntary : Bool) → State Q → ℕ → ℕ → State Q
  switch_to_next voluntary s cpu prev =
      let rq = s.rqs cpu in
      let (next, classes) = c.pick_next_task rq.classes prev in
      let counted = set_task s next (count_dispatch (s.tasks next)) in
      if not (prev == next)
      then set_rq (set_task counted prev (count_switch voluntary (counted.tasks prev))) cpu
          (record rq { curr = next; nr_switches = add64 rq.nr_switches 1; classes = classes })
      else set_rq counted cpu (record rq { classes = classes })

  -- __schedule(preempt) on processor `cpu`; `signal_pending` is what signal_pending_state says.
  unfoldable pub __schedule : (preempt signal_pending : Bool) → ℕ → State Q → State Q
  __schedule preempt signal_pending cpu s =
      let prev = (s.rqs cpu).curr in
      if not preempt && not ((s.tasks prev).state == task_running)
      then switch_to_next true (block_prev signal_pending s cpu prev) cpu prev
      else switch_to_next false s cpu prev

  -- copy_process as far as it sets these fields, in its order; a fork that fails frees the new task.
  unfoldable pub copy_process : (orig p : ℕ) → State Q → State Q
  copy_process orig p s =
      set_task s p
        (copy_mm_counts (sched_fork_state (clear_ctx (arch_dup_task_struct (s.tasks orig)))))

  unfoldable pub happen : Event Q → State Q → State Q
  happen (Event.schedule preempt signal_pending cpu) s = __schedule preempt signal_pending cpu s
  happen (Event.fork orig p) s = copy_process orig p s
  happen (Event.change p state on_rq frozen in_iowait cpu nr_uninterruptible nr_iowait q) s =
      set_rq
        (set_task s p (record (s.tasks p) {
          state = state;
          on_rq = on_rq;
          frozen = frozen;
          in_iowait = in_iowait;
        }))
        cpu
        (record (s.rqs cpu) {
          nr_uninterruptible = nr_uninterruptible;
          nr_iowait = nr_iowait;
          classes = q;
        })

  unfoldable pub run : List (Event Q) → State Q → State Q
  run [] s = s
  run (e ∷ es) s = run es (happen e s)

-- proc_pid_ctx, which appends to the text `m` and returns 0; `print_u` is what seq_printf does with "%u".
unfoldable pub proc_pid_ctx : (print_u : ℕ → List ℕ) → Task → List ℕ → List ℕ × ℤ
proc_pid_ctx print_u task m = (m ++ print_u task.ctx ++ (10 ∷ []), pos 0)
