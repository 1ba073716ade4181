-- ===== src/Core/Running/Sleeping.antt =====
-- A task of the wrr class goes to sleep in __schedule.
use linux_kernel.Prelude.{
  if◌then◌else◌, ℕ, ◌<◌, ◌≡◌, refl, sym, ap, ◌∙◌, true, false, none, some, List, ◌∷◌, arith, ◌==◌,
  length,
}
use linux_kernel.Prelude.Words.{add32, sub32, add64, u32_mod}
use linux_kernel.Sched.{Class, Rq, WrrRq}
use linux_kernel.Wrr.{remove, first_entry}
use linux_kernel.Wrr.Queue.{contains, contains-remove, weights-update_same}
use linux_kernel.Wrr.Invariant.{Inv, Keeps, queued, Keeps-Inv}
use linux_kernel.Core.Classes.{Env, class_ops, dequeue_task, put_prev_task, pick_next_task}
use linux_kernel.Core.Picking.{wrr_or_below, pick_next_task_lem}
use linux_kernel.Core.Setscheduler.Frames.{itself}
use linux_kernel.Core.Running.{
  Cpu, task_running, set_on_rq, deactivate_task, dequeue_sleep, block_prev, clear_need_resched,
  count_switch, switch_to_next, __schedule,
}
use linux_kernel.Core.Running.Leaving.{
  PutAside, Removed, put_prev_task-PutAside, dequeue_task-Removed,
}

-- What a switch away from a task that went to sleep leaves.
pub record IsSwitched (prev next : ℕ) (rest : List ℕ) (c d : Cpu) : Type 0 where
  pub curr : d.rq.curr ≡ next
  pub queue : d.rq.wrr.queue ≡ next ∷ rest
  pub inv : Inv d.rq
  pub on_rq : (d.rq.tasks prev).on_rq ≡ false
  pub state : d.state ≡ c.state
  pub sched_class : (q : ℕ) → (d.rq.tasks q).sched_class ≡ (c.rq.tasks q).sched_class
  pub runnable :
      (q : ℕ) → (d.rq.tasks q).on_rq ≡ (if q == prev then false else (c.rq.tasks q).on_rq)
  pub nvcsw : d.nvcsw prev ≡ add32 (c.nvcsw prev) 1
  pub nr_switches : d.nr_switches ≡ add64 c.nr_switches 1

other_task : (p next : ℕ) (rest : List ℕ) → contains p (next ∷ rest) ≡ false → (p == next) ≡ false
unfolding contains
other_task p next rest h = ground arith

slept_class :
    (rq : Rq) (p q : ℕ) → ((set_on_rq rq p false).tasks q).sched_class ≡ (rq.tasks q).sched_class
slept_class rq p q = ground arith

slept_on_rq :
    (rq : Rq) (p q : ℕ)
    → ((set_on_rq rq p false).tasks q).on_rq ≡ (if q == p then false else (rq.tasks q).on_rq)
slept_on_rq rq p q = ground arith

cleared_class :
    (rq : Rq) (p q : ℕ) → ((clear_need_resched rq p).tasks q).sched_class ≡ (rq.tasks q).sched_class
cleared_class rq p q = ground arith

cleared_on_rq : (rq : Rq) (p q : ℕ) → ((clear_need_resched rq p).tasks q).on_rq ≡ (rq.tasks q).on_rq
cleared_on_rq rq p q = ground arith

module _ (e : Env) (c : Cpu) (next : ℕ) (rest : List ℕ) where
  abbrev prev : ℕ
  prev = c.rq.curr

  abbrev slept : Rq
  slept = set_on_rq (dequeue_task e c.rq prev dequeue_sleep) prev false

  abbrev ready : Rq
  ready = put_prev_task e slept prev

  slept-PutAside :
      (c.rq.tasks prev).sched_class ≡ Class.wrr
      → Removed prev c.rq (dequeue_task e c.rq prev dequeue_sleep)
      → PutAside slept ready
  slept-PutAside h r =
      let out = dequeue_task e c.rq prev dequeue_sleep in
      let k : Keeps out slept = record {
        wrr = refl;
        tasks = λ xs. weights-update_same out.tasks prev _ xs refl;
      } in
      put_prev_task-PutAside e slept prev (rw (itself prev) (r.sched_class prev ∙ h))
        (Keeps-Inv k r.inv)

  -- For a current task of the wrr class that is queued and in a sleeping state, with another task
  -- behind it, the bookkeeping invariant, fewer than 2^32 tasks left in the queue, tasks outside the
  -- fair class left, neither a stop task nor a real-time task to run, and no worker of a workqueue to
  -- be woken in its place: __schedule, neither preempting nor interrupted by a signal, takes it off
  -- the queue and the run queue, switches to the first of the tasks left, counts the switch, and keeps
  -- the bookkeeping, every task's state and class, and the on_rq of the others.
  pub __schedule_lem :
      (c.rq.tasks c.rq.curr).sched_class ≡ Class.wrr
      → queued c.rq.curr c.rq ≡ true
      → remove c.rq.curr c.rq.wrr.queue ≡ next ∷ rest
      → Inv c.rq
      → length (next ∷ rest) < u32_mod
      → (c.state c.rq.curr == task_running) ≡ false
      → (sub32 c.rq.nr_running 1 == c.rq.cfs_h_nr_running) ≡ false
      → ((r : Rq) → (class_ops e Class.stop).pick_next_task r ≡ (none, r))
      → ((r : Rq) → (class_ops e Class.rt).pick_next_task r ≡ (none, r))
      → (d : Cpu) × (__schedule e false false none c ≡ some d) × IsSwitched c.rq.curr next rest c d
  unfolding __schedule switch_to_next block_prev deactivate_task
  __schedule_lem h q l v n s f stop rt =
      let r = dequeue_task-Removed e c.rq prev dequeue_sleep h q v in
      let p = slept-PutAside h r in
      let left : ready.wrr.queue ≡ next ∷ rest =
        ap (λ (w : WrrRq). w.queue) p.same.wrr ∙ r.queue ∙ l in
      let few = ap (λ xs. length xs) left in
      let busy : (ready.nr_running == ready.cfs_h_nr_running) ≡ false =
        rw (p.same.nr_running, p.same.fair, r.nr_running, r.fair) f in
      let picked : pick_next_task e ready ≡ some (next, ready) =
        pick_next_task_lem e ready busy (stop ready) (rt ready) p.inv (rw left n)
        ∙ ap (λ xs. wrr_or_below e ready (first_entry xs)) left in
      let apart =
        other_task prev next rest
          (ap (contains prev) (sym l) ∙ contains-remove prev c.rq.wrr.queue v.distinct) in
      let blocked = block_prev e none false c prev in
      let cleared = record blocked { rq = clear_need_resched ready prev } in
      let k : Keeps ready (clear_need_resched ready prev) = record {
        wrr = refl;
        tasks = λ xs. weights-update_same ready.tasks prev _ xs refl;
      } in
      let inv = Keeps-Inv k p.inv in
      (
        count_switch true cleared prev next,
        rw (s, __schedule) (rw (picked, switch_to_next) (rw (apart, switch_to_next) refl)),
        record {
          curr = refl;
          queue = left;
          inv = record { distinct = inv.distinct; counted = inv.counted; weighed = inv.weighed };
          on_rq = rw (itself prev) (p.same.on_rq prev ∙ rw (itself prev) refl);
          state = refl;
          sched_class = λ q.
              cleared_class ready prev q
              ∙ p.same.sched_class q
              ∙ slept_class (dequeue_task e c.rq prev dequeue_sleep) prev q
              ∙ r.sched_class q;
          runnable = λ q.
              cleared_on_rq ready prev q
              ∙ p.same.on_rq q
              ∙ slept_on_rq (dequeue_task e c.rq prev dequeue_sleep) prev q
              ∙ ap (λ b. if q == prev then false else b) (r.on_rq q);
          nvcsw = rw (itself prev) refl;
          nr_switches = refl;
        },
      )
