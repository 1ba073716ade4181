-- ===== src/Rt/Methods.antt =====
-- sched/rt.c: the handlers of rt_sched_class.
use linux_kernel.Prelude.{
  ℕ, zero, suc, ◌+◌, ◌-◌, ◌*◌, ◌/◌, ◌%◌, min, Bool, true, false, ◌&&◌, ◌||◌, not, Option, none,
  some, List, [], ◌∷◌, ◌++◌, if◌then◌else◌, ◌==◌, ltb, leb,
}
use linux_kernel.Prelude.Words.{add32, sub32, u32_mod}
use linux_kernel.Sched.{sched_rr, max_rt_prio, update}
use linux_kernel.Wrr.{remove}
use linux_kernel.Wrr.Queue.{contains}
use linux_kernel.Rt.{
  RtEnv, RtRq, RtEntity, RtState, set_rq, set_need_resched, rq_of, on_rt_rq, rt_se_prio,
  rt_rq_throttled, ancestors, enqueue_rt_entity, dequeue_rt_entity,
}
use linux_kernel.Rt.Runtime.{update_curr_rt}

-- 100 * HZ / 1000
abbrev pub rr_timeslice : RtEnv → ℕ
rr_timeslice e = 100 * e.hz / 1000

abbrev pub set_entity : RtState → ℕ → RtEntity → RtState
set_entity s se t = record s { entities = update s.entities se t }

-- ENQUEUE_WAKEUP is 1 and ENQUEUE_HEAD is 2.
unfoldable pub enqueue_task_rt : RtEnv → RtState → ℕ → (flags : ℕ) → RtState
enqueue_task_rt e s p flags =
    let woken =
      if flags % 2 == 1 then set_entity s p (record (s.entities p) { timeout = 0 }) else s in
    let t = enqueue_rt_entity e woken p (flags / 2 % 2 == 1) in
    record t { nr_running = add32 t.nr_running 1 }

unfoldable pub dequeue_task_rt : RtEnv → RtState → ℕ → RtState
dequeue_task_rt e s p =
    let t = dequeue_rt_entity e (update_curr_rt e s) p in
    record t { nr_running = sub32 t.nr_running 1 }

-- list_move and list_move_tail: out of the queue that it is in, and into the one of its priority.
abbrev pub move : RtRq → (prio : ℕ) → (se : ℕ) → (head : Bool) → RtRq
move r prio se head =
    let queue = λ (i : ℕ). remove se (r.queue i) in
    record r {
      queue = update queue prio (if head then se ∷ queue prio else queue prio ++ (se ∷ []));
    }

unfoldable pub requeue_rt_entity : RtState → ℕ → (head : Bool) → RtState
requeue_rt_entity s se head =
    if on_rt_rq s se
    then set_rq s (s.entities se).rt_rq (move (rq_of s se) (rt_se_prio s se) se head)
    else s

unfoldable pub requeue_path : RtState → (head : Bool) → List ℕ → RtState
requeue_path s head [] = s
requeue_path s head (se ∷ ups) = requeue_path (requeue_rt_entity s se head) head ups

unfoldable pub requeue_task_rt : RtState → ℕ → (head : Bool) → RtState
requeue_task_rt s p head = requeue_path s head (ancestors s p)

unfoldable pub yield_task_rt : RtState → RtState
yield_task_rt s = requeue_task_rt s s.curr false

unfoldable pub check_preempt_curr_rt : RtState → ℕ → RtState
check_preempt_curr_rt s p =
    if ltb (s.tasks p).prio (s.tasks s.curr).prio then set_need_resched s s.curr else s

-- The head of a list; on an empty one the source would take the list's head for an entity.
abbrev pub first : List ℕ → Option ℕ
first [] = none
first (x ∷ xs) = some x

-- `none` is the BUG_ON, and what is read off an empty queue.
unfoldable pub pick_next_rt_entity : RtEnv → RtRq → Option ℕ
pick_next_rt_entity e r =
    let idx = e.sched_find_first_bit r.bitmap in
    if leb max_rt_prio idx then none else first (r.queue idx)

-- The descent of _pick_next_task_rt, with fuel for the way down from a group's rt_rq.
unfoldable pub descend : RtEnv → RtState → ℕ → (g : ℕ) → Option ℕ
descend e s zero g = none
descend e s (suc n) g = elim (pick_next_rt_entity e (s.rqs g)) [
  | none ↦ none
  | some se ↦ elim (s.entities se).my_q [ none ↦ some se | some q ↦ descend e s n q ]
]

abbrev pub set_exec_start : RtState → ℕ → RtState
set_exec_start s p = record s {
  tasks = update s.tasks p (record (s.tasks p) { exec_start = s.clock_task });
}

-- The outer `none` is a BUG, the inner one is NULL. Without CONFIG_SMP, pick_next_task_rt is the same.
unfoldable pub _pick_next_task_rt : RtEnv → RtState → Option (Option ℕ × RtState)
_pick_next_task_rt e s =
    if ((s.rqs 0).rt_nr_running == 0) || rt_rq_throttled (s.rqs 0)
    then some (none, s)
    else elim (descend e s s.levels 0) [ none ↦ none | some p ↦ some (some p, set_exec_start s p) ]

unfoldable pub put_prev_task_rt : RtEnv → RtState → RtState
put_prev_task_rt e s = update_curr_rt e s

unfoldable pub prio_changed_rt : RtState → ℕ → (oldprio : ℕ) → RtState
prio_changed_rt s p oldprio =
    if not (s.tasks p).on_rq
    then s
    else if s.curr == p
    then if ltb oldprio (s.tasks p).prio then set_need_resched s p else s
    else if ltb (s.tasks p).prio (s.tasks s.curr).prio
    then set_need_resched s s.curr
    else s

-- switched_to_rt, without CONFIG_SMP.
unfoldable pub switched_to_rt : RtState → ℕ → RtState
switched_to_rt s p =
    if (s.tasks p).on_rq && not (s.curr == p) && ltb (s.tasks p).prio (s.tasks s.curr).prio
    then set_need_resched s s.curr
    else s

-- RLIM_INFINITY is ~0UL; DIV_ROUND_UP(min(soft, hard), USEC_PER_SEC / HZ) in 32 bits.
unfoldable pub watchdog : RtEnv → RtState → ℕ → RtState
watchdog e s p =
    let t = s.tasks p in
    let timeout = add32 (s.entities p).timeout 1 in
    let step = 1000000 / e.hz in
    let limit = (min t.rlim_cur t.rlim_max + step - 1) % u32_mod / step in
    let counted = set_entity s p (record (s.entities p) { timeout = timeout }) in
    if t.rlim_cur == u32_mod - 1
    then s
    else if ltb limit timeout
    then record counted { tasks = update s.tasks p (record t { sched_exp = t.sum_exec_runtime }) }
    else counted

-- The queue, among the first n, that an entity is linked in; empty if there is none.
unfoldable pub linked_in : ℕ → (ℕ → List ℕ) → ℕ → List ℕ
linked_in zero q se = []
linked_in (suc n) q se = let rest = linked_in n q se in if contains se (q n) then q n else rest

abbrev pub has_other : List ℕ → Bool
has_other [] = false
has_other (x ∷ []) = false
has_other (x ∷ y ∷ xs) = true

-- Whether run_list.prev != run_list.next: the entity is not the only one of its list.
unfoldable pub has_company : RtState → ℕ → Bool
has_company s se = has_other (linked_in max_rt_prio (rq_of s se).queue se)

-- The loop of task_tick_rt: is there an entity on the way up with another in its queue?
unfoldable pub any_company : RtState → List ℕ → Bool
any_company s [] = false
any_company s (se ∷ ups) = has_company s se || any_company s ups

-- The round-robin part of task_tick_rt, whose time slices only the policy SCHED_RR has.
unfoldable pub tick_slice : RtEnv → RtState → ℕ → RtState
tick_slice e s p =
    let slice = sub32 (s.entities p).time_slice 1 in
    let expired = set_entity s p (record (s.entities p) { time_slice = rr_timeslice e }) in
    if not ((s.tasks p).policy == sched_rr)
    then s
    else if not (slice == 0)
    then set_entity s p (record (s.entities p) { time_slice = slice })
    else if any_company expired (ancestors expired p)
    then set_need_resched (requeue_task_rt expired p false) p
    else expired

unfoldable pub task_tick_rt : RtEnv → RtState → ℕ → RtState
task_tick_rt e s p = tick_slice e (watchdog e (update_curr_rt e s) p) p

unfoldable pub set_curr_task_rt : RtState → RtState
set_curr_task_rt s = set_exec_start s s.curr

pub get_rr_interval_rt : RtEnv → RtState → ℕ → ℕ
get_rr_interval_rt e s p = if (s.tasks p).policy == sched_rr then rr_timeslice e else 0
