-- ===== src/Rt.antt =====
-- "project_Android Kernel Scheduler/scheduler/sched/rt.c": the real-time class, whose handlers wrr.c
-- follows, with CONFIG_RT_GROUP_SCHED and without CONFIG_SMP: its entities and priority arrays.
-- A sched_rt_entity is a number, that of its task for a task's entity; an rt_rq is the number of its
-- task group, 0 for `rq->rt`. printk, WARN_ON and the locks are left out.
pub mod Structs
pub mod Runtime
pub mod Methods
pub mod Array
pub mod Linking
pub mod Changes
pub mod Invariant
pub mod Leaving
pub mod Entering
pub mod Paths
pub mod Queueing
pub mod Groups
pub mod Hierarchy
pub mod Agreement
pub mod Accounting
pub mod Requeueing
pub mod Replacing
pub mod Handlers
pub mod Steps
pub mod Picking
pub mod Frames
pub mod Period
pub mod Throttling
pub mod Returning
pub mod Mates
pub mod Ticks
pub mod Robin
pub mod Samples
mod Tests
pub use Structs.*
use linux_kernel.Prelude.{
  ℕ, zero, suc, ◌-◌, ◌^◌, Bool, true, false, ◌&&◌, ◌||◌, not, Option, none, some, List, [], ◌∷◌,
  ◌++◌, if◌then◌else◌, ◌==◌, ltb,
}
use linux_kernel.Prelude.Words.{add32, sub32, u64_mod}
use linux_kernel.Prelude.Int.{ℤ}
use linux_kernel.Sched.{Class, max_rt_prio, update}
use linux_kernel.Wrr.{remove}
use linux_kernel.Wrr.Queue.{contains}

unfoldable pub init_rt_rq : RtRq → RtRq
init_rt_rq r = record r {
  queue = λ i. if ltb i max_rt_prio then [] else r.queue i;
  bitmap = λ i. if i == max_rt_prio then true else if ltb i max_rt_prio then false else r.bitmap i;
  rt_time = 0;
  rt_throttled = false;
  rt_runtime = 0;
}

-- init_tg_rt_entry: `rt_se` is `none` for the root; a group below another has that one's entity as parent.
unfoldable pub init_tg_rt_entry : RtState → (g : ℕ) → (rt_se parent : Option ℕ) → RtState
init_tg_rt_entry s g rt_se parent =
    let r = record s {
      rqs =
          update s.rqs g
            (record (s.rqs g) { highest_prio = max_rt_prio; rt_nr_boosted = 0; rt_se = rt_se });
    } in
    elim rt_se [
      | none ↦ r
      | some se ↦ record r {
        entities = update s.entities se (record (s.entities se) {
          rt_rq = elim parent [
            | none ↦ 0
            | some p ↦ elim (s.entities p).my_q [ none ↦ 0 | some q ↦ q ]
          ];
          my_q = some g;
          parent = parent;
        });
      }
    ]

-- for_each_sched_rt_entity, with fuel for the way to the root.
unfoldable pub path : ℕ → (ℕ → RtEntity) → ℕ → List ℕ
path zero es se = []
path (suc n) es se =
    let parent = (es se).parent in se ∷ elim parent [ none ↦ [] | some p ↦ path n es p ]

-- Whether an entity is linked in one of the first n queues.
unfoldable pub on_queues : ℕ → (ℕ → List ℕ) → ℕ → Bool
on_queues zero q se = false
on_queues (suc n) q se = contains se (q n) || on_queues n q se

abbrev pub on_rt_rq : RtState → ℕ → Bool
on_rt_rq s se = on_queues max_rt_prio (rq_of s se).queue se

unfoldable pub rt_se_prio : RtState → ℕ → ℕ
rt_se_prio s se = elim (s.entities se).my_q [
  | none ↦ (s.tasks se).prio
  | some g ↦ (s.rqs g).highest_prio
]

abbrev pub rt_rq_throttled : RtRq → Bool
rt_rq_throttled r = r.rt_throttled && (r.rt_nr_boosted == 0)

unfoldable pub rt_se_boosted : RtState → ℕ → Bool
rt_se_boosted s se = elim (s.entities se).my_q [
  | none ↦ not ((s.tasks se).prio == (s.tasks se).normal_prio)
  | some g ↦ not ((s.rqs g).rt_nr_boosted == 0)
]

unfoldable pub start_rt_bandwidth : Bool → RtBandwidth → RtBandwidth
start_rt_bandwidth enabled b =
    if not enabled || (b.rt_runtime == runtime_inf)
    then b
    else if b.timer_active
    then b
    else record b { timer_active = true }

abbrev pub inc_rt_prio : RtRq → ℕ → RtRq
inc_rt_prio r prio = if ltb prio r.highest_prio then record r { highest_prio = prio } else r

unfoldable pub dec_rt_prio : RtEnv → RtRq → ℕ → RtRq
dec_rt_prio e r prio =
    if r.rt_nr_running == 0
    then record r { highest_prio = max_rt_prio }
    else if prio == r.highest_prio
    then record r { highest_prio = e.sched_find_first_bit r.bitmap }
    else r

abbrev pub inc_rt_group : Bool → (boosted : Bool) → RtRq → RtRq
inc_rt_group enabled boosted r = record r {
  rt_nr_boosted = if boosted then add32 r.rt_nr_boosted 1 else r.rt_nr_boosted;
  rt_bandwidth = start_rt_bandwidth enabled r.rt_bandwidth;
}

abbrev pub dec_rt_group : (boosted : Bool) → RtRq → RtRq
dec_rt_group boosted r = record r {
  rt_nr_boosted = if boosted then sub32 r.rt_nr_boosted 1 else r.rt_nr_boosted;
}

-- The priority and the boost of the entity are those before the call.
unfoldable pub inc_rt_tasks : (enabled boosted : Bool) → (prio : ℕ) → RtRq → RtRq
inc_rt_tasks enabled boosted prio r =
    inc_rt_group enabled boosted
      (inc_rt_prio (record r { rt_nr_running = add32 r.rt_nr_running 1 }) prio)

unfoldable pub dec_rt_tasks : RtEnv → (boosted : Bool) → (prio : ℕ) → RtRq → RtRq
dec_rt_tasks e boosted prio r =
    dec_rt_group boosted (dec_rt_prio e (record r { rt_nr_running = sub32 r.rt_nr_running 1 }) prio)

-- Linking an entity into a queue, and unlinking it from the one that it is in.
unfoldable pub link : RtRq → (prio : ℕ) → (se : ℕ) → (head : Bool) → RtRq
link r prio se head = record r {
  queue = update r.queue prio (if head then se ∷ r.queue prio else r.queue prio ++ (se ∷ []));
  bitmap = update r.bitmap prio true;
}

abbrev pub is_empty : List ℕ → Bool
is_empty [] = true
is_empty (x ∷ xs) = false

unfoldable pub unlink : RtRq → (prio : ℕ) → (se : ℕ) → RtRq
unlink r prio se =
    let queue = λ (i : ℕ). remove se (r.queue i) in
    record r {
      queue = queue;
      bitmap = if is_empty (queue prio) then update r.bitmap prio false else r.bitmap;
    }

-- Whether a group's entity stays out: its group is throttled or empty.
unfoldable pub left_out : RtState → ℕ → Bool
left_out s se = elim (s.entities se).my_q [
  | none ↦ false
  | some g ↦ rt_rq_throttled (s.rqs g) || ((s.rqs g).rt_nr_running == 0)
]

unfoldable pub __enqueue_rt_entity : RtState → ℕ → Bool → RtState
__enqueue_rt_entity s se head =
    let g = (s.entities se).rt_rq in
    let r = s.rqs g in
    let prio = rt_se_prio s se in
    if left_out s se then s else record s {
      leaf_rt_rq_list = if r.rt_nr_running == 0 then g ∷ s.leaf_rt_rq_list else s.leaf_rt_rq_list;
      rqs =
          update s.rqs g
            (inc_rt_tasks s.bandwidth_enabled (rt_se_boosted s se) prio (link r prio se head));
    }

unfoldable pub __dequeue_rt_entity : RtEnv → RtState → ℕ → RtState
__dequeue_rt_entity e s se =
    let g = (s.entities se).rt_rq in
    let prio = rt_se_prio s se in
    let r = dec_rt_tasks e (rt_se_boosted s se) prio (unlink (s.rqs g) prio se) in
    record s {
      rqs = update s.rqs g r;
      leaf_rt_rq_list =
          if r.rt_nr_running == 0 then remove g s.leaf_rt_rq_list else s.leaf_rt_rq_list;
    }

-- The way up from an entity, and the links `back` of dequeue_rt_stack, which lead down again.
abbrev pub ancestors : RtState → ℕ → List ℕ
ancestors s se = path s.levels s.entities se

-- The loop of dequeue_rt_stack over a path from the entity up, whose last element is dequeued first.
unfoldable pub dequeue_path : RtEnv → RtState → List ℕ → RtState
dequeue_path e s [] = s
dequeue_path e s (se ∷ ups) =
    let t = dequeue_path e s ups in if on_rt_rq t se then __dequeue_rt_entity e t se else t

unfoldable pub dequeue_rt_stack : RtEnv → RtState → ℕ → RtState
dequeue_rt_stack e s se = dequeue_path e s (ancestors s se)

unfoldable pub enqueue_path : RtState → Bool → List ℕ → RtState
enqueue_path s head [] = s
enqueue_path s head (se ∷ ups) = enqueue_path (__enqueue_rt_entity s se head) head ups

unfoldable pub enqueue_rt_entity : RtEnv → RtState → ℕ → Bool → RtState
enqueue_rt_entity e s se head = enqueue_path (dequeue_rt_stack e s se) head (ancestors s se)

-- Whether dequeue_rt_entity puts an entity of the path back: it stands for a group that still has tasks.
unfoldable pub still_busy : RtState → ℕ → Bool
still_busy s se = elim (s.entities se).my_q [
  | none ↦ false
  | some g ↦ not ((s.rqs g).rt_nr_running == 0)
]

unfoldable pub requeue_groups : RtState → List ℕ → RtState
requeue_groups s [] = s
requeue_groups s (se ∷ ups) =
    requeue_groups (if still_busy s se then __enqueue_rt_entity s se false else s) ups

unfoldable pub dequeue_rt_entity : RtEnv → RtState → ℕ → RtState
dequeue_rt_entity e s se = requeue_groups (dequeue_rt_stack e s se) (ancestors s se)
