-- ===== src/Rt/Samples.antt =====
-- A processor with one group of real-time tasks: tasks 1 and 2 are in group 1, whose entity is 101; task 3
-- is in the root group.
use linux_kernel.Prelude.{
  ℕ, zero, suc, ◌+◌, ◌<◌, ◌≤◌, ◌≡◌, refl, ap, ◌∙◌, Bool, true, false, ◌||◌, none, some, [], arith,
  inl, inr, if◌then◌else◌, ◌==◌, Bool-cases,
}
use linux_kernel.Prelude.Int.{pos}
use linux_kernel.Sched.{Class, sched_rr, max_rt_prio}
use linux_kernel.Wrr.Queue.{contains}
use linux_kernel.Rt.{RtEnv, RtRq, RtEntity, RtTask, RtState, on_queues, rt_se_prio}
use linux_kernel.Rt.Array.{FindsFirst, total, IsArray}
use linux_kernel.Rt.Invariant.{IsTree, IsSound}

-- The first set bit, from i on, among n.
unfoldable pub scan : ℕ → ℕ → (ℕ → Bool) → ℕ
scan zero i b = i
scan (suc n) i b = let rest = scan n (suc i) b in if b i then i else rest

abbrev pub env : RtEnv
env = record { sched_find_first_bit = scan max_rt_prio 0; hz = 100 }

scan-IsFirst :
    (n i : ℕ) (b : ℕ → Bool)
    → b (i + n) ≡ true
    → (b (scan n i b) ≡ true) × ((j : ℕ) → i ≤ j → j < scan n i b → b j ≡ false)
unfolding scan
scan-IsFirst zero i b h =
    (ap b (let e : i ≡ i + 0 = omega arith in e) ∙ h, λ j l m. absurd (omega arith))
scan-IsFirst (suc n) i b h =
    let (set, below) =
      scan-IsFirst n (suc i) b (ap b (let e : suc i + n ≡ i + suc n = omega arith in e) ∙ h) in
    elim (Bool-cases (b i)) [
      | inl y ↦ rw y (y, λ j l m. absurd (omega arith))
      | inr y ↦ rw y (set, λ j l m. step j l m below y)
    ]
  where
    step :
        (j : ℕ)
        → i ≤ j
        → j < scan n (suc i) b
        → ((k : ℕ) → suc i ≤ k → k < scan n (suc i) b → b k ≡ false)
        → b i ≡ false
        → b j ≡ false
    step j l m below y = elim (Bool-cases (j == i)) [
      | inl e ↦ (ap b (let k : j ≡ i = ground arith in k) ∙ y)
      | inr e ↦ below j (ground arith) m
    ]

pub env-FindsFirst : FindsFirst env
env-FindsFirst b h =
    let s = scan-IsFirst max_rt_prio 0 b h in
    record { set = s.0; below = λ j l. s.1 j (omega arith) l }

-- A runtime of 40 in each period of 100; the group's tasks have run for 50.
abbrev pub rq : ℕ → RtRq
rq g = record {
  bitmap = λ i. i == max_rt_prio;
  queue = λ i. [];
  rt_nr_running = 0;
  highest_prio = max_rt_prio;
  rt_throttled = false;
  rt_time = if g == 1 then 50 else 0;
  rt_runtime = 40;
  rt_nr_boosted = 0;
  rt_se = if g == 1 then some 101 else none;
  rt_bandwidth = record { rt_period = 100; rt_runtime = 40; timer_active = false };
}

abbrev pub in_group : ℕ → Bool
in_group q = q == 1 || q == 2

abbrev pub entity : ℕ → RtEntity
entity q = record {
  timeout = 0;
  time_slice = 2;
  parent = if in_group q then some 101 else none;
  rt_rq = if in_group q then 1 else 0;
  my_q = if q == 101 then some 1 else none;
}

abbrev pub task : ℕ → RtTask
task q = record {
  policy = sched_rr;
  prio = if in_group q then 50 else 60;
  normal_prio = if in_group q then 50 else 60;
  sched_class = Class.rt;
  on_rq = true;
  need_resched = false;
  exec_start = 0;
  exec_max = 0;
  sum_exec_runtime = 0;
  rlim_cur = 1000000;
  rlim_max = 1000000;
  sched_exp = 0;
}

-- Nothing is queued.
abbrev pub resting : RtState
resting = record {
  tasks = task;
  entities = entity;
  rqs = rq;
  leaf_rt_rq_list = [];
  levels = 2;
  curr = 3;
  idle = 0;
  clock_task = 1000;
  nr_running = 0;
  skip_clock_update = pos 0;
  bandwidth_enabled = true;
  charged = [];
}

abbrev pub level : ℕ → ℕ
level q = if in_group q then 1 else 0

resting-IsTree : IsTree level 2 entity
resting-IsTree = record {
  deep = λ se. ground arith;
  up = λ se p h. ground arith;
  in_group = λ se p h. ground arith;
  at_root = λ se h. ground arith;
  own = λ a b g h k. ground arith;
  below = λ se g h. ground arith;
  address = λ se g h. ground arith;
}

resting-IsArray : (prio : ℕ → ℕ) (g : ℕ) → IsArray prio (rq g)
unfolding total contains
resting-IsArray prio g = record {
  bits = λ i l. ground arith;
  delimiter = refl;
  distinct = λ i. tt;
  placed = λ i se c. absurd (cc);
  range = λ i se c. absurd (cc);
  count = refl;
  address = λ i se c. absurd (cc);
  highest = record { set = refl; below = λ j l. ground arith };
}

pub resting-IsSound : IsSound level resting
unfolding contains on_queues
resting-IsSound = record {
  tree = resting-IsTree;
  valid = record {
    arrays = λ g. resting-IsArray (rt_se_prio resting) g;
    owner = λ g i se c. absurd (cc);
    busy = λ se g o m. absurd (cc);
    entity = λ g se k. ground arith;
  };
}
