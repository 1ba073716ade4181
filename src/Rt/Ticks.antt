-- ===== src/Rt/Ticks.antt =====
-- Ticks at which no group exceeds its runtime: what they leave as it was.
use mathlib.Core.Path.{subst}
use linux_kernel.Prelude.{
  ℕ, zero, suc, ◌+◌, ◌-◌, ◌/◌, ◌%◌, min, ◌≡◌, ◌⊎◌, inl, inr, refl, sym, ap, ◌∙◌, true, false, not,
  Bool, Bool-cases, ◌&&◌, ◌||◌, if◌then◌else◌, List, [], ◌∷◌, arith, if_cases, ◌==◌, ltb,
}
use linux_kernel.Prelude.Words.{add32, add64, u32_mod}
use linux_kernel.Sched.{Class, same_class, update}
use linux_kernel.Rt.{
  RtEnv, RtRq, RtState, set_rq, set_need_resched, rt_rq_throttled, ancestors, runtime_inf,
}
use linux_kernel.Rt.Accounting.{time-SameArray, exceed-SameArray, set_rq-Agree}
use linux_kernel.Rt.Runtime.{
  exceed, over, sched_rt_runtime_exceeded, charge_path, charge_task, delta_exec, update_curr_rt,
}
use linux_kernel.Rt.Methods.{set_entity, watchdog, task_tick_rt}
use linux_kernel.Rt.Agreement.{Agree, Agree-rqs, Agree-trans, SameArray, SameArray-refl}
use linux_kernel.Rt.Replacing.{same_places, set_entity-Agree}

-- n ticks while p runs; rq->clock_task is `clock i` at the tick number i.
unfoldable pub ticks : ℕ → RtEnv → (ℕ → ℕ) → RtState → ℕ → RtState
ticks zero e clock s p = s
ticks (suc n) e clock s p = task_tick_rt e (record (ticks n e clock s p) { clock_task = clock n }) p

-- Over the rt_rq's of a path: the accounting of `delta` finds none above its runtime.
abbrev pub Within : RtEnv → RtState → ℕ → List ℕ → Type 0
Within e s delta [] = Unit {0}
Within e s delta (x ∷ ups) =
    let g = (s.entities x).rt_rq in
    let r = s.rqs g in
    let timed = set_rq s g (record r { rt_time = add64 r.rt_time delta }) in
    ((r.rt_runtime == runtime_inf || not (sched_rt_runtime_exceeded e timed g).1) ≡ true)
    × Within e (if r.rt_runtime == runtime_inf then s else (sched_rt_runtime_exceeded e timed g).0)
        delta ups

-- The accounting of the current task throttles no group: the limits are off, or none is exceeded.
abbrev pub Unthrottled : RtEnv → RtState → Type 0
Unthrottled e s =
    (s.bandwidth_enabled ≡ false)
    ⊎ Within e (charge_task s (delta_exec s)) (delta_exec s) (ancestors s s.curr)

-- After j ticks of the slice, no queue has changed.
pub record Counted (s t : RtState) (p j : ℕ) : Type 0 where
  pub queues : (g i : ℕ) → (t.rqs g).queue i ≡ (s.rqs g).queue i
  pub agree : Agree s t
  pub policy : (t.tasks p).policy ≡ (s.tasks p).policy
  pub slice : (t.entities p).time_slice + j ≡ (s.entities p).time_slice

pub Counted-refl : (s : RtState) (p : ℕ) → Counted s s p 0
Counted-refl s p = record {
  queues = λ g i. refl;
  agree = Agree-rqs s s refl refl (λ q. refl) (λ g. SameArray-refl (s.rqs g));
  policy = refl;
  slice = omega arith;
}

pub Counted-trans :
    {s t u : RtState} {p i j : ℕ} → Counted s t p i → Counted t u p j → Counted s u p (i + j)
Counted-trans a b = record {
  queues = λ g i. b.queues g i ∙ a.queues g i;
  agree = Agree-trans a.agree b.agree;
  policy = b.policy ∙ a.policy;
  slice = (let x = a.slice in let y = b.slice in omega arith);
}

set_rq-Counted :
    (s : RtState) (g : ℕ) (r : RtRq) (p : ℕ)
    → SameArray (s.rqs g) r
    → ((i : ℕ) → r.queue i ≡ (s.rqs g).queue i)
    → Counted s (set_rq s g r) p 0
set_rq-Counted s g r p a q = record {
  queues = λ h i.
      if_cases (λ (x : RtRq). x.queue i ≡ (s.rqs h).queue i) (g == h)
        (λ y. q i ∙ ap (λ (k : ℕ). (s.rqs k).queue i) (let k : g ≡ h = ground arith in k))
        (λ _. refl);
  agree = set_rq-Agree s g r a;
  policy = refl;
  slice = omega arith;
}

queue-exceed : (r : RtRq) (i : ℕ) → (exceed r).queue i ≡ r.queue i
unfolding exceed
queue-exceed r i = ground arith

exceeded-Counted :
    (e : RtEnv) (s : RtState) (g p : ℕ)
    → (sched_rt_runtime_exceeded e s g).1 ≡ false
    → Counted s (sched_rt_runtime_exceeded e s g).0 p 0
unfolding sched_rt_runtime_exceeded
exceeded-Counted e s g p =
    let r = s.rqs g in
    let c = set_rq-Counted s g (exceed r) p (exceed-SameArray r) (queue-exceed r) in
    if_cases (λ (x : RtState × Bool). x.1 ≡ false → Counted s x.0 p 0) r.rt_throttled
      (λ _ _. Counted-refl s p)
      (λ _.
        if_cases (λ (x : RtState × Bool). x.1 ≡ false → Counted s x.0 p 0)
          (over r && rt_rq_throttled (exceed r)) (λ _ no_flag. absurd (ground arith)) (λ _ _. c))

charge_path-Counted :
    (e : RtEnv) (s : RtState) (delta p : ℕ) (xs : List ℕ)
    → Within e s delta xs
    → Counted s (charge_path e s delta xs) p 0
unfolding charge_path
charge_path-Counted e s delta p [] h = Counted-refl s p
charge_path-Counted e s delta p (x ∷ ups) h = elim (Bool-cases (r.rt_runtime == runtime_inf)) [
  | inl y ↦
      let rest = subst (λ b. Within e (if b then s else out.0) delta ups) y h.1 in
      subst (λ b. Counted s (charge_path e (if b then s else next) delta ups) p 0) (sym y)
        (charge_path-Counted e s delta p ups rest)
  | inr y ↦
      let rest = subst (λ b. Within e (if b then s else out.0) delta ups) y h.1 in
      let fine : out.1 ≡ false = (let k = h.0 in ground arith) in
      let charged =
        set_rq-Counted s g (record r { rt_time = add64 r.rt_time delta }) p
          (time-SameArray r (add64 r.rt_time delta) r.rt_throttled) (λ i. refl) in
      let all = Counted-trans charged (
        Counted-trans (exceeded-Counted e timed g p fine)
          (charge_path-Counted e out.0 delta p ups rest)) in
      subst (λ b. Counted s (charge_path e (if b then s else next) delta ups) p 0) (sym y)
        (subst
          (λ b.
            Counted s
              (charge_path e (if b then set_need_resched out.0 out.0.curr else out.0) delta ups) p
              0)
          (sym fine) all)
]
  where
    g : ℕ
    g = (s.entities x).rt_rq

    r : RtRq
    r = s.rqs g

    timed : RtState
    timed = set_rq s g (record r { rt_time = add64 r.rt_time delta })

    out : RtState × Bool
    out = sched_rt_runtime_exceeded e timed g

    next : RtState
    next = if out.1 then set_need_resched out.0 out.0.curr else out.0

charge_task-Counted : (s : RtState) (delta p : ℕ) → Counted s (charge_task s delta) p 0
unfolding charge_task
charge_task-Counted s delta p = record {
  queues = λ g i. refl;
  agree =
      Agree-rqs s (charge_task s delta) refl refl (λ q. ground arith)
        (λ g. SameArray-refl (s.rqs g));
  policy = ground arith;
  slice = omega arith;
}

pub update_curr_rt-Counted :
    (e : RtEnv) (s : RtState) (p : ℕ) → Unthrottled e s → Counted s (update_curr_rt e s) p 0
unfolding update_curr_rt
update_curr_rt-Counted e s p free =
    let delta = delta_exec s in
    let c = charge_task-Counted s delta p in
    if_cases (λ (t : RtState). Counted s t p 0)
      (not (same_class (s.tasks s.curr).sched_class Class.rt)) (λ _. Counted-refl s p)
      (λ _.
        if_cases (λ (t : RtState). Counted s t p 0) (not s.bandwidth_enabled) (λ _. c)
          (λ on. by_limit on free))
  where
    by_limit :
        not s.bandwidth_enabled ≡ false
        → Unthrottled e s
        → Counted s
            (charge_path e (charge_task s (delta_exec s)) (delta_exec s) (ancestors s s.curr))
            p
            0
    by_limit on (inl off) = absurd (ground arith)
    by_limit on (inr w) = Counted-trans (charge_task-Counted s (delta_exec s) p) (
        charge_path-Counted e (charge_task s (delta_exec s)) (delta_exec s) p (ancestors s s.curr)
          w)

pub watchdog-Counted : (e : RtEnv) (s : RtState) (p : ℕ) → Counted s (watchdog e s p) p 0
unfolding watchdog
watchdog-Counted e s p =
    let t = s.tasks p in
    let timeout = add32 (s.entities p).timeout 1 in
    let step = 1000000 / e.hz in
    let a = set_entity-Agree s p timeout (s.entities p).time_slice in
    let counted = set_entity s p (record (s.entities p) { timeout = timeout }) in
    let noted = record counted {
      tasks = update s.tasks p (record t { sched_exp = t.sum_exec_runtime });
    } in
    if_cases (λ (u : RtState). Counted s u p 0) (t.rlim_cur == u32_mod - 1) (λ _. Counted-refl s p)
      (λ _.
        if_cases (λ (u : RtState). Counted s u p 0)
          (ltb ((min t.rlim_cur t.rlim_max + step - 1) % u32_mod / step) timeout)
          (λ _. record {
            queues = λ g i. refl;
            agree = Agree-trans a (same_places counted noted refl refl refl (λ q. ground arith));
            policy = ground arith;
            slice = ground arith;
          })
          (λ _. record { queues = λ g i. refl; agree = a; policy = refl; slice = ground arith }))
