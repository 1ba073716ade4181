-- ===== src/Rt/Groups.antt =====
-- Which groups of a task's way to the root are queued once it is enqueued or dequeued.
use mathlib.Core.Path.{subst}
use linux_kernel.Prelude.{
  ℕ, ◌≡◌, refl, sym, ap, ◌∙◌, inl, inr, true, false, not, ◌&&◌, ◌||◌, some, Bool, List, [], ◌∷◌,
  arith, if◌then◌else◌, if_cases, ◌==◌, Bool-cases, none,
}
use linux_kernel.Wrr.Queue.{contains}
use linux_kernel.Rt.{
  RtEnv, RtRq, RtState, on_rt_rq, left_out, still_busy, rt_rq_throttled, __enqueue_rt_entity,
  enqueue_path, requeue_groups,
}
use linux_kernel.Rt.Entering.{__enqueue_rt_entity-Entered}
use linux_kernel.Rt.Paths.{Climbs-lower}
use linux_kernel.Rt.Queueing.{
  Ready, Settled, Ready-CanEnter, Ready-Entered, Ready-tail, enqueue_path-Settled,
  requeue_groups-Settled,
}
use linux_kernel.Rt.Frames.{above-Apart, enqueue_path-Spared, requeue_groups-Spared}

-- A group that is not throttled and has something to run.
abbrev pub runs : RtRq → Bool
runs r = not (rt_rq_throttled r || (r.rt_nr_running == 0))

-- Each group of `s` with an entity in the list is queued in `t` exactly if it may run there.
abbrev pub GroupsIn : RtState → List ℕ → RtState → Type 0
GroupsIn s xs t =
    (y h : ℕ) → contains y xs ≡ true → (s.entities y).my_q ≡ some h → on_rt_rq t y ≡ runs (t.rqs h)

pub above_absent :
    {level : ℕ → ℕ} (u : RtState) (x : ℕ) (ups : List ℕ)
    → Ready level u (x ∷ ups)
    → contains x ups ≡ false
above_absent u x ups r = elim (Bool-cases (contains x ups)) [
  | inl y ↦ absurd (let l = Climbs-lower r.tree x ups r.climbs x y in omega arith)
  | inr y ↦ y
]

task-left_out : (u : RtState) (x : ℕ) → (u.entities x).my_q ≡ none → left_out u x ≡ false
unfolding left_out
task-left_out u x m = rw (m, left_out) refl

task-still_busy : (u : RtState) (x : ℕ) → (u.entities x).my_q ≡ none → still_busy u x ≡ false
unfolding still_busy
task-still_busy u x m = rw (m, still_busy) refl

-- A task that goes in with its groups is queued in the end.
pub enqueue_path-on :
    {level : ℕ → ℕ} (u : RtState) (head : Bool) (x : ℕ) (ups : List ℕ)
    → (u.entities x).my_q ≡ none
    → Ready level u (x ∷ ups)
    → on_rt_rq (enqueue_path u head (x ∷ ups)) x ≡ true
unfolding enqueue_path
enqueue_path-on u head x ups m r =
    let d = __enqueue_rt_entity-Entered u x head (Ready-CanEnter u x ups r) in
    let t = __enqueue_rt_entity u x head in
    let k = enqueue_path-Settled t head ups (Ready-Entered u t x ups r d) in
    k.others x (above_absent u x ups r) ∙ d.on x ∙ (let l = task-left_out u x m in ground arith)

-- A task is not put back.
pub requeue_groups-task :
    {level : ℕ → ℕ} (u : RtState) (x : ℕ) (ups : List ℕ)
    → (u.entities x).my_q ≡ none
    → Ready level u ups
    → Settled ups u (requeue_groups u (x ∷ ups))
unfolding requeue_groups
requeue_groups-task u x ups m r =
    subst (λ b. Settled ups u (requeue_groups (if b then __enqueue_rt_entity u x false else u) ups))
      (sym (task-still_busy u x m)) (requeue_groups-Settled u ups r)

group-left_out :
    (s : RtState) (x h : ℕ) → (s.entities x).my_q ≡ some h → not (left_out s x) ≡ runs (s.rqs h)
unfolding left_out
group-left_out s x h m = rw (m, left_out) refl

-- A group that may run has tasks.
group-still_busy :
    (s : RtState) (x h : ℕ)
    → (s.entities x).my_q ≡ some h
    → (still_busy s x && not (left_out s x)) ≡ runs (s.rqs h)
unfolding left_out still_busy
group-still_busy s x h m = rw (m, left_out) (rw (m, still_busy) (ground arith))

on_entered :
    {level : ℕ → ℕ} (s : RtState) (head : Bool) (x : ℕ) (ups : List ℕ)
    → Ready level s (x ∷ ups)
    → on_rt_rq (__enqueue_rt_entity s x head) x ≡ not (left_out s x)
unfolding contains
on_entered s head x ups r =
    let d = (__enqueue_rt_entity-Entered s x head (Ready-CanEnter s x ups r)).on x in
    let off = r.off x (ground arith) in ground arith

module _ (e : RtEnv) {level : ℕ → ℕ} where
  pub enqueue_path-GroupsIn :
      (s : RtState) (head : Bool) (xs : List ℕ)
      → Ready level s xs
      → GroupsIn s xs (enqueue_path s head xs)
  unfolding enqueue_path contains
  enqueue_path-GroupsIn s head [] r y h c m = absurd (ground arith)
  enqueue_path-GroupsIn s head (x ∷ ups) r y h c m =
      let d = __enqueue_rt_entity-Entered s x head (Ready-CanEnter s x ups r) in
      let t = __enqueue_rt_entity s x head in
      let next = Ready-Entered s t x ups r d in
      elim (Bool-cases (x == y)) [
        | inl k ↦
            (let same : y ≡ x = ground arith in
              ap (on_rt_rq (enqueue_path t head ups)) same
              ∙ (enqueue_path-Settled t head ups next).others x (above_absent s x ups r)
              ∙ on_entered s head x ups r
              ∙ group-left_out s x h (ap (λ (z : ℕ). (s.entities z).my_q) (sym same) ∙ m)
              ∙ ap runs (
                  sym
                    (enqueue_path-Spared e h s head (x ∷ ups) (
                      above-Apart r.tree x h x ups
                        (ap (λ (z : ℕ). (s.entities z).my_q) (sym same) ∙ m) (omega arith)
                        r.climbs)).rq))
        | inr k ↦ enqueue_path-GroupsIn t head ups next y h (ground arith) (rw (d.kept.entities) m)
      ]

  pub requeue_groups-GroupsIn :
      (s : RtState) (xs : List ℕ) → Ready level s xs → GroupsIn s xs (requeue_groups s xs)
  unfolding requeue_groups contains
  requeue_groups-GroupsIn s [] r y h c m = absurd (ground arith)
  requeue_groups-GroupsIn s (x ∷ ups) r y h c m =
      let d = __enqueue_rt_entity-Entered s x false (Ready-CanEnter s x ups r) in
      let t = __enqueue_rt_entity s x false in
      let entered = Ready-Entered s t x ups r d in
      let skipped = Ready-tail s x ups r in
      let absent = above_absent s x ups r in
      elim (Bool-cases (x == y)) [
        | inl k ↦
            (let same : y ≡ x = ground arith in
              let m' = ap (λ (z : ℕ). (s.entities z).my_q) (sym same) ∙ m in
              let on : on_rt_rq (requeue_groups s (x ∷ ups)) x
                  ≡ (still_busy s x && not (left_out s x)) =
                if_cases
                  (λ (u : RtState).
                    on_rt_rq (requeue_groups u ups) x ≡ (still_busy s x && not (left_out s x)))
                  (still_busy s x)
                  (λ b.
                    (requeue_groups-Settled t ups entered).others x absent
                    ∙ on_entered s false x ups r
                    ∙ rw b refl)
                  (λ b.
                    (requeue_groups-Settled s ups skipped).others x absent
                    ∙ r.off x (ground arith)
                    ∙ rw b refl) in
              ap (on_rt_rq (requeue_groups s (x ∷ ups))) same
              ∙ on
              ∙ group-still_busy s x h m'
              ∙ ap runs (
                  sym
                    (requeue_groups-Spared e h s (x ∷ ups)
                      (above-Apart r.tree x h x ups m' (omega arith) r.climbs)).rq))
        | inr k ↦
            if_cases
              (λ (u : RtState).
                on_rt_rq (requeue_groups u ups) y ≡ runs ((requeue_groups u ups).rqs h))
              (still_busy s x)
              (λ _.
                requeue_groups-GroupsIn t ups entered y h (ground arith) (rw (d.kept.entities) m))
              (λ _. requeue_groups-GroupsIn s ups skipped y h (ground arith) m)
      ]

  -- The task itself is not put back, and its groups are queued as they may run.
  pub requeue_groups-task_GroupsIn :
      (s : RtState) (p : ℕ) (ups : List ℕ) (x h : ℕ)
      → Ready level s ups
      → (s.entities p).my_q ≡ none
      → (s.entities x).my_q ≡ some h
      → contains x (p ∷ ups) ≡ true
      → on_rt_rq (requeue_groups s (p ∷ ups)) x ≡ runs ((requeue_groups s (p ∷ ups)).rqs h)
  unfolding requeue_groups contains
  requeue_groups-task_GroupsIn s p ups x h r l n c =
      subst
        (λ b.
          let t = if b then __enqueue_rt_entity s p false else s in
          on_rt_rq (requeue_groups t ups) x ≡ runs ((requeue_groups t ups).rqs h))
        (sym (task-still_busy s p l)) (requeue_groups-GroupsIn s ups r x h (above c) n)
    where
      above : (p == x || contains x ups) ≡ true → contains x ups ≡ true
      above d = elim (Bool-cases (p == x)) [
        | inl y ↦ absurd (
            let same : p ≡ x = ground arith in
            let k = ap (λ (z : ℕ). (s.entities z).my_q) same in cc)
        | inr y ↦ ground arith
      ]
