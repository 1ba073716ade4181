-- ===== src/Rt/Throttling.antt =====
-- A group that used its runtime up leaves its queue, and the period timer brings it back.
use mathlib.Core.Path.{subst}
use linux_kernel.Prelude.{
  ℕ, ◌≡◌, refl, sym, ap, ◌∙◌, true, false, ◌||◌, Bool, List, ◌∷◌, some, arith, if◌then◌else◌,
  if_cases, ◌==◌,
}
use linux_kernel.Wrr.Queue.{contains}
use linux_kernel.Rt.{
  RtEnv, RtState, on_rt_rq, ancestors, left_out, still_busy, rt_rq_throttled, dequeue_rt_stack,
  dequeue_rt_entity, enqueue_path, enqueue_rt_entity, requeue_groups, __enqueue_rt_entity,
}
use linux_kernel.Rt.Array.{FindsFirst}
use linux_kernel.Rt.Invariant.{IsSound}
use linux_kernel.Rt.Entering.{__enqueue_rt_entity-Entered}
use linux_kernel.Rt.Paths.{path_cons}
use linux_kernel.Rt.Queueing.{
  Ready, Ready-CanEnter, Ready-Entered, Ready-tail, enqueue_path-Settled, requeue_groups-Settled,
}
use linux_kernel.Rt.Groups.{above_absent}
use linux_kernel.Rt.Hierarchy.{stack-Ready}
use linux_kernel.Rt.Frames.{
  Spared, group_path-Apart, dequeue_path-Spared, requeue_groups-Spared, enqueue_path-Spared,
}

-- A group's entity that has to stay out does so, and one that may go in does.
module _ {level : ℕ → ℕ} (u : RtState) (x : ℕ) (ups : List ℕ) (r : Ready level u (x ∷ ups)) where
  requeue_groups-left_out : left_out u x ≡ true → on_rt_rq (requeue_groups u (x ∷ ups)) x ≡ false
  unfolding requeue_groups __enqueue_rt_entity contains
  requeue_groups-left_out l =
      let same : (if still_busy u x then __enqueue_rt_entity u x false else u) ≡ u =
        if_cases (λ (t : RtState). t ≡ u) (still_busy u x) (λ _. rw l refl) (λ _. refl) in
      ap (λ (t : RtState). on_rt_rq (requeue_groups t ups) x) same
      ∙ (requeue_groups-Settled u ups (Ready-tail u x ups r)).others x (above_absent u x ups r)
      ∙ r.off x (ground arith)

  enqueue_path-let_in :
      (head : Bool) → left_out u x ≡ false → on_rt_rq (enqueue_path u head (x ∷ ups)) x ≡ true
  unfolding enqueue_path
  enqueue_path-let_in head l =
      let t = __enqueue_rt_entity u x head in
      let d = __enqueue_rt_entity-Entered u x head (Ready-CanEnter u x ups r) in
      (enqueue_path-Settled t head ups (Ready-Entered u t x ups r d)).others x
        (above_absent u x ups r)
      ∙ d.on x
      ∙ (let k = l in ground arith)

module _ (e : RtEnv) (finds : FindsFirst e) {level : ℕ → ℕ} (s : RtState) (v : IsSound level s)
    (g se : ℕ) (m : (s.entities se).my_q ≡ some g) where
  stacked-Spared : Spared g s (dequeue_rt_stack e s se)
  unfolding dequeue_rt_stack
  stacked-Spared = dequeue_path-Spared e g s (ancestors s se) (group_path-Apart v.tree se g m)

  group-left_out :
      left_out (dequeue_rt_stack e s se) se
      ≡ (rt_rq_throttled (s.rqs g) || ((s.rqs g).rt_nr_running == 0))
  unfolding left_out
  group-left_out = let k = stacked-Spared in rw (k.entities) (rw m (rw (k.rq) refl))

  group_ready : Ready level (dequeue_rt_stack e s se) (ancestors s se)
  group_ready = stack-Ready e finds s v.tree v.valid se (λ n. absurd (cc))

  pub dequeue_throttled :
      rt_rq_throttled (s.rqs g) ≡ true → on_rt_rq (dequeue_rt_entity e s se) se ≡ false
  unfolding dequeue_rt_entity
  dequeue_throttled h =
      let u = dequeue_rt_stack e s se in
      let (ups, way) = path_cons v.tree s.levels se (v.tree.deep se) in
      let l : left_out u se ≡ true = group-left_out ∙ rw h refl in
      subst (λ (xs : List ℕ). Ready level u xs → on_rt_rq (requeue_groups u xs) se ≡ false)
        (sym way) (λ r. requeue_groups-left_out u se ups r l) group_ready

  pub dequeue_spares : (dequeue_rt_entity e s se).rqs g ≡ s.rqs g
  unfolding dequeue_rt_entity
  dequeue_spares =
      let k = stacked-Spared in
      (requeue_groups-Spared e g (dequeue_rt_stack e s se) (ancestors s se)
        (rw (k.entities) (group_path-Apart v.tree se g m))).rq
      ∙ k.rq

  pub enqueue_let_in :
      (head : Bool)
      → rt_rq_throttled (s.rqs g) ≡ false
      → ((s.rqs g).rt_nr_running == 0) ≡ false
      → on_rt_rq (enqueue_rt_entity e s se head) se ≡ true
  unfolding enqueue_rt_entity
  enqueue_let_in head h n =
      let u = dequeue_rt_stack e s se in
      let (ups, way) = path_cons v.tree s.levels se (v.tree.deep se) in
      let l : left_out u se ≡ false = group-left_out ∙ rw h (rw n refl) in
      subst (λ (xs : List ℕ). Ready level u xs → on_rt_rq (enqueue_path u head xs) se ≡ true)
        (sym way) (λ r. enqueue_path-let_in u se ups r head l) group_ready

  pub enqueue_spares : (head : Bool) → (enqueue_rt_entity e s se head).rqs g ≡ s.rqs g
  unfolding enqueue_rt_entity
  enqueue_spares head =
      let k = stacked-Spared in
      (enqueue_path-Spared e g (dequeue_rt_stack e s se) head (ancestors s se)
        (rw (k.entities) (group_path-Apart v.tree se g m))).rq
      ∙ k.rq
