-- ===== src/Rt/Hierarchy.antt =====
-- enqueue_rt_entity and dequeue_rt_entity as a whole.
use mathlib.Core.Path.{subst}
use linux_kernel.Prelude.{
  ℕ, ◌≡◌, ◌⊎◌, refl, sym, ap, ◌∙◌, inl, inr, true, false, not, ◌&&◌, ◌||◌, Option, none, some, Bool,
  List, ◌∷◌, arith, ◌==◌, Bool-cases,
}
use linux_kernel.Wrr.Queue.{contains}
use linux_kernel.Rt.{
  RtEnv, RtState, on_rt_rq, ancestors, dequeue_rt_stack, enqueue_path, enqueue_rt_entity,
  requeue_groups, dequeue_rt_entity,
}
use linux_kernel.Rt.Array.{FindsFirst}
use linux_kernel.Rt.Invariant.{IsTree, IsRtTask, IsValid, IsSound}
use linux_kernel.Rt.Leaving.{Kept}
use linux_kernel.Rt.Paths.{
  Climbs, Climbs-tail, path-Climbs, path-contains, path_cons, only_base, above_group, Climbs-lower,
}
use linux_kernel.Rt.Groups.{
  runs, GroupsIn, enqueue_path-GroupsIn, requeue_groups-task_GroupsIn, enqueue_path-on,
  requeue_groups-task,
}
use linux_kernel.Rt.Queueing.{
  Kept-trans, Stacked, dequeue_path-Stacked, Ready, Settled, enqueue_path-Settled,
  requeue_groups-Settled,
}

-- What moving an entity leaves of the class.
pub record Moved (se : ℕ) (queued : Bool) (s t : RtState) : Type 0 where
  pub kept : Kept s t
  pub valid : IsValid t
  pub on : on_rt_rq t se ≡ queued
  pub others : (q : ℕ) → (contains q (ancestors s se) ≡ true) ⊎ (on_rt_rq t q ≡ on_rt_rq s q)
  pub groups : GroupsIn s (ancestors s se) t

module _ (e : RtEnv) (finds : FindsFirst e) {level : ℕ → ℕ} (s : RtState)
    (tree : IsTree level s.levels s.entities) (v : IsValid s) (se : ℕ) where
  pub stack-Stacked : Stacked (ancestors s se) s (dequeue_rt_stack e s se)
  unfolding dequeue_rt_stack
  stack-Stacked =
      dequeue_path-Stacked e finds s tree v (ancestors s se)
        (path-Climbs tree s.levels se (tree.deep se))

  -- The entities above the first one, once the stack is off.
  ups-Ready : (ups : List ℕ) → ancestors s se ≡ se ∷ ups → Ready level (dequeue_rt_stack e s se) ups
  unfolding contains
  ups-Ready ups way =
      let k = stack-Stacked in
      let climbs : Climbs s.entities (se ∷ ups) =
        subst (λ (xs : List ℕ). Climbs s.entities xs) way
          (path-Climbs tree s.levels se (tree.deep se)) in
      record {
        tree = rw (k.kept.levels, k.kept.entities) tree;
        valid = k.valid;
        climbs = rw (k.kept.entities) (Climbs-tail s.entities se ups climbs);
        off = λ y h.
            k.on y
            ∙ ap (λ xs. not (contains y xs) && on_rt_rq s y) way
            ∙ (let z = h in ground arith);
        low =
            rw (k.kept.entities, k.kept.tasks)
              (λ y h m. absurd (above_group tree se ups climbs y h m));
      }

  se_above : (ups : List ℕ) → ancestors s se ≡ se ∷ ups → contains se ups ≡ false
  se_above ups way = elim (Bool-cases (contains se ups)) [
    | inl y ↦ absurd (
        let climbs =
          subst (λ (xs : List ℕ). Climbs s.entities xs) way
            (path-Climbs tree s.levels se (tree.deep se)) in
        let l = Climbs-lower tree se ups climbs se y in omega arith)
    | inr y ↦ y
  ]

  moved_others :
      {t : RtState} (ups : List ℕ)
      → ancestors s se ≡ se ∷ ups
      → Settled ups (dequeue_rt_stack e s se) t
      → (q : ℕ) → (contains q (ancestors s se) ≡ true) ⊎ (on_rt_rq t q ≡ on_rt_rq s q)
  unfolding contains
  moved_others ups way k q = elim (Bool-cases (contains q (ancestors s se))) [
    | inl y ↦ inl y
    | inr y ↦
        (let z = ap (contains q) (sym way) ∙ y in
          inr (k.others q (above z) ∙ stack-Stacked.on q ∙ rw y refl))
  ]
    where
      above : (se == q || contains q ups) ≡ false → contains q ups ≡ false
      above h = ground arith

  -- For a hierarchy that is a tree, the invariant of the class, and a bit search that finds the lowest
  -- bit: dequeue_rt_entity of a task keeps the invariant, the task is queued no more, each group on
  -- its way to the root is queued exactly if it is not throttled and still has something to run, no
  -- entity off that way is queued or unqueued, and tasks, entities and the current task are as before.
  pub dequeue_rt_entity-Moved :
      (s.entities se).my_q ≡ none → Moved se false s (dequeue_rt_entity e s se)
  unfolding dequeue_rt_entity
  dequeue_rt_entity-Moved m =
      let u = dequeue_rt_stack e s se in
      let (ups, way) = path_cons tree s.levels se (tree.deep se) in
      let k =
        subst (λ (xs : List ℕ). Settled ups u (requeue_groups u xs)) (sym way)
          (requeue_groups-task u se ups (rw (stack-Stacked.kept.entities) m) (ups-Ready ups way)) in
      record {
        kept = Kept-trans stack-Stacked.kept k.kept;
        valid = k.valid;
        on = k.others se (se_above ups way) ∙ stack-Stacked.on se ∙ here;
        others = moved_others ups way k;
        groups = λ x h c n.
            subst
              (λ (xs : List ℕ).
                contains x xs ≡ true
                → on_rt_rq (requeue_groups u xs) x ≡ runs ((requeue_groups u xs).rqs h))
              (sym way)
              (requeue_groups-task_GroupsIn e u se ups x h (ups-Ready ups way)
                (rw (stack-Stacked.kept.entities) m) (rw (stack-Stacked.kept.entities) n))
              c;
      }
    where
      here : (not (contains se (ancestors s se)) && on_rt_rq s se) ≡ false
      here = let c = path-contains tree s.levels se (tree.deep se) in ground arith

  module _ (low : (s.entities se).my_q ≡ none → IsRtTask s se) where
    path_low :
        (y : ℕ) → contains y (ancestors s se) ≡ true → (s.entities y).my_q ≡ none → IsRtTask s y
    path_low y h m =
        let same = only_base tree s.levels se (tree.deep se) y h m in rw same (low (rw (← same) m))

    pub stack-Ready : Ready level (dequeue_rt_stack e s se) (ancestors s se)
    stack-Ready =
        let k = stack-Stacked in
        record {
          tree = rw (k.kept.levels, k.kept.entities) tree;
          valid = k.valid;
          climbs = rw (k.kept.entities) (path-Climbs tree s.levels se (tree.deep se));
          off = λ y h. k.on y ∙ rw h refl;
          low = rw (k.kept.entities, k.kept.tasks) (λ y h m. path_low y h m);
        }

    off_path :
        {t : RtState}
        → Settled (ancestors s se) (dequeue_rt_stack e s se) t
        → (q : ℕ) → (contains q (ancestors s se) ≡ true) ⊎ (on_rt_rq t q ≡ on_rt_rq s q)
    off_path k q = elim (Bool-cases (contains q (ancestors s se))) [
      | inl y ↦ inl y
      | inr y ↦ inr (k.others q y ∙ stack-Stacked.on q ∙ rw y refl)
    ]

    -- For a hierarchy that is a tree, the invariant of the class, a bit search that finds the lowest
    -- bit, and a task with a priority below 100: enqueue_rt_entity keeps the invariant, the task is
    -- queued, each group on its way to the root is queued exactly if it is not throttled and has
    -- something to run, no entity off that way is queued or unqueued, and tasks, entities and the
    -- current task are as before.
    pub enqueue_rt_entity-Moved :
        (head : Bool)
        → (s.entities se).my_q ≡ none
        → Moved se true s (enqueue_rt_entity e s se head)
    unfolding enqueue_rt_entity enqueue_path
    enqueue_rt_entity-Moved head m =
        let u = dequeue_rt_stack e s se in
        let k = enqueue_path-Settled u head (ancestors s se) stack-Ready in
        let (ups, way) = path_cons tree s.levels se (tree.deep se) in
        record {
          kept = Kept-trans stack-Stacked.kept k.kept;
          valid = k.valid;
          on =
              subst
                (λ (xs : List ℕ). Ready level u xs → on_rt_rq (enqueue_path u head xs) se ≡ true)
                (sym way) (enqueue_path-on u head se ups (rw (stack-Stacked.kept.entities) m))
                stack-Ready;
          others = λ q. off_path k q;
          groups = λ x h c n.
              enqueue_path-GroupsIn e u head (ancestors s se) stack-Ready x h c
                (rw (stack-Stacked.kept.entities) n);
        }

module _ (e : RtEnv) (finds : FindsFirst e) {level : ℕ → ℕ} (s : RtState) (v : IsSound level s)
    (se : ℕ) where
  settled-IsSound :
      {xs : List ℕ} {t : RtState} → Settled xs (dequeue_rt_stack e s se) t → IsSound level t
  settled-IsSound k =
      let all = Kept-trans (stack-Stacked e finds s v.tree v.valid se).kept k.kept in
      record { tree = rw (all.levels, all.entities) v.tree; valid = k.valid }

  group-dequeue : (g : ℕ) → (s.entities se).my_q ≡ some g → IsSound level (dequeue_rt_entity e s se)
  unfolding dequeue_rt_entity
  group-dequeue g m = settled-IsSound (
      requeue_groups-Settled (dequeue_rt_stack e s se) (ancestors s se)
        (stack-Ready e finds s v.tree v.valid se (λ n. absurd (cc))))

  pub dequeue_rt_entity-IsSound : IsSound level (dequeue_rt_entity e s se)
  dequeue_rt_entity-IsSound = by_group (s.entities se).my_q refl
    where
      by_group :
          (o : Option ℕ) → (s.entities se).my_q ≡ o → IsSound level (dequeue_rt_entity e s se)
      by_group none m =
          let k = dequeue_rt_entity-Moved e finds s v.tree v.valid se m in
          record { tree = rw (k.kept.levels, k.kept.entities) v.tree; valid = k.valid }
      by_group (some g) m = group-dequeue g m

  pub enqueue_rt_entity-IsSound :
      ((s.entities se).my_q ≡ none → IsRtTask s se)
      → (head : Bool) → IsSound level (enqueue_rt_entity e s se head)
  unfolding enqueue_rt_entity
  enqueue_rt_entity-IsSound low head = settled-IsSound (
      enqueue_path-Settled (dequeue_rt_stack e s se) head (ancestors s se)
        (stack-Ready e finds s v.tree v.valid se low))
