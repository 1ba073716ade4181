-- ===== src/Rt/Picking.antt =====
-- _pick_next_task_rt: the way down from the root's rt_rq to a task.
use mathlib.Core.Path.{subst}
use linux_kernel.Prelude.{
  ℕ, zero, suc, ◌+◌, ◌≤◌, ◌≡◌, refl, sym, ap, ◌∙◌, inl, inr, true, false, Option, none, some, Bool,
  List, [], ◌∷◌, arith, ◌==◌, leb, Bool-cases,
}
use linux_kernel.Sched.{max_rt_prio}
use linux_kernel.Wrr.Queue.{contains}
use linux_kernel.Rt.{
  RtEnv, RtRq, RtState, is_empty, on_rt_rq, rt_se_prio, ancestors, rt_rq_throttled,
}
use linux_kernel.Rt.Methods.{
  first, pick_next_rt_entity, descend, set_exec_start, _pick_next_task_rt,
}
use linux_kernel.Rt.Array.{IsFirst, FindsFirst, total-empty}
use linux_kernel.Rt.Linking.{contains-is_empty}
use linux_kernel.Rt.Changes.{busy-highest_prio}
use linux_kernel.Rt.Invariant.{IsSound, group-parent, on-contains, contains-on}
use linux_kernel.Rt.Paths.{Climbs, path-Climbs, path_cons}

-- The entities of a list are all queued.
abbrev pub AllOn : RtState → List ℕ → Type 0
AllOn s [] = Unit {0}
AllOn s (x ∷ xs) = (on_rt_rq s x ≡ true) × AllOn s xs

group_prio :
    (s : RtState) (y g : ℕ) → (s.entities y).my_q ≡ some g → rt_se_prio s y ≡ (s.rqs g).highest_prio
unfolding rt_se_prio
group_prio s y g m = rw (m, rt_se_prio) refl

pub task_prio :
    (s : RtState) (q : ℕ) → (s.entities q).my_q ≡ none → rt_se_prio s q ≡ (s.tasks q).prio
unfolding rt_se_prio
task_prio s q m = rw (m, rt_se_prio) refl

IsFirst-unique : (b : ℕ → Bool) (i j : ℕ) → IsFirst b i → IsFirst b j → i ≡ j
IsFirst-unique b i j f g =
    let x = f.below j in let y = g.below i in let z = f.set in let w = g.set in ground arith

module _ (e : RtEnv) (finds : FindsFirst e) {level : ℕ → ℕ} (s : RtState)
    (v : IsSound level s) where
  -- What a busy rt_rq gives: an entity in the queue of its highest priority.
  record Picked (g se : ℕ) : Type 0 where
    found : pick_next_rt_entity e (s.rqs g) ≡ some se
    queued : contains se ((s.rqs g).queue (s.rqs g).highest_prio) ≡ true

  first_of :
      (r : RtRq) (xs : List ℕ)
      → is_empty xs ≡ false
      → (x : ℕ) × (first xs ≡ some x) × (contains x xs ≡ true)
  unfolding contains
  first_of r [] h = absurd (cc)
  first_of r (x ∷ xs) h = (x, refl, ground arith)

  picks : (g : ℕ) → ((s.rqs g).rt_nr_running == 0) ≡ false → (se : ℕ) × Picked g se
  unfolding pick_next_rt_entity
  picks g b =
      let r = s.rqs g in
      let a = v.valid.arrays g in
      let idx = e.sched_find_first_bit r.bitmap in
      let same : idx ≡ r.highest_prio =
        IsFirst-unique r.bitmap idx r.highest_prio (finds r.bitmap a.delimiter) a.highest in
      let low = busy-highest_prio (rt_se_prio s) r a b in
      let bit = a.bits r.highest_prio low in
      let set = a.highest.set in
      let (x, one, inside) = first_of r (r.queue r.highest_prio) (ground arith) in
      (
        x,
        record {
          found =
              rw same (let k : leb max_rt_prio r.highest_prio ≡ false = ground arith in rw k one);
          queued = inside;
        },
      )

  record Descended (g n p : ℕ) : Type 0 where
    task : (s.entities p).my_q ≡ none
    on : on_rt_rq s p ≡ true
    way : descend e s n g ≡ some p
    prio : (s.tasks p).prio ≡ (s.rqs g).highest_prio

  -- With as much fuel as there are levels below `g`.
  descends :
      (n g : ℕ)
      → ((s.rqs g).rt_nr_running == 0) ≡ false
      → ((q : ℕ) → (s.entities q).rt_rq ≡ g → s.levels ≤ n + level q)
      → (p : ℕ) × Descended g n p
  unfolding descend
  descends zero g b d =
      let (se, k) = picks g b in
      absurd (
        let l = d se (v.valid.owner g (s.rqs g).highest_prio se k.queued) in
        let m = v.tree.deep se in omega arith)
  descends (suc n) g b d =
      let (se, k) = picks g b in by_group se k (s.entities se).my_q refl (λ h x y. descends n h x y)
    where
      deeper :
          (q se h : ℕ)
          → (s.entities q).rt_rq ≡ h
          → (s.entities se).my_q ≡ some h
          → s.levels ≤ suc n + level se
          → s.levels ≤ n + level q
      deeper q se h i m l =
          let p = group-parent v.tree q se (m ∙ ap some (sym i)) in
          let u = v.tree.up q se p in omega arith

      by_group :
          (se : ℕ)
          → Picked g se
          → (o : Option ℕ) → (s.entities se).my_q ≡ o
          → ((h : ℕ)
              → ((s.rqs h).rt_nr_running == 0) ≡ false
              → ((q : ℕ) → (s.entities q).rt_rq ≡ h → s.levels ≤ n + level q)
              → (p : ℕ) × Descended h n p)
          → (p : ℕ) × Descended g (suc n) p
      by_group se k none m down = (
        se,
        record {
          task = m;
          on = on-contains v.valid g (s.rqs g).highest_prio se k.queued;
          way = rw (k.found, descend) (rw m refl);
          prio =
              sym (task_prio s se m) ∙ (v.valid.arrays g).placed (s.rqs g).highest_prio se k.queued;
        },
      )
      by_group se k (some h) m down =
          let busy =
            v.valid.busy se h (on-contains v.valid g (s.rqs g).highest_prio se k.queued) m in
          let home = v.valid.owner g (s.rqs g).highest_prio se k.queued in
          let (p, r) = down h busy (λ q i. deeper q se h i m (d se home)) in
          (
            p,
            record {
              task = r.task;
              on = r.on;
              way = rw (k.found, descend) (rw m (r.way));
              prio =
                  r.prio
                  ∙ sym (group_prio s se h m)
                  ∙ (v.valid.arrays g).placed (s.rqs g).highest_prio se k.queued;
            },
          )

  -- An entity that is queued, with all that stand for its groups, has no smaller number for its priority than
  -- the root's rt_rq, which is not empty.
  record Above (x : ℕ) : Type 0 where
    nonempty : ((s.rqs 0).rt_nr_running == 0) ≡ false
    bound : (s.rqs 0).highest_prio ≤ rt_se_prio s x

  queued_busy :
      (g i q : ℕ) → contains q ((s.rqs g).queue i) ≡ true → ((s.rqs g).rt_nr_running == 0) ≡ false
  queued_busy g i q c = elim (Bool-cases ((s.rqs g).rt_nr_running == 0)) [
    | inl y ↦ absurd (
        let a = v.valid.arrays g in
        let n = a.count in
        let z = total-empty max_rt_prio (s.rqs g).queue i (ground arith) (a.range i q c) in
        let f = contains-is_empty q ((s.rqs g).queue i) c in ground arith)
    | inr y ↦ y
  ]

  -- No entity of an rt_rq goes before its highest priority.
  queued_below : (g i q : ℕ) → contains q ((s.rqs g).queue i) ≡ true → (s.rqs g).highest_prio ≤ i
  queued_below g i q c =
      let a = v.valid.arrays g in
      let below = a.highest.below i in
      let bit = a.bits i (a.range i q c) in
      let f = contains-is_empty q ((s.rqs g).queue i) c in ground arith

  path-Above : (x : ℕ) (ys : List ℕ) → Climbs s.entities (x ∷ ys) → AllOn s (x ∷ ys) → Above x
  path-Above x [] c o =
      let inside = contains-on v.valid x o.0 in
      let root = v.tree.at_root x c in
      let here : contains x ((s.rqs 0).queue (rt_se_prio s x)) ≡ true =
        ap (λ (g : ℕ). contains x ((s.rqs g).queue (rt_se_prio s x))) (sym root) ∙ inside in
      record {
        nonempty = queued_busy 0 (rt_se_prio s x) x here;
        bound = queued_below 0 (rt_se_prio s x) x here;
      }
  path-Above x (y ∷ ys) c o =
      let r = path-Above y ys c.1 o.1 in
      let b = queued_below (s.entities x).rt_rq (rt_se_prio s x) x (contains-on v.valid x o.0) in
      let m = v.tree.in_group x y c.0 in
      let same = group_prio s y (s.entities x).rt_rq m in
      record { nonempty = r.nonempty; bound = let k = r.bound in omega arith }

  -- For a hierarchy that is a tree, the invariant of the class and a bit search that finds the lowest bit: if the
  -- root's rt_rq is not throttled and some task is queued together with all the groups that it is in, then
  -- _pick_next_task_rt runs into no BUG; it returns a queued task whose priority number is no larger than
  -- that task's, and sets nothing but the start of its accounting.
  pub _pick_next_task_rt_lem :
      (q : ℕ)
      → (s.entities q).my_q ≡ none
      → AllOn s (ancestors s q)
      → rt_rq_throttled (s.rqs 0) ≡ false
      → (p : ℕ) × (_pick_next_task_rt e s ≡ some (some p, set_exec_start s p))
        × (on_rt_rq s p ≡ true)
        × ((s.entities p).my_q ≡ none)
        × ((s.tasks p).prio ≤ (s.tasks q).prio)
  unfolding _pick_next_task_rt
  _pick_next_task_rt_lem q m on h =
      let (ups, way) = path_cons v.tree s.levels q (v.tree.deep q) in
      let climbs =
        subst (λ (xs : List ℕ). Climbs s.entities xs) way
          (path-Climbs v.tree s.levels q (v.tree.deep q)) in
      let above = path-Above q ups climbs (subst (AllOn s) way on) in
      let (p, r) = descends s.levels 0 above.nonempty (λ x k. omega arith) in
      (
        p,
        rw (above.nonempty) (rw h (rw (r.way) refl)),
        r.on,
        r.task,
        let b = above.bound in let t = r.prio in let k = task_prio s q m in omega arith,
      )
