-- ===== src/Rt/Queueing.antt =====
-- The loops of rt.c over the way to the root: dequeue_rt_stack, enqueue_rt_entity and dequeue_rt_entity.
use mathlib.Core.Path.{subst}
use linux_kernel.Prelude.{
  ℕ, ◌<◌, ◌≡◌, refl, ap, ◌∙◌, inl, inr, true, false, not, ◌&&◌, none, some, Bool, List, [], ◌∷◌,
  arith, if◌then◌else◌, if_cases, ◌==◌, Bool-cases,
}
use linux_kernel.Wrr.Queue.{contains}
use linux_kernel.Rt.{
  RtEnv, RtEntity, RtState, on_rt_rq, still_busy, __enqueue_rt_entity, __dequeue_rt_entity,
  dequeue_path, enqueue_path, requeue_groups,
}
use linux_kernel.Rt.Array.{FindsFirst}
use linux_kernel.Rt.Invariant.{IsTree, IsRtTask, IsValid}
use linux_kernel.Rt.Leaving.{Kept, ParentOff, __dequeue_rt_entity-Left}
use linux_kernel.Rt.Entering.{Entered, CanEnter, __enqueue_rt_entity-Entered}
use linux_kernel.Rt.Paths.{Climbs, Climbs-tail, Climbs-lower, Climbs-parent}

pub Kept-refl : (s : RtState) → Kept s s
Kept-refl s = record { tasks = refl; entities = refl; levels = refl; curr = refl }

pub Kept-trans : {s t u : RtState} → Kept s t → Kept t u → Kept s u
Kept-trans a b = record {
  tasks = b.tasks ∙ a.tasks;
  entities = b.entities ∙ a.entities;
  levels = b.levels ∙ a.levels;
  curr = b.curr ∙ a.curr;
}

-- None of the entities of a path is queued any more, and the others are as before.
pub record Stacked (xs : List ℕ) (s t : RtState) : Type 0 where
  pub kept : Kept s t
  pub valid : IsValid t
  pub on : (q : ℕ) → on_rt_rq t q ≡ (not (contains q xs) && on_rt_rq s q)

module _ (e : RtEnv) (finds : FindsFirst e) {level : ℕ → ℕ} (s : RtState)
    (tree : IsTree level s.levels s.entities) (v : IsValid s) where
  dequeue_one :
      (x : ℕ) (ups : List ℕ) (t : RtState)
      → Climbs s.entities (x ∷ ups)
      → Stacked ups s t
      → Stacked (x ∷ ups) s (if on_rt_rq t x then __dequeue_rt_entity e t x else t)
  unfolding contains
  dequeue_one x ups t c k =
      if_cases (λ (u : RtState). Stacked (x ∷ ups) s u) (on_rt_rq t x)
        (λ o.
          let l = __dequeue_rt_entity-Left e finds t k.valid x o (parent_off k) in
          record {
            kept = Kept-trans k.kept l.kept;
            valid = l.valid;
            on = λ q. let a = l.on q in let b = k.on q in ground arith;
          })
        (λ n. record {
          kept = k.kept;
          valid = k.valid;
          on = λ q. let b = k.on q in let at = self t q n in ground arith;
        })
    where
      self : (t : RtState) (q : ℕ) → on_rt_rq t x ≡ false → (x == q && on_rt_rq t q) ≡ false
      self t q n = elim (Bool-cases (x == q)) [
        | inl y ↦
            (let same = ap (λ (z : ℕ). on_rt_rq t z) (let k : q ≡ x = ground arith in k) in
              ground arith)
        | inr y ↦ rw y refl
      ]

      parent_off : Stacked ups s t → ParentOff t x
      parent_off k q m =
          let above =
            Climbs-parent tree x ups c q
              (subst (λ (es : ℕ → RtEntity). (es q).my_q ≡ some (es x).rt_rq) k.kept.entities m) in
          let b = k.on q in ground arith

  pub dequeue_path-Stacked :
      (xs : List ℕ) → Climbs s.entities xs → Stacked xs s (dequeue_path e s xs)
  unfolding dequeue_path contains
  dequeue_path-Stacked [] c = record { kept = Kept-refl s; valid = v; on = λ q. refl }
  dequeue_path-Stacked (x ∷ ups) c =
      dequeue_one x ups (dequeue_path e s ups) c
        (dequeue_path-Stacked ups (Climbs-tail s.entities x ups c))

-- The entities of a path that are to go in.
pub record Ready (level : ℕ → ℕ) (s : RtState) (xs : List ℕ) : Type 0 where
  pub tree : IsTree level s.levels s.entities
  pub valid : IsValid s
  pub climbs : Climbs s.entities xs
  pub off : (y : ℕ) → contains y xs ≡ true → on_rt_rq s y ≡ false
  pub low : (y : ℕ) → contains y xs ≡ true → (s.entities y).my_q ≡ none → IsRtTask s y

-- What the loop over a path leaves: the bookkeeping, and the entities off the path as they were.
pub record Settled (xs : List ℕ) (s t : RtState) : Type 0 where
  pub kept : Kept s t
  pub valid : IsValid t
  pub others : (q : ℕ) → contains q xs ≡ false → on_rt_rq t q ≡ on_rt_rq s q

pub Ready-CanEnter :
    {level : ℕ → ℕ} (s : RtState) (x : ℕ) (ys : List ℕ)
    → Ready level s (x ∷ ys)
    → CanEnter level s x
unfolding contains
Ready-CanEnter s x ys r = record {
  tree = r.tree;
  valid = r.valid;
  off = r.off x (ground arith);
  parent_off = λ q m. let above = Climbs-parent r.tree x ys r.climbs q m in r.off q (ground arith);
  low = r.low x (ground arith);
}

pub Ready-tail :
    {level : ℕ → ℕ} (s : RtState) (x : ℕ) (ys : List ℕ) → Ready level s (x ∷ ys) → Ready level s ys
unfolding contains
Ready-tail s x ys r = record {
  tree = r.tree;
  valid = r.valid;
  climbs = Climbs-tail s.entities x ys r.climbs;
  off = λ y h. r.off y (ground arith);
  low = λ y h. r.low y (ground arith);
}

pub Ready-Entered :
    {level : ℕ → ℕ} (s t : RtState) (x : ℕ) (ys : List ℕ)
    → Ready level s (x ∷ ys)
    → Entered x s t
    → Ready level t ys
Ready-Entered {level = level} s t x ys r d =
    let rest = Ready-tail s x ys r in
    record {
      tree = rw (d.kept.levels, d.kept.entities) r.tree;
      valid = d.valid;
      climbs = rw (d.kept.entities) rest.climbs;
      off = λ y h.
          let a = d.on y in
          let b = rest.off y h in
          let low = Climbs-lower r.tree x ys r.climbs y h in let n = other y low in ground arith;
      low = rw (d.kept.entities, d.kept.tasks) rest.low;
    }
  where
    other : (y : ℕ) → level y < level x → (x == y) ≡ false
    other y l = elim (Bool-cases (x == y)) [
      | inl k ↦ absurd (let same = ap level (let z : x ≡ y = ground arith in z) in omega arith)
      | inr k ↦ k
    ]

Settled-Entered :
    (s t u : RtState) (x : ℕ) (ys : List ℕ) → Entered x s t → Settled ys t u → Settled (x ∷ ys) s u
unfolding contains
Settled-Entered s t u x ys d k = record {
  kept = Kept-trans d.kept k.kept;
  valid = k.valid;
  others = λ q h. let a = d.on q in let b = k.others q (ground arith) in ground arith;
}

Settled-skip : (s u : RtState) (x : ℕ) (ys : List ℕ) → Settled ys s u → Settled (x ∷ ys) s u
unfolding contains
Settled-skip s u x ys k = record {
  kept = k.kept;
  valid = k.valid;
  others = λ q h. k.others q (ground arith);
}

Settled-refl : (s : RtState) → IsValid s → Settled [] s s
Settled-refl s v = record { kept = Kept-refl s; valid = v; others = λ q h. refl }

pub enqueue_path-Settled :
    {level : ℕ → ℕ} (s : RtState) (head : Bool) (xs : List ℕ)
    → Ready level s xs
    → Settled xs s (enqueue_path s head xs)
unfolding enqueue_path
enqueue_path-Settled s head [] r = Settled-refl s r.valid
enqueue_path-Settled s head (x ∷ ys) r =
    let d = __enqueue_rt_entity-Entered s x head (Ready-CanEnter s x ys r) in
    let t = __enqueue_rt_entity s x head in
    Settled-Entered s t (enqueue_path t head ys) x ys d
      (enqueue_path-Settled t head ys (Ready-Entered s t x ys r d))

pub requeue_groups-Settled :
    {level : ℕ → ℕ} (s : RtState) (xs : List ℕ)
    → Ready level s xs
    → Settled xs s (requeue_groups s xs)
unfolding requeue_groups
requeue_groups-Settled s [] r = Settled-refl s r.valid
requeue_groups-Settled s (x ∷ ys) r =
    let t = __enqueue_rt_entity s x false in
    let d = __enqueue_rt_entity-Entered s x false (Ready-CanEnter s x ys r) in
    let entered = requeue_groups-Settled t ys (Ready-Entered s t x ys r d) in
    let skipped = requeue_groups-Settled s ys (Ready-tail s x ys r) in
    if_cases (λ (u : RtState). Settled (x ∷ ys) s (requeue_groups u ys)) (still_busy s x)
      (λ _. Settled-Entered s t (requeue_groups t ys) x ys d entered)
      (λ _. Settled-skip s (requeue_groups s ys) x ys skipped)
