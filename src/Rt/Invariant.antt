-- ===== src/Rt/Invariant.antt =====
-- The invariant of the real-time class over its hierarchy of groups, and what a change of one rt_rq does to it.
use linux_kernel.Prelude.{
  ℕ, suc, ◌<◌, ◌≡◌, refl, sym, ap, ◌∙◌, inl, inr, true, false, Option, none, some, List, arith,
  if_cases, ◌==◌, Bool-cases,
}
use linux_kernel.Prelude.Words.{u32_mod}
use linux_kernel.Sched.{max_rt_prio, update}
use linux_kernel.Wrr.Queue.{contains}
use linux_kernel.Rt.{RtEntity, RtRq, RtState, on_rt_rq, rt_se_prio}
use linux_kernel.Rt.Array.{IsArray, on_queues-contains, on_queues-some}

-- The entities form a tree below the rt_rq 0: the entity of the group that an entity is queued in is its
-- parent, and `level` counts the ancestors.
pub record IsTree (level : ℕ → ℕ) (levels : ℕ) (es : ℕ → RtEntity) : Type 0 where
  pub deep : (se : ℕ) → level se < levels
  pub up : (se p : ℕ) → (es se).parent ≡ some p → level p < level se
  pub in_group : (se p : ℕ) → (es se).parent ≡ some p → (es p).my_q ≡ some (es se).rt_rq
  pub at_root : (se : ℕ) → (es se).parent ≡ none → (es se).rt_rq ≡ 0
  pub own : (a b g : ℕ) → (es a).my_q ≡ some g → (es b).my_q ≡ some g → a ≡ b
  pub below : (se g : ℕ) → (es se).my_q ≡ some g → (g == 0) ≡ false
  pub address : (se g : ℕ) → (es se).my_q ≡ some g → suc se < u32_mod

-- A task of the class: its priority, and its address of 32 bits that leaves room for the task.
abbrev pub IsRtTask : RtState → ℕ → Type 0
IsRtTask s p = ((s.tasks p).prio < max_rt_prio) × (suc p < u32_mod)

-- Each rt_rq has a sound array that holds its own entities, and a queued group has something to run.
pub record IsValid (s : RtState) : Type 0 where
  pub arrays : (g : ℕ) → IsArray (rt_se_prio s) (s.rqs g)
  pub owner : (g i se : ℕ) → contains se ((s.rqs g).queue i) ≡ true → (s.entities se).rt_rq ≡ g
  pub busy :
      (se g : ℕ)
      → on_rt_rq s se ≡ true
      → (s.entities se).my_q ≡ some g
      → ((s.rqs g).rt_nr_running == 0) ≡ false
  pub entity : (g se : ℕ) → (s.rqs g).rt_se ≡ some se → (s.entities se).my_q ≡ some g

-- Only the parent stands for the rt_rq that an entity is queued in.
pub group-parent :
    {level : ℕ → ℕ} {levels : ℕ} {es : ℕ → RtEntity}
    → IsTree level levels es
    → (se q : ℕ) → (es q).my_q ≡ some (es se).rt_rq
    → (es se).parent ≡ some q
group-parent {es = es} t se q h = by_parent (es se).parent refl
  where
    by_parent : (o : Option ℕ) → (es se).parent ≡ o → (es se).parent ≡ some q
    by_parent none e =
        absurd (let z = t.below q (es se).rt_rq h in let r = t.at_root se e in ground arith)
    by_parent (some p) e = e ∙ ap some (t.own p q (es se).rt_rq (t.in_group se p e) h)

pub IsArray-congr :
    (f g : ℕ → ℕ) (r : RtRq)
    → ((i q : ℕ) → contains q (r.queue i) ≡ true → g q ≡ f q)
    → IsArray f r
    → IsArray g r
IsArray-congr f g r h v = record {
  bits = v.bits;
  delimiter = v.delimiter;
  distinct = v.distinct;
  placed = λ i q c. h i q c ∙ v.placed i q c;
  range = v.range;
  count = v.count;
  address = v.address;
  highest = v.highest;
}

pub on-contains :
    {s : RtState}
    → IsValid s
    → (g i q : ℕ) → contains q ((s.rqs g).queue i) ≡ true
    → on_rt_rq s q ≡ true
on-contains {s = s} v g i q c =
    let same = v.owner g i q c in
    on_queues-contains max_rt_prio (s.rqs (s.entities q).rt_rq).queue q i ((v.arrays g).range i q c)
      (ap (λ (h : ℕ). contains q ((s.rqs h).queue i)) same ∙ c)

-- A queued entity is in the queue of its priority.
pub contains-on :
    {s : RtState}
    → IsValid s
    → (q : ℕ) → on_rt_rq s q ≡ true
    → contains q ((s.rqs (s.entities q).rt_rq).queue (rt_se_prio s q)) ≡ true
contains-on {s = s} v q o =
    let r = s.rqs (s.entities q).rt_rq in
    let (i, l, c) = on_queues-some max_rt_prio r.queue q o in
    ap (λ (j : ℕ). contains q (r.queue j)) ((v.arrays (s.entities q).rt_rq).placed i q c) ∙ c

-- The rt_rq `g` becomes `r`, while the entity that stands for it is not queued.
pub record Fits (s : RtState) (g : ℕ) (r : RtRq) : Type 0 where
  pub off : (q : ℕ) → (s.entities q).my_q ≡ some g → on_rt_rq s q ≡ false
  pub array : IsArray (rt_se_prio s) r
  pub same_se : r.rt_se ≡ (s.rqs g).rt_se
  pub members : (i q : ℕ) → contains q (r.queue i) ≡ true → (s.entities q).rt_rq ≡ g
  pub outside : (i q : ℕ) → contains q (r.queue i) ≡ true → ¬ ((s.entities q).my_q ≡ some g)
  pub runs :
      (i q h : ℕ)
      → contains q (r.queue i) ≡ true
      → (s.entities q).my_q ≡ some h
      → ((s.rqs h).rt_nr_running == 0) ≡ false

module _ (s : RtState) (g : ℕ) (r : RtRq) (leaf : List ℕ) (v : IsValid s) (f : Fits s g r) where
  abbrev t : RtState
  t = record s { rqs = update s.rqs g r; leaf_rt_rq_list = leaf }

  prio-update : (q : ℕ) → ¬ ((s.entities q).my_q ≡ some g) → rt_se_prio t q ≡ rt_se_prio s q
  unfolding rt_se_prio
  prio-update q n = by_group (s.entities q).my_q refl
    where
      by_group :
          (o : Option ℕ)
          → (s.entities q).my_q ≡ o
          → elim o [ none ↦ (s.tasks q).prio | some h ↦ (t.rqs h).highest_prio ]
            ≡ elim o [ none ↦ (s.tasks q).prio | some h ↦ (s.rqs h).highest_prio ]
      by_group none e = refl
      by_group (some h) e = elim (Bool-cases (g == h)) [
        | inl y ↦ absurd (n (e ∙ ap some (ground arith)))
        | inr y ↦ rw y refl
      ]

  -- What is in some rt_rq afterwards does not stand for `g`.
  foreign : (h i q : ℕ) → contains q ((t.rqs h).queue i) ≡ true → ¬ ((s.entities q).my_q ≡ some g)
  foreign h i q =
      if_cases (λ (x : RtRq). contains q (x.queue i) ≡ true → ¬ ((s.entities q).my_q ≡ some g))
        (g == h) (λ _ c. f.outside i q c)
        (λ _ c m. absurd (let o = on-contains v h i q c in let k = f.off q m in ground arith))

  update-arrays : (h : ℕ) → IsArray (rt_se_prio t) (t.rqs h)
  update-arrays h =
      IsArray-congr (rt_se_prio s) (rt_se_prio t) (t.rqs h)
        (λ i q c. prio-update q (foreign h i q c))
        (if_cases (λ (x : RtRq). IsArray (rt_se_prio s) x) (g == h) (λ _. f.array)
          (λ _. v.arrays h))

  update-owner : (h i q : ℕ) → contains q ((t.rqs h).queue i) ≡ true → (s.entities q).rt_rq ≡ h
  update-owner h i q =
      if_cases (λ (x : RtRq). contains q (x.queue i) ≡ true → (s.entities q).rt_rq ≡ h) (g == h)
        (λ e c. f.members i q c ∙ ground arith) (λ _ c. v.owner h i q c)

  update-busy :
      (q h : ℕ)
      → on_rt_rq t q ≡ true
      → (s.entities q).my_q ≡ some h
      → ((t.rqs h).rt_nr_running == 0) ≡ false
  update-busy q h o m =
      let k = (s.entities q).rt_rq in
      let (i, l, c) = on_queues-some max_rt_prio (t.rqs k).queue q o in
      let far : (g == h) ≡ false = other_group k i q h c m in rw far (old_busy k i q h c m)
    where
      other_group :
          (k i q h : ℕ)
          → contains q ((t.rqs k).queue i) ≡ true
          → (s.entities q).my_q ≡ some h
          → (g == h) ≡ false
      other_group k i q h c m = elim (Bool-cases (g == h)) [
        | inl y ↦ absurd (foreign k i q c (m ∙ ap some (ground arith)))
        | inr y ↦ y
      ]

      old_busy :
          (k i q h : ℕ)
          → contains q ((t.rqs k).queue i) ≡ true
          → (s.entities q).my_q ≡ some h
          → ((s.rqs h).rt_nr_running == 0) ≡ false
      old_busy k i q h =
          if_cases
            (λ (x : RtRq).
              contains q (x.queue i) ≡ true
              → (s.entities q).my_q ≡ some h
              → ((s.rqs h).rt_nr_running == 0) ≡ false)
            (g == k) (λ _ c m. f.runs i q h c m) (λ _ c m. v.busy q h (on-contains v k i q c) m)

  update-entity : (h se : ℕ) → (t.rqs h).rt_se ≡ some se → (s.entities se).my_q ≡ some h
  update-entity h se =
      if_cases (λ (x : RtRq). x.rt_se ≡ some se → (s.entities se).my_q ≡ some h) (g == h)
        (λ y k.
          let same : g ≡ h = ground arith in
          v.entity h se (ap (λ (j : ℕ). (s.rqs j).rt_se) (sym same) ∙ sym f.same_se ∙ k))
        (λ _ k. v.entity h se k)

  pub update-IsValid : IsValid t
  update-IsValid = record {
    arrays = update-arrays;
    owner = update-owner;
    busy = update-busy;
    entity = update-entity;
  }

-- The hierarchy and the queues.
pub record IsSound (level : ℕ → ℕ) (s : RtState) : Type 0 where
  pub tree : IsTree level s.levels s.entities
  pub valid : IsValid s
