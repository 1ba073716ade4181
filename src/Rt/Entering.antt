-- ===== src/Rt/Entering.antt =====
-- One entity goes into its queue: __enqueue_rt_entity.
use linux_kernel.Prelude.{
  ℕ, suc, ◌<◌, ◌≡◌, ◌⊎◌, refl, sym, ap, ◌∙◌, inl, inr, true, false, not, ◌&&◌, ◌||◌, Option, none,
  some, Bool, List, arith, if_cases, ◌==◌, Bool-cases,
}
use linux_kernel.Prelude.Words.{u32_mod}
use linux_kernel.Sched.{max_rt_prio, update}
use linux_kernel.Wrr.Queue.{contains}
use linux_kernel.Rt.{
  RtRq, RtState, on_queues, on_rt_rq, rt_se_prio, rt_se_boosted, link, inc_rt_tasks, left_out,
  __enqueue_rt_entity,
}
use linux_kernel.Rt.Linking.{added, contains-update, link-IsArray}
use linux_kernel.Rt.Changes.{
  on_queues-added, queue-inc_rt_tasks, rt_se-inc_rt_tasks, busy-highest_prio,
}
use linux_kernel.Rt.Invariant.{
  IsTree, IsRtTask, IsValid, Fits, group-parent, on-contains, update-IsValid,
}
use linux_kernel.Rt.Leaving.{Kept, ParentOff}

-- What is queued after `se` was to go in.
pub record Entered (se : ℕ) (s t : RtState) : Type 0 where
  pub kept : Kept s t
  pub valid : IsValid t
  pub on : (q : ℕ) → on_rt_rq t q ≡ ((not (left_out s se) && se == q) || on_rt_rq s q)
  pub elsewhere : (h : ℕ) → ((s.entities se).rt_rq == h) ≡ false → t.rqs h ≡ s.rqs h

Kept-refl : (s : RtState) → Kept s s
Kept-refl s = record { tasks = refl; entities = refl; levels = refl; curr = refl }

in_group_busy :
    (s : RtState) (se h : ℕ)
    → left_out s se ≡ false
    → (s.entities se).my_q ≡ some h
    → ((s.rqs h).rt_nr_running == 0) ≡ false
unfolding left_out
in_group_busy s se h l m = elim (Bool-cases ((s.rqs h).rt_nr_running == 0)) [
  | inl y ↦ absurd (let x = (rw (m, left_out) at l) in ground arith)
  | inr y ↦ y
]

-- What an entity needs to be put into its queue.
pub record CanEnter (level : ℕ → ℕ) (s : RtState) (se : ℕ) : Type 0 where
  pub tree : IsTree level s.levels s.entities
  pub valid : IsValid s
  pub off : on_rt_rq s se ≡ false
  pub parent_off : ParentOff s se
  pub low : (s.entities se).my_q ≡ none → IsRtTask s se

entering_prio :
    (s : RtState) (se : ℕ)
    → IsValid s
    → ((s.entities se).my_q ≡ none → IsRtTask s se)
    → left_out s se ≡ false
    → rt_se_prio s se < max_rt_prio
unfolding rt_se_prio
entering_prio s se v low l = by_group (s.entities se).my_q refl
  where
    by_group :
        (o : Option ℕ)
        → (s.entities se).my_q ≡ o
        → elim o [ none ↦ (s.tasks se).prio | some g ↦ (s.rqs g).highest_prio ] < max_rt_prio
    by_group none m = (low m).0
    by_group (some h) m =
        busy-highest_prio (rt_se_prio s) (s.rqs h) (v.arrays h) (in_group_busy s se h l m)

entering_address :
    {level : ℕ → ℕ} (s : RtState) (se : ℕ)
    → IsTree level s.levels s.entities
    → ((s.entities se).my_q ≡ none → IsRtTask s se)
    → suc se < u32_mod
entering_address s se t low = by_group (s.entities se).my_q refl
  where
    by_group : (o : Option ℕ) → (s.entities se).my_q ≡ o → suc se < u32_mod
    by_group none m = (low m).1
    by_group (some g) m = t.address se g m

module _ {level : ℕ → ℕ} (s : RtState) (se : ℕ) (head : Bool) (c : CanEnter level s se)
    (l : left_out s se ≡ false) where
  abbrev home : ℕ
  home = (s.entities se).rt_rq

  abbrev at_prio : ℕ
  at_prio = rt_se_prio s se

  abbrev joined : RtRq
  joined =
      inc_rt_tasks s.bandwidth_enabled (rt_se_boosted s se) at_prio
        (link (s.rqs home) at_prio se head)

  joined-queue :
      joined.queue ≡ update (s.rqs home).queue at_prio (added head se ((s.rqs home).queue at_prio))
  joined-queue =
      queue-inc_rt_tasks s.bandwidth_enabled (rt_se_boosted s se) head at_prio se (s.rqs home)

  now_in :
      (i q : ℕ)
      → contains q (joined.queue i) ≡ true
      → (se ≡ q) ⊎ (contains q ((s.rqs home).queue i) ≡ true)
  now_in i q k =
      let same = ap (λ (f : ℕ → List ℕ). contains q (f i)) joined-queue in
      let u = contains-update head (s.rqs home).queue at_prio se i q in
      elim (Bool-cases (se == q)) [ inl y ↦ inl (ground arith) | inr y ↦ inr (ground arith) ]

  joined-Fits : Fits s home joined
  joined-Fits = record {
    off = c.parent_off;
    array =
        link-IsArray (rt_se_prio s) (s.rqs home) (c.valid.arrays home) se s.bandwidth_enabled
          (rt_se_boosted s se) head (entering_prio s se c.valid c.low l) c.off
          (entering_address s se c.tree c.low);
    same_se =
        rt_se-inc_rt_tasks s.bandwidth_enabled (rt_se_boosted s se) head at_prio se (s.rqs home);
    members = λ i q k. elim (now_in i q k) [
      | inl y ↦ ap (λ (x : ℕ). (s.entities x).rt_rq) (sym y)
      | inr y ↦ c.valid.owner home i q y
    ];
    outside = λ i q k m. elim (now_in i q k) [
      | inl y ↦ not_its_own (ap (λ (x : ℕ). (s.entities x).my_q) y ∙ m)
      | inr y ↦
          absurd
            (let on = on-contains c.valid home i q y in let n = c.parent_off q m in ground arith)
    ];
    runs = λ i q h k m. elim (now_in i q k) [
      | inl y ↦ in_group_busy s se h l (ap (λ (x : ℕ). (s.entities x).my_q) y ∙ m)
      | inr y ↦ c.valid.busy q h (on-contains c.valid home i q y) m
    ];
  }
    where
      not_its_own : ¬ ((s.entities se).my_q ≡ some home)
      not_its_own m =
          absurd (let p = group-parent c.tree se se m in let u = c.tree.up se se p in omega arith)

  joined_on :
      (q : ℕ)
      → on_queues max_rt_prio (update s.rqs home joined (s.entities q).rt_rq).queue q
        ≡ (se == q || on_rt_rq s q)
  joined_on q = elim (Bool-cases (home == (s.entities q).rt_rq)) [
    | inl y ↦ rw y (
        ap (λ (f : ℕ → List ℕ). on_queues max_rt_prio f q) joined-queue
        ∙ on_queues-added max_rt_prio head (s.rqs home).queue at_prio se q
            (entering_prio s se c.valid c.low l)
        ∙ ap (λ (h : ℕ). se == q || on_queues max_rt_prio (s.rqs h).queue q) (ground arith))
    | inr y ↦ rw y (let d = other_home q y in rw d refl)
  ]
    where
      other_home : (q : ℕ) → (home == (s.entities q).rt_rq) ≡ false → (se == q) ≡ false
      other_home q y = elim (Bool-cases (se == q)) [
        | inl k ↦ absurd (
            let same = ap (λ (x : ℕ). (s.entities x).rt_rq) (let z : se ≡ q = ground arith in z) in
            ground arith)
        | inr k ↦ k
      ]

  joined-Entered :
      (leaf : List ℕ)
      → Entered se s (record s { rqs = update s.rqs home joined; leaf_rt_rq_list = leaf })
  joined-Entered leaf = record {
    kept = record { tasks = refl; entities = refl; levels = refl; curr = refl };
    valid = update-IsValid s home joined leaf c.valid joined-Fits;
    on = λ q. joined_on q ∙ ap (λ b. (not b && se == q) || on_rt_rq s q) (sym l);
    elsewhere = λ h n. rw n refl;
  }

pub __enqueue_rt_entity-Entered :
    {level : ℕ → ℕ} (s : RtState) (se : ℕ) (head : Bool)
    → CanEnter level s se
    → Entered se s (__enqueue_rt_entity s se head)
unfolding __enqueue_rt_entity
__enqueue_rt_entity-Entered s se head c =
    if_cases (λ (t : RtState). Entered se s t) (left_out s se)
      (λ l. record {
        kept = Kept-refl s;
        valid = c.valid;
        on = λ q. ap (λ b. (not b && se == q) || on_rt_rq s q) (sym l);
        elsewhere = λ h n. refl;
      })
      (λ l. joined-Entered s se head c l _)
