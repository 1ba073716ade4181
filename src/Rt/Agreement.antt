-- ===== src/Rt/Agreement.antt =====
-- States that differ in nothing that the invariant of the real-time class reads.
use linux_kernel.Prelude.{
  ℕ, zero, suc, ◌≡◌, refl, sym, ap, ◌∙◌, Option, none, some, List, arith, if_cases, ◌==◌,
}
use linux_kernel.Sched.{max_rt_prio, update}
use linux_kernel.Wrr.Queue.{contains}
use linux_kernel.Rt.{RtEntity, RtRq, RtState, on_queues, on_rt_rq, rt_se_prio, set_need_resched}
use linux_kernel.Rt.Array.{IsArray}
use linux_kernel.Rt.Invariant.{IsTree, IsValid, IsArray-congr}

-- The parts of an rt_rq that the invariant reads.
pub record SameArray (a b : RtRq) : Type 0 where
  pub highest_prio : b.highest_prio ≡ a.highest_prio
  pub rt_nr_running : b.rt_nr_running ≡ a.rt_nr_running
  pub rt_se : b.rt_se ≡ a.rt_se
  pub members : (i q : ℕ) → contains q (b.queue i) ≡ contains q (a.queue i)
  pub array : (prio : ℕ → ℕ) → IsArray prio a → IsArray prio b

-- The same of states. The entities may differ in their times, and the tasks in all but their priorities.
pub record Agree (s t : RtState) : Type 0 where
  pub my_q : (q : ℕ) → (t.entities q).my_q ≡ (s.entities q).my_q
  pub rt_rq : (q : ℕ) → (t.entities q).rt_rq ≡ (s.entities q).rt_rq
  pub parent : (q : ℕ) → (t.entities q).parent ≡ (s.entities q).parent
  pub levels : t.levels ≡ s.levels
  pub prio : (q : ℕ) → (t.tasks q).prio ≡ (s.tasks q).prio
  pub rqs : (g : ℕ) → SameArray (s.rqs g) (t.rqs g)

pub SameArray-refl : (r : RtRq) → SameArray r r
SameArray-refl r = record {
  highest_prio = refl;
  rt_nr_running = refl;
  rt_se = refl;
  members = λ i q. refl;
  array = λ prio a. a;
}

pub Agree-trans : {s t u : RtState} → Agree s t → Agree t u → Agree s u
Agree-trans a b = record {
  my_q = λ q. b.my_q q ∙ a.my_q q;
  rt_rq = λ q. b.rt_rq q ∙ a.rt_rq q;
  parent = λ q. b.parent q ∙ a.parent q;
  levels = b.levels ∙ a.levels;
  prio = λ q. b.prio q ∙ a.prio q;
  rqs = λ g.
      let x = a.rqs g in
      let y = b.rqs g in
      record {
        highest_prio = y.highest_prio ∙ x.highest_prio;
        rt_nr_running = y.rt_nr_running ∙ x.rt_nr_running;
        rt_se = y.rt_se ∙ x.rt_se;
        members = λ i q. y.members i q ∙ x.members i q;
        array = λ prio k. y.array prio (x.array prio k);
      };
}

-- A change of the tasks that keeps the priorities, and of what is no part of the record above.
pub Agree-rqs :
    (s t : RtState)
    → t.entities ≡ s.entities
    → t.levels ≡ s.levels
    → ((q : ℕ) → (t.tasks q).prio ≡ (s.tasks q).prio)
    → ((g : ℕ) → SameArray (s.rqs g) (t.rqs g))
    → Agree s t
Agree-rqs s t e l p r = record {
  my_q = λ q. ap (λ (es : ℕ → RtEntity). (es q).my_q) e;
  rt_rq = λ q. ap (λ (es : ℕ → RtEntity). (es q).rt_rq) e;
  parent = λ q. ap (λ (es : ℕ → RtEntity). (es q).parent) e;
  levels = l;
  prio = p;
  rqs = r;
}

-- One rt_rq changes.
pub SameArray-update :
    (s : RtState) (g : ℕ) (r : RtRq)
    → SameArray (s.rqs g) r
    → (h : ℕ) → SameArray (s.rqs h) (update s.rqs g r h)
SameArray-update s g r a h =
    if_cases (λ (x : RtRq). SameArray (s.rqs h) x) (g == h) (λ y. at_g h (ground arith))
      (λ _. SameArray-refl (s.rqs h))
  where
    at_g : (h : ℕ) → g ≡ h → SameArray (s.rqs h) r
    at_g h e = rw (← e) a

pub set_need_resched-Agree : (s : RtState) (p : ℕ) → Agree s (set_need_resched s p)
set_need_resched-Agree s p =
    Agree-rqs s (set_need_resched s p) refl refl (λ q. ground arith) (λ g. SameArray-refl (s.rqs g))

same_queues :
    (n q : ℕ) (f k : ℕ → List ℕ)
    → ((i : ℕ) → contains q (f i) ≡ contains q (k i))
    → on_queues n f q ≡ on_queues n k q
unfolding on_queues
same_queues zero q f k h = refl
same_queues (suc n) q f k h = let rest = same_queues n q f k h in let here = h n in ground arith

module _ (s t : RtState) (a : Agree s t) where
  pub prio-Agree : (q : ℕ) → rt_se_prio t q ≡ rt_se_prio s q
  unfolding rt_se_prio
  prio-Agree q =
      ap (λ (o : Option ℕ). elim o [ none ↦ (t.tasks q).prio | some g ↦ (t.rqs g).highest_prio ])
        (a.my_q q)
      ∙ by_group (s.entities q).my_q
    where
      by_group :
          (o : Option ℕ)
          → elim o [ none ↦ (t.tasks q).prio | some g ↦ (t.rqs g).highest_prio ]
            ≡ elim o [ none ↦ (s.tasks q).prio | some g ↦ (s.rqs g).highest_prio ]
      by_group none = a.prio q
      by_group (some g) = (a.rqs g).highest_prio

  pub Agree-on : (q : ℕ) → on_rt_rq t q ≡ on_rt_rq s q
  Agree-on q =
      ap (λ (g : ℕ). on_queues max_rt_prio (t.rqs g).queue q) (a.rt_rq q)
      ∙ same_queues max_rt_prio q (t.rqs (s.entities q).rt_rq).queue
          (s.rqs (s.entities q).rt_rq).queue (λ i. (a.rqs (s.entities q).rt_rq).members i q)

  pub Agree-IsValid : IsValid s → IsValid t
  Agree-IsValid v = record {
    arrays = λ g.
        IsArray-congr (rt_se_prio s) (rt_se_prio t) (t.rqs g) (λ i q c. prio-Agree q)
          ((a.rqs g).array (rt_se_prio s) (v.arrays g));
    owner = λ g i se c. a.rt_rq se ∙ v.owner g i se (sym ((a.rqs g).members i se) ∙ c);
    busy = λ se g o m.
        ap (λ (n : ℕ). n == 0) (a.rqs g).rt_nr_running
        ∙ v.busy se g (sym (Agree-on se) ∙ o) (sym (a.my_q se) ∙ m);
    entity = λ g se k. a.my_q se ∙ v.entity g se (sym (a.rqs g).rt_se ∙ k);
  }

  pub Agree-IsTree :
      {level : ℕ → ℕ} → IsTree level s.levels s.entities → IsTree level t.levels t.entities
  Agree-IsTree k = record {
    deep = rw a.levels k.deep;
    up = λ se p h. k.up se p (sym (a.parent se) ∙ h);
    in_group =
        λ se p h. a.my_q p ∙ k.in_group se p (sym (a.parent se) ∙ h) ∙ ap some (sym (a.rt_rq se));
    at_root = λ se h. a.rt_rq se ∙ k.at_root se (sym (a.parent se) ∙ h);
    own = λ x y g h l. k.own x y g (sym (a.my_q x) ∙ h) (sym (a.my_q y) ∙ l);
    below = λ se g h. k.below se g (sym (a.my_q se) ∙ h);
    address = λ se g h. k.address se g (sym (a.my_q se) ∙ h);
  }
