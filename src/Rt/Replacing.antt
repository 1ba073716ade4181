-- ===== src/Rt/Replacing.antt =====
-- Changes of the state that no rt_rq, or only one, has a part in.
use linux_kernel.Prelude.{
  ℕ, ◌-◌, ◌*◌, ◌%◌, min, ◌≡◌, refl, ap, false, ◌&&◌, Bool, arith, if_cases, ltb,
}
use linux_kernel.Prelude.Words.{u64_mod}
use linux_kernel.Rt.{RtRq, RtState, set_rq, RtTask}
use linux_kernel.Rt.Runtime.{replenish}
use linux_kernel.Rt.Methods.{set_entity}
use linux_kernel.Rt.Invariant.{IsSound}
use linux_kernel.Rt.Agreement.{SameArray, SameArray-refl, SameArray-update, Agree, Agree-rqs}
use linux_kernel.Rt.Accounting.{Agree-IsSound, time-SameArray}

-- A change of what no rt_rq and no entity's place has a part in.
pub same_places :
    (s t : RtState)
    → t.entities ≡ s.entities
    → t.levels ≡ s.levels
    → t.rqs ≡ s.rqs
    → ((q : ℕ) → (t.tasks q).prio ≡ (s.tasks q).prio)
    → Agree s t
same_places s t e l r p = Agree-rqs s t e l p (λ g. rw r (SameArray-refl (s.rqs g)))

-- An entity's times change.
pub set_entity-Agree :
    (s : RtState) (p timeout slice : ℕ)
    → Agree s (set_entity s p (record (s.entities p) { timeout = timeout; time_slice = slice }))
set_entity-Agree s p timeout slice = record {
  my_q = λ q. ground arith;
  rt_rq = λ q. ground arith;
  parent = λ q. ground arith;
  levels = refl;
  prio = λ q. refl;
  rqs = λ g. SameArray-refl (s.rqs g);
}

pub replenish-SameArray : (r : RtRq) (overrun : ℕ) → SameArray r (replenish r overrun).0
unfolding replenish
replenish-SameArray r overrun =
    let left = r.rt_time - min r.rt_time (overrun * r.rt_runtime % u64_mod) in
    if_cases (λ (x : RtRq × Bool). SameArray r x.0) (r.rt_throttled && ltb left r.rt_runtime)
      (λ _. time-SameArray r left false) (λ _. time-SameArray r left r.rt_throttled)

-- One rt_rq is replaced, and the clock's flag may be set.
pub replaced :
    {level : ℕ → ℕ} (s w : RtState) (g : ℕ) (r : RtRq)
    → w.entities ≡ s.entities
    → w.levels ≡ s.levels
    → w.rqs ≡ s.rqs
    → w.tasks ≡ s.tasks
    → SameArray (s.rqs g) r
    → IsSound level s
    → IsSound level (set_rq w g r)
replaced s w g r e l q t a v =
    Agree-IsSound s (set_rq w g r)
      (Agree-rqs s (set_rq w g r) e l (λ x. ap (λ (ts : ℕ → RtTask). (ts x).prio) t)
        (rw q (SameArray-update s g r a)))
      v

pub plain-IsSound :
    {level : ℕ → ℕ} (s t : RtState)
    → t.entities ≡ s.entities
    → t.levels ≡ s.levels
    → t.rqs ≡ s.rqs
    → ((q : ℕ) → (t.tasks q).prio ≡ (s.tasks q).prio)
    → IsSound level s
    → IsSound level t
plain-IsSound s t e l r p v = Agree-IsSound s t (same_places s t e l r p) v

pub timed-IsSound :
    {level : ℕ → ℕ} (s : RtState) (p timeout slice : ℕ)
    → IsSound level s
    → IsSound level
        (set_entity s p (record (s.entities p) { timeout = timeout; time_slice = slice }))
timed-IsSound s p timeout slice v =
    Agree-IsSound s
      (set_entity s p (record (s.entities p) { timeout = timeout; time_slice = slice }))
      (set_entity-Agree s p timeout slice) v
