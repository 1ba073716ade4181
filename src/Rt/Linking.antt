-- ===== src/Rt/Linking.antt =====
-- Linking an entity into a priority array and unlinking it keep the array's invariant.
use linux_kernel.Prelude.{
  ℕ, suc, ◌<◌, ◌≡◌, refl, ap, ◌∙◌, inl, inr, true, false, not, List, [], ◌∷◌, ◌++◌, arith,
  if◌then◌else◌, if_cases, ◌==◌, ltb, length, length-append, Bool, Bool-cases, ◌||◌, ◌&&◌,
}
use linux_kernel.Prelude.Words.{add32, sub32, u32_mod}
use linux_kernel.Sched.{max_rt_prio, update}
use linux_kernel.Wrr.{remove}
use linux_kernel.Wrr.Queue.{
  contains, Distinct, remove-absent, remove-Distinct, Distinct-append_one, contains-append,
}
use linux_kernel.Rt.{
  RtEnv, RtRq, on_queues, is_empty, link, unlink, inc_rt_tasks, dec_rt_prio, dec_rt_tasks,
}
use linux_kernel.Rt.Array.{
  IsFirst, FindsFirst, total, IsArrayOf, IsArray, off_queues, total-update, total-remove,
  total-empty, IsArray-small, contains-remove-Distinct,
}

-- The queue that an entity is linked into.
abbrev pub added : Bool → ℕ → List ℕ → List ℕ
added head se xs = if head then se ∷ xs else xs ++ (se ∷ [])

pub added-Distinct :
    (head : Bool) (se : ℕ) (xs : List ℕ)
    → contains se xs ≡ false
    → Distinct xs
    → Distinct (added head se xs)
added-Distinct true se xs c d = (c, d)
added-Distinct false se xs c d = Distinct-append_one se xs d c

pub contains-added :
    (head : Bool) (q se : ℕ) (xs : List ℕ)
    → contains q (added head se xs) ≡ (se == q || contains q xs)
unfolding contains
contains-added true q se xs = refl
contains-added false q se xs = let a = contains-append q xs (se ∷ []) in ground arith

pub length-added :
    (head : Bool) (se : ℕ) (xs : List ℕ) → length (added head se xs) ≡ suc (length xs)
length-added true se xs = refl
length-added false se xs = let a = length-append xs (se ∷ []) in omega arith

pub added-is_empty : (head : Bool) (se : ℕ) (xs : List ℕ) → is_empty (added head se xs) ≡ false
added-is_empty true se xs = refl
added-is_empty false se [] = refl
added-is_empty false se (x ∷ xs) = refl

pub contains-is_empty : (se : ℕ) (xs : List ℕ) → contains se xs ≡ true → is_empty xs ≡ false
unfolding contains
contains-is_empty se [] c = absurd (cc)
contains-is_empty se (x ∷ xs) c = refl

-- Membership in the array after an entity was added.
pub contains-update :
    (head : Bool) (queue : ℕ → List ℕ) (p se i q : ℕ)
    → contains q (update queue p (added head se (queue p)) i)
      ≡ ((p == i && se == q) || contains q (queue i))
contains-update head queue p se i q = elim (Bool-cases (p == i)) [
  | inl e ↦
      (let a = contains-added head q se (queue p) in
        let same : i ≡ p = ground arith in
        let at = ap (λ (j : ℕ). contains q (queue j)) same in ground arith)
  | inr e ↦ rw e refl
]

IsFirst-lowered :
    (b : ℕ → Bool) (p h : ℕ) → IsFirst b h → IsFirst (update b p true) (if ltb p h then p else h)
IsFirst-lowered b p h f =
    let s = f.set in record { set = ground arith; below = λ j l. let k = f.below j in ground arith }

module _ (prio : ℕ → ℕ) (queue : ℕ → List ℕ) (bitmap : ℕ → Bool) (nr high : ℕ) (se : ℕ)
    (v : IsArrayOf prio queue bitmap nr high) where
  abbrev p : ℕ
  p = prio se

  same_prio : (q i : ℕ) → (se == q) ≡ true → (p == i) ≡ true → prio q ≡ i
  same_prio q i e h = let same : q ≡ se = ground arith in ap prio same ∙ ground arith

  linked-Distinct :
      (head : Bool)
      → p < max_rt_prio
      → on_queues max_rt_prio queue se ≡ false
      → (i : ℕ) → Distinct (update queue p (added head se (queue p)) i)
  linked-Distinct head l o i =
      if_cases (λ (ys : List ℕ). Distinct ys) (p == i)
        (λ _.
          added-Distinct head se (queue p) (off_queues max_rt_prio queue se p l o) (v.distinct p))
        (λ _. v.distinct i)

  linked_placed :
      (head : Bool) (i q : ℕ)
      → contains q (update queue p (added head se (queue p)) i) ≡ true
      → prio q ≡ i
  linked_placed head i q c =
      let k = v.placed i q in
      let u = contains-update head queue p se i q in let here = same_prio q i in ground arith

  linked_address :
      (head : Bool)
      → suc se < u32_mod
      → (i q : ℕ) → contains q (update queue p (added head se (queue p)) i) ≡ true
      → suc q < u32_mod
  linked_address head s i q c =
      let k = v.address i q in let u = contains-update head queue p se i q in ground arith

  link-parts :
      (head : Bool)
      → p < max_rt_prio
      → on_queues max_rt_prio queue se ≡ false
      → suc se < u32_mod
      → IsArrayOf prio
          (update queue p (added head se (queue p)))
          (update bitmap p true)
          (add32 nr 1)
          (if ltb p high then p else high)
  link-parts head l o s =
      let grown = total-update max_rt_prio queue p (added head se (queue p)) l in
      let long = length-added head se (queue p) in
      let n = v.count in
      let few =
        IsArray-small prio (update queue p (added head se (queue p))) (linked-Distinct head l o)
          (linked_placed head) (linked_address head s) in
      record {
        bits = λ i k.
            let b = v.bits i k in let full = added-is_empty head se (queue p) in ground arith;
        delimiter = let d = v.delimiter in ground arith;
        distinct = linked-Distinct head l o;
        placed = linked_placed head;
        range = λ i q c.
            let k = v.range i q in let u = contains-update head queue p se i q in ground arith;
        count = omega arith;
        address = linked_address head s;
        highest = IsFirst-lowered bitmap p high v.highest;
      }

  module _ (c : contains se (queue p) ≡ true) where
    absent : (i : ℕ) → (i == p) ≡ false → contains se (queue i) ≡ false
    absent i e = elim (Bool-cases (contains se (queue i))) [
      | inl y ↦ absurd (let k = v.placed i se y in ground arith)
      | inr y ↦ y
    ]

    abbrev rest : ℕ → List ℕ
    rest i = remove se (queue i)

    abbrev cleared : ℕ → Bool
    cleared = if is_empty (rest p) then update bitmap p false else bitmap

    was_set : bitmap p ≡ true
    was_set =
        let b = v.bits p (v.range p se c) in
        let full = contains-is_empty se (queue p) c in ground arith

    cleared-bits : (i : ℕ) → i < max_rt_prio → cleared i ≡ not (is_empty (rest i))
    cleared-bits i l = elim (Bool-cases (i == p)) [
      | inl e ↦
          (let same : i ≡ p = ground arith in
            let at = ap (λ (j : ℕ). is_empty (rest j)) same in
            let b = ap bitmap same ∙ was_set in ground arith)
      | inr e ↦
          (let at = ap (λ (xs : List ℕ). is_empty xs) (remove-absent se (queue i) (absent i e)) in
            let b = v.bits i l in ground arith)
    ]

    cleared-delimiter : cleared max_rt_prio ≡ true
    cleared-delimiter = let d = v.delimiter in let l = v.range p se c in ground arith

    contains-rest : (q i : ℕ) → contains q (rest i) ≡ (not (se == q) && contains q (queue i))
    contains-rest q i = contains-remove-Distinct se q (queue i) (v.distinct i)

    few : total max_rt_prio queue < u32_mod
    few = IsArray-small prio queue v.distinct v.placed v.address

    total-rest : suc (total max_rt_prio rest) ≡ total max_rt_prio queue
    total-rest = total-remove max_rt_prio queue se p (v.range p se c) c absent

    unlink-parts : (h : ℕ) → IsFirst cleared h → IsArrayOf prio rest cleared (sub32 nr 1) h
    unlink-parts h f =
        let t = total-rest in
        let n = v.count in
        let s = few in
        record {
          bits = cleared-bits;
          delimiter = cleared-delimiter;
          distinct = λ i. remove-Distinct se (queue i) (v.distinct i);
          placed = λ i q k. let o = contains-rest q i in let w = v.placed i q in ground arith;
          range = λ i q k. let o = contains-rest q i in let w = v.range i q in ground arith;
          count = omega arith;
          address = λ i q k. let o = contains-rest q i in let w = v.address i q in ground arith;
          highest = f;
        }

    -- The three cases of dec_rt_prio.
    empty-IsFirst : (sub32 nr 1 == 0) ≡ true → IsFirst cleared max_rt_prio
    empty-IsFirst z = record {
      set = cleared-delimiter;
      below = λ j l.
          let t = total-rest in
          let n = v.count in
          let s = few in
          let b = cleared-bits j l in
          let e = total-empty max_rt_prio rest j (ground arith) l in ground arith;
    }

    kept-IsFirst : (p == high) ≡ false → IsFirst cleared high
    kept-IsFirst d =
        let f = v.highest.set in
        record { set = ground arith; below = λ j l. let k = v.highest.below j l in ground arith }

module _ (prio : ℕ → ℕ) (r : RtRq) (v : IsArray prio r) (se : ℕ) where
  pub link-IsArray :
      (enabled boosted head : Bool)
      → prio se < max_rt_prio
      → on_queues max_rt_prio r.queue se ≡ false
      → suc se < u32_mod
      → IsArray prio (inc_rt_tasks enabled boosted (prio se) (link r (prio se) se head))
  unfolding inc_rt_tasks link
  link-IsArray enabled boosted head l o s =
      let w = link-parts prio r.queue r.bitmap r.rt_nr_running r.highest_prio se v head l o s in
      if_cases (λ (h : RtRq). IsArrayOf prio h.queue h.bitmap h.rt_nr_running h.highest_prio)
        (ltb (prio se) r.highest_prio) (λ k. rw k at w) (λ k. rw k at w)

  pub unlink-IsArray :
      (e : RtEnv) (boosted : Bool)
      → FindsFirst e
      → contains se (r.queue (prio se)) ≡ true
      → IsArray prio (dec_rt_tasks e boosted (prio se) (unlink r (prio se) se))
  unfolding dec_rt_tasks unlink dec_rt_prio
  unlink-IsArray e boosted f c =
      let b = cleared prio r.queue r.bitmap r.rt_nr_running r.highest_prio se v c in
      let parts = unlink-parts prio r.queue r.bitmap r.rt_nr_running r.highest_prio se v c in
      if_cases (λ (h : RtRq). IsArrayOf prio h.queue h.bitmap h.rt_nr_running h.highest_prio)
        (sub32 r.rt_nr_running 1 == 0)
        (λ z.
          parts max_rt_prio
            (empty-IsFirst prio r.queue r.bitmap r.rt_nr_running r.highest_prio se v c z))
        (λ _.
          if_cases (λ (h : RtRq). IsArrayOf prio h.queue h.bitmap h.rt_nr_running h.highest_prio)
            (prio se == r.highest_prio)
            (λ _.
              parts (e.sched_find_first_bit b) (
                f b
                  (cleared-delimiter prio r.queue r.bitmap r.rt_nr_running r.highest_prio se v c)))
            (λ d.
              parts r.highest_prio
                (kept-IsFirst prio r.queue r.bitmap r.rt_nr_running r.highest_prio se v c d)))
