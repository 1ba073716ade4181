-- ===== src/Rt/Array.antt =====
-- The priority array of an rt_rq: its bitmap, its counter and its highest priority.
use linux_kernel.Prelude.{
  ℕ, zero, suc, ◌+◌, ◌-◌, ◌<◌, ◌≤◌, ◌≡◌, refl, ap, ◌∙◌, inl, inr, true, false, not, List, [], ◌∷◌,
  arith, ◌&&◌, ◌==◌, length, Bool, Bool-cases,
}
use linux_kernel.Prelude.Words.{u32_mod}
use linux_kernel.Sched.{max_rt_prio, update}
use linux_kernel.Wrr.{remove}
use linux_kernel.Wrr.Queue.{
  contains, Distinct, remove-absent, length-remove, remove-Distinct, contains-remove,
  contains-remove_other,
}
use linux_kernel.Rt.{RtEnv, RtRq, on_queues, is_empty}

-- The lowest set bit.
pub record IsFirst (bitmap : ℕ → Bool) (i : ℕ) : Type 0 where
  pub set : bitmap i ≡ true
  pub below : (j : ℕ) → j < i → bitmap j ≡ false

-- What sched_find_first_bit promises of a bitmap with the delimiter set.
abbrev pub FindsFirst : RtEnv → Type 0
FindsFirst e = (b : ℕ → Bool) → b max_rt_prio ≡ true → IsFirst b (e.sched_find_first_bit b)

-- The number of entities in the first n queues.
unfoldable pub total : ℕ → (ℕ → List ℕ) → ℕ
total zero q = 0
total (suc n) q = length (q n) + total n q

-- An array whose entities stand in the queue of their priority, with the bitmap, the counter and the highest
-- priority that belong to it.
pub record IsArrayOf (prio : ℕ → ℕ) (queue : ℕ → List ℕ) (bitmap : ℕ → Bool)
    (rt_nr_running highest_prio : ℕ) : Type 0 where
  pub bits : (i : ℕ) → i < max_rt_prio → bitmap i ≡ not (is_empty (queue i))
  pub delimiter : bitmap max_rt_prio ≡ true
  pub distinct : (i : ℕ) → Distinct (queue i)
  pub placed : (i se : ℕ) → contains se (queue i) ≡ true → prio se ≡ i
  pub range : (i se : ℕ) → contains se (queue i) ≡ true → i < max_rt_prio
  pub count : rt_nr_running ≡ total max_rt_prio queue
  pub address : (i se : ℕ) → contains se (queue i) ≡ true → suc se < u32_mod
  pub highest : IsFirst bitmap highest_prio

abbrev pub IsArray : (ℕ → ℕ) → RtRq → Type 0
IsArray prio r = IsArrayOf prio r.queue r.bitmap r.rt_nr_running r.highest_prio

at_other :
    (q : ℕ → List ℕ) (se i n : ℕ)
    → (i == n) ≡ true
    → contains se (q i) ≡ true
    → contains se (q n) ≡ true
at_other q se i n e h =
    let same : n ≡ i = ground arith in ap (λ (j : ℕ). contains se (q j)) same ∙ h

pub on_queues-contains :
    (n : ℕ) (q : ℕ → List ℕ) (se i : ℕ) → i < n → contains se (q i) ≡ true → on_queues n q se ≡ true
unfolding on_queues
on_queues-contains zero q se i l h = absurd (omega arith)
on_queues-contains (suc n) q se i l h = elim (Bool-cases (i == n)) [
  | inl e ↦ (let at_n = at_other q se i n (ground arith) h in ground arith)
  | inr e ↦ (let rest = on_queues-contains n q se i (ground arith) h in ground arith)
]

pub off_queues :
    (n : ℕ) (q : ℕ → List ℕ) (se i : ℕ)
    → i < n
    → on_queues n q se ≡ false
    → contains se (q i) ≡ false
off_queues n q se i l h = elim (Bool-cases (contains se (q i))) [
  | inl y ↦ absurd (let c = on_queues-contains n q se i l y in ground arith)
  | inr y ↦ y
]

pub on_queues-some :
    (n : ℕ) (q : ℕ → List ℕ) (se : ℕ)
    → on_queues n q se ≡ true
    → (i : ℕ) × (i < n) × (contains se (q i) ≡ true)
unfolding on_queues
on_queues-some zero q se h = absurd (cc)
on_queues-some (suc n) q se h = elim (Bool-cases (contains se (q n))) [
  | inl y ↦ (n, omega arith, y)
  | inr y ↦ (let (i, l, c) = on_queues-some n q se (ground arith) in (i, omega arith, c))
]

total-update_out :
    (n : ℕ) (q : ℕ → List ℕ) (i : ℕ) (xs : List ℕ) → n ≤ i → total n (update q i xs) ≡ total n q
unfolding total
total-update_out zero q i xs l = refl
total-update_out (suc n) q i xs l =
    let rest = total-update_out n q i xs (omega arith) in ground arith

pub total-update :
    (n : ℕ) (q : ℕ → List ℕ) (i : ℕ) (xs : List ℕ)
    → i < n
    → total n (update q i xs) + length (q i) ≡ total n q + length xs
unfolding total
total-update zero q i xs l = absurd (omega arith)
total-update (suc n) q i xs l = elim (Bool-cases (i == n)) [
  | inl e ↦
      (let same : i ≡ n = ground arith in
        let rest = total-update_out n q i xs (omega arith) in
        let now = ap (λ (j : ℕ). length (q j)) same in ground arith)
  | inr e ↦ (let rest = total-update n q i xs (ground arith) in ground arith)
]

total-remove_out :
    (n : ℕ) (q : ℕ → List ℕ) (se : ℕ)
    → ((i : ℕ) → i < n → contains se (q i) ≡ false)
    → total n (λ i. remove se (q i)) ≡ total n q
unfolding total
total-remove_out zero q se h = refl
total-remove_out (suc n) q se h =
    let rest = total-remove_out n q se (λ i l. h i (omega arith)) in
    let same = ap (λ (xs : List ℕ). length xs) (remove-absent se (q n) (h n (omega arith))) in
    omega arith

pub total-remove :
    (n : ℕ) (q : ℕ → List ℕ) (se p : ℕ)
    → p < n
    → contains se (q p) ≡ true
    → ((i : ℕ) → (i == p) ≡ false → contains se (q i) ≡ false)
    → suc (total n (λ i. remove se (q i))) ≡ total n q
unfolding total
total-remove zero q se p l c h = absurd (omega arith)
total-remove (suc n) q se p l c h = elim (Bool-cases (p == n)) [
  | inl e ↦
      (let one = length-remove se (q n) (at_other q se p n (ground arith) c) in
        let rest = total-remove_out n q se (λ i b. h i (ground arith)) in omega arith)
  | inr e ↦
      (let rest = total-remove n q se p (ground arith) c h in
        let same = ap (λ (xs : List ℕ). length xs) (remove-absent se (q n) (h n (ground arith))) in
        omega arith)
]

pub total-empty : (n : ℕ) (q : ℕ → List ℕ) (i : ℕ) → total n q ≡ 0 → i < n → is_empty (q i) ≡ true
unfolding total
total-empty zero q i h l = absurd (omega arith)
total-empty (suc n) q i h l = elim (Bool-cases (i == n)) [
  | inl e ↦
      (let same : i ≡ n = ground arith in
        ap (λ (j : ℕ). is_empty (q j)) same ∙ empty (q n) (omega arith))
  | inr e ↦ total-empty n q i (omega arith) (ground arith)
]
  where
    empty : (xs : List ℕ) → length xs ≡ 0 → is_empty xs ≡ true
    empty [] h = refl
    empty (x ∷ xs) h = absurd (ground arith)

pub total-none :
    (n : ℕ) (q : ℕ → List ℕ) → ((i : ℕ) → i < n → is_empty (q i) ≡ true) → total n q ≡ 0
unfolding total
total-none zero q h = refl
total-none (suc n) q h =
    let rest = total-none n q (λ i l. h i (omega arith)) in
    let here = length-is_empty (q n) (h n (omega arith)) in omega arith
  where
    length-is_empty : (xs : List ℕ) → is_empty xs ≡ true → length xs ≡ 0
    length-is_empty [] e = refl
    length-is_empty (x ∷ xs) e = absurd (cc)

pub contains-remove-Distinct :
    (se q : ℕ) (xs : List ℕ)
    → Distinct xs
    → contains q (remove se xs) ≡ (not (se == q) && contains q xs)
contains-remove-Distinct se q xs d = elim (Bool-cases (se == q)) [
  | inl e ↦
      (let same : q ≡ se = ground arith in
        let gone = contains-remove se xs d in
        let at = ap (λ (j : ℕ). contains j (remove se xs)) same in ground arith)
  | inr e ↦ (let o = contains-remove_other se q xs (ground arith) in ground arith)
]

-- Queues that share no entity hold no more entities than there are numbers for them.
pub total-bound :
    (n : ℕ) (prio : ℕ → ℕ) (limit : ℕ) (q : ℕ → List ℕ)
    → ((i : ℕ) → Distinct (q i))
    → ((i se : ℕ) → contains se (q i) ≡ true → prio se ≡ i)
    → ((i se : ℕ) → contains se (q i) ≡ true → se < limit)
    → total n q ≤ limit
unfolding contains
total-bound n prio zero q d p b =
    let z = total-none n q (λ i l. no_member (q i) (λ se c. b i se c)) in omega arith
  where
    no_member : (xs : List ℕ) → ((se : ℕ) → contains se xs ≡ true → se < 0) → is_empty xs ≡ true
    no_member [] h = refl
    no_member (x ∷ xs) h = absurd (let l = h x (ground arith) in omega arith)
total-bound n prio (suc m) q d p b =
    let rest = λ (i : ℕ). remove m (q i) in
    let without =
      total-bound n prio m rest (λ i. remove-Distinct m (q i) (d i))
        (λ i se c. let k = rest_in i se c in p i se k.0)
        (λ i se c. let k = rest_in i se c in let l = b i se k.0 in let o = k.1 in ground arith) in
    elim (Bool-cases (on_queues n q m)) [
      | inl y ↦
          (let (i, l, c) = on_queues-some n q m y in
            let one = total-remove n q m i l c (λ j k. elsewhere i j c k) in omega arith)
      | inr y ↦ (let same = total-remove_out n q m (λ i l. off_queues n q m i l y) in omega arith)
    ]
  where
    rest_in :
        (i se : ℕ)
        → contains se (remove m (q i)) ≡ true
        → (contains se (q i) ≡ true) × ((m == se) ≡ false)
    rest_in i se c =
        let k = contains-remove-Distinct m se (q i) (d i) in (ground arith, ground arith)

    elsewhere : (i j : ℕ) → contains m (q i) ≡ true → (j == i) ≡ false → contains m (q j) ≡ false
    elsewhere i j c k = elim (Bool-cases (contains m (q j))) [
      | inl y ↦ absurd (let a = p i m c in let b' = p j m y in ground arith)
      | inr y ↦ y
    ]

pub IsArray-small :
    (prio : ℕ → ℕ) (q : ℕ → List ℕ)
    → ((i : ℕ) → Distinct (q i))
    → ((i se : ℕ) → contains se (q i) ≡ true → prio se ≡ i)
    → ((i se : ℕ) → contains se (q i) ≡ true → suc se < u32_mod)
    → total max_rt_prio q < u32_mod
IsArray-small prio q d p a =
    let b =
      total-bound max_rt_prio prio (u32_mod - 1) q d p
        (λ i se c. let k = a i se c in omega arith) in
    omega arith
