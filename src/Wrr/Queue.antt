-- ===== src/Wrr/Queue.antt =====
-- The run queue of wrr.c as a list without repetitions: its length, its total weight, and what
-- `remove` and an append do to them.
use linux_kernel.Prelude.{
  ℕ, suc, ◌+◌, ◌≡◌, refl, Bool, true, false, ◌||◌, List, [], ◌∷◌, ◌++◌, arith, ◌==◌, length, some,
  not, Bool-cases, inl, inr,
}
use linux_kernel.Sched.{Task, update}
use linux_kernel.Wrr.{remove, next_entry, prev_entry, same_entry, has_neighbours}

unfoldable pub contains : ℕ → List ℕ → Bool
contains p [] = false
contains p (x ∷ xs) = x == p || contains p xs

abbrev pub Distinct : List ℕ → Type 0
Distinct [] = Unit {0}
Distinct (x ∷ xs) = (contains x xs ≡ false) × Distinct xs

-- The sum of the weights of the queued tasks.
unfoldable pub weights : (ℕ → Task) → List ℕ → ℕ
weights ts [] = 0
weights ts (x ∷ xs) = (ts x).wrr.weight + weights ts xs

pub contains-append :
    (p : ℕ) (xs ys : List ℕ) → contains p (xs ++ ys) ≡ (contains p xs || contains p ys)
unfolding contains
contains-append p [] ys = refl
contains-append p (x ∷ xs) ys = ground (arith, contains-append p xs ys)

pub Distinct-append_one :
    (p : ℕ) (xs : List ℕ) → Distinct xs → contains p xs ≡ false → Distinct (xs ++ (p ∷ []))
unfolding contains
Distinct-append_one p [] d h = (refl, tt)
Distinct-append_one p (x ∷ xs) d h =
    (ground (arith, contains-append x xs (p ∷ [])), Distinct-append_one p xs d.1 (ground arith))

pub remove-absent : (p : ℕ) (xs : List ℕ) → contains p xs ≡ false → remove p xs ≡ xs
unfolding contains remove
remove-absent p [] h = refl
remove-absent p (x ∷ xs) h = ground (arith, remove-absent p xs)

pub length-remove :
    (p : ℕ) (xs : List ℕ) → contains p xs ≡ true → suc (length (remove p xs)) ≡ length xs
unfolding contains remove
length-remove p [] h = absurd (cc)
length-remove p (x ∷ xs) h = ground (arith, length-remove p xs)

contains-remove_ne :
    (p q : ℕ) (xs : List ℕ) → contains q xs ≡ false → contains q (remove p xs) ≡ false
unfolding contains remove
contains-remove_ne p q [] h = refl
contains-remove_ne p q (x ∷ xs) h = ground (arith, contains-remove_ne p q xs)

-- A removal leaves the other tasks.
pub contains-remove_other :
    (p q : ℕ) (xs : List ℕ) → (q == p) ≡ false → contains q (remove p xs) ≡ contains q xs
unfolding contains remove
contains-remove_other p q [] h = refl
contains-remove_other p q (x ∷ xs) h = ground (arith, contains-remove_other p q xs h)

pub remove-Distinct : (p : ℕ) (xs : List ℕ) → Distinct xs → Distinct (remove p xs)
unfolding remove
remove-Distinct p [] d = tt
remove-Distinct p (x ∷ xs) d =
    ground (arith, remove-Distinct p xs d.1, contains-remove_ne p x xs d.0)

pub contains-remove : (p : ℕ) (xs : List ℕ) → Distinct xs → contains p (remove p xs) ≡ false
unfolding contains remove
contains-remove p [] d = refl
contains-remove p (x ∷ xs) d = ground (arith, contains-remove p xs d.1)

pub weights-append :
    (ts : ℕ → Task) (xs ys : List ℕ) → weights ts (xs ++ ys) ≡ weights ts xs + weights ts ys
unfolding weights
weights-append ts [] ys = omega arith
weights-append ts (x ∷ xs) ys = omega (arith, weights-append ts xs ys)

pub weights-remove :
    (ts : ℕ → Task) (p : ℕ) (xs : List ℕ)
    → contains p xs ≡ true
    → (ts p).wrr.weight + weights ts (remove p xs) ≡ weights ts xs
unfolding weights contains remove
weights-remove ts p [] h = absurd (cc)
weights-remove ts p (x ∷ xs) h = elim (Bool-cases (x == p)) [
  | inl e ↦ let e' : x ≡ p = ground arith in rw (e, e') refl
  | inr e ↦ rw e (omega (arith, weights-remove ts p xs (ground arith)))
]

-- A change of one task's record shows in the sum only if the task is queued and its weight differs.
pub weights-update_absent :
    (ts : ℕ → Task) (p : ℕ) (t : Task) (xs : List ℕ)
    → contains p xs ≡ false
    → weights (update ts p t) xs ≡ weights ts xs
unfolding weights contains
weights-update_absent ts p t [] h = refl
weights-update_absent ts p t (x ∷ xs) h = ground (arith, weights-update_absent ts p t xs)

pub weights-update_same :
    (ts : ℕ → Task) (p : ℕ) (t : Task) (xs : List ℕ)
    → t.wrr.weight ≡ (ts p).wrr.weight
    → weights (update ts p t) xs ≡ weights ts xs
unfolding weights
weights-update_same ts p t [] h = refl
weights-update_same ts p t (x ∷ xs) h = ground (arith, weights-update_same ts p t xs h)

-- The links of an entity: they agree exactly when it is alone in the queue (or not in it).
prev-next_differ :
    (p y : ℕ) (xs : List ℕ)
    → contains y xs ≡ false
    → contains p xs ≡ true
    → Distinct xs
    → same_entry (prev_entry (some y) p xs) (next_entry p xs) ≡ false
unfolding contains prev_entry next_entry
prev-next_differ p y [] hy hp d = absurd (cc)
prev-next_differ p y (x ∷ []) hy hp d = ground arith
prev-next_differ p y (x ∷ z ∷ zs) hy hp d = elim (Bool-cases (x == p)) [
  | inl e ↦ rw e (ground arith)
  | inr e ↦ rw e (prev-next_differ p x (z ∷ zs) d.0 (ground arith) d.1)
]

pub has_neighbours_lem :
    (p : ℕ) (xs : List ℕ)
    → contains p xs ≡ true
    → Distinct xs
    → has_neighbours p xs ≡ not (length xs == 1)
unfolding has_neighbours contains prev_entry next_entry
has_neighbours_lem p [] hp d = absurd (cc)
has_neighbours_lem p (x ∷ []) hp d = ground arith
has_neighbours_lem p (x ∷ z ∷ zs) hp d = elim (Bool-cases (x == p)) [
  | inl e ↦ rw e (ground arith)
  | inr e ↦ rw e (ground (arith, prev-next_differ p x (z ∷ zs) d.0 (ground arith) d.1))
]

-- The sum after the record of an absent task has changed and the task was linked, at either end.
module _ (ts : ℕ → Task) (p : ℕ) (t : Task) (xs : List ℕ) (absent : contains p xs ≡ false) where
  pub weights-link_head : weights (update ts p t) (p ∷ xs) ≡ t.wrr.weight + weights ts xs
  unfolding weights
  weights-link_head = ground (arith, weights-update_absent ts p t xs absent)

  pub weights-link_tail : weights (update ts p t) (xs ++ (p ∷ [])) ≡ weights ts xs + t.wrr.weight
  unfolding weights
  weights-link_tail =
      ground
        (arith, weights-append (update ts p t) xs (p ∷ []), weights-update_absent ts p t xs absent)
