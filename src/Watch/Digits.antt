-- ===== src/Watch/Digits.antt =====
-- The decimal digits that int2char writes.
use linux_kernel.Prelude.{
  ℕ, zero, suc, ◌+◌, ◌-◌, ◌*◌, ◌/◌, ◌%◌, ◌^◌, ◌≤◌, ◌<◌, ◌≡◌, refl, ap, ◌∙◌, List, [], ◌∷◌, ◌++◌,
  arith, if◌then◌else◌, if_cases, ◌==◌, length,
}
use linux_kernel.Watch.{low_digits, rev_onto}

-- A reader of decimal digits, the highest first.
abbrev pub read_decimal : ℕ → List ℕ → ℕ
read_decimal acc [] = acc
read_decimal acc (x ∷ xs) = read_decimal (acc * 10 + (x - 48)) xs

-- The text of a number.
unfoldable pub decimal : ℕ → List ℕ
decimal n = if n == 0 then 48 ∷ [] else rev_onto (low_digits 20 n) []

pub rev_onto-append : (xs ys zs : List ℕ) → rev_onto xs (ys ++ zs) ≡ rev_onto xs ys ++ zs
rev_onto-append [] ys zs = refl
rev_onto-append (x ∷ xs) ys zs = rev_onto-append xs (x ∷ ys) zs

read_decimal-rev_onto :
    (fuel n : ℕ) (rest : List ℕ)
    → n < 10 ^ fuel
    → read_decimal 0 (rev_onto (low_digits fuel n) rest) ≡ read_decimal n rest
unfolding low_digits
read_decimal-rev_onto zero n rest h = ap (λ m. read_decimal m rest) (omega arith)
read_decimal-rev_onto (suc k) n rest h =
    if_cases (λ ds. read_decimal 0 (rev_onto ds rest) ≡ read_decimal n rest) (n == 0)
      (λ z. ap (λ m. read_decimal m rest) (ground arith))
      (λ _.
        read_decimal-rev_onto k (n / 10) ((n % 10 + 48) ∷ rest) (omega arith)
        ∙ ap (λ m. read_decimal m rest) (omega arith))

-- Reading the decimal text of a number below 2^64 gives the number.
pub read_decimal-decimal : (n : ℕ) → n < 2 ^ 64 → read_decimal 0 (decimal n) ≡ n
unfolding decimal
read_decimal-decimal n h =
    if_cases (λ t. read_decimal 0 t ≡ n) (n == 0) (λ z. ground arith)
      (λ _. read_decimal-rev_onto 20 n [] (omega arith))

length-low_digits : (fuel n : ℕ) → length (low_digits fuel n) ≤ fuel
unfolding low_digits
length-low_digits zero n = omega arith
length-low_digits (suc k) n = ground (arith, length-low_digits k (n / 10))

length-rev_onto : (xs ys : List ℕ) → length (rev_onto xs ys) ≡ length xs + length ys
length-rev_onto [] ys = omega arith
length-rev_onto (x ∷ xs) ys = length-rev_onto xs (x ∷ ys) ∙ omega arith

pub length-decimal : (n : ℕ) → length (decimal n) ≤ 20
unfolding decimal
length-decimal n =
    let digits : length (rev_onto (low_digits 20 n) []) ≤ 20 =
      omega (arith, length-rev_onto (low_digits 20 n) [], length-low_digits 20 n) in
    if_cases (λ t. length t ≤ 20) (n == 0) {x = 48 ∷ []} (λ _. omega arith) (λ _. digits)

-- A text without zero bytes.
pub data HasNoNul : List ℕ → Type 0 where
  empty : HasNoNul []
  char : {x : ℕ} {xs : List ℕ} → 0 < x → HasNoNul xs → HasNoNul (x ∷ xs)

pub HasNoNul-append : {xs ys : List ℕ} → HasNoNul xs → HasNoNul ys → HasNoNul (xs ++ ys)
HasNoNul-append empty k = k
HasNoNul-append (char l h) k = char l (HasNoNul-append h k)

rev_onto-HasNoNul : {xs ys : List ℕ} → HasNoNul xs → HasNoNul ys → HasNoNul (rev_onto xs ys)
rev_onto-HasNoNul empty k = k
rev_onto-HasNoNul (char l h) k = rev_onto-HasNoNul h (char l k)

low_digits-HasNoNul : (fuel n : ℕ) → HasNoNul (low_digits fuel n)
unfolding low_digits
low_digits-HasNoNul zero n = empty
low_digits-HasNoNul (suc k) n =
    if_cases HasNoNul (n == 0) (λ _. empty)
      (λ _. char (omega arith) (low_digits-HasNoNul k (n / 10)))

pub decimal-HasNoNul : (n : ℕ) → HasNoNul (decimal n)
unfolding decimal
decimal-HasNoNul n =
    if_cases HasNoNul (n == 0) (λ _. char (omega arith) empty)
      (λ _. rev_onto-HasNoNul (low_digits-HasNoNul 20 n) empty)
