-- ===== src/Watch/Output.antt =====
-- The text in the output buffer after a read has brought it up to date.
use linux_kernel.Prelude.{
  ℕ, ◌+◌, ◌*◌, ◌≤◌, ◌<◌, ◌≡◌, refl, sym, ap, ◌∙◌, List, [], ◌∷◌, ◌++◌, append-nil, append_assoc,
  arith, if◌then◌else◌, if_cases, ◌==◌, length, length-append, set, take, drop, take-append-drop,
  length-take, length-set, some,
}
use mathlib.Core.Path.{subst}
use linux_kernel.Watch.{
  int2char, put, rev_onto, low_digits, strlen, max_size, Watch, append_number, Process,
  update_status, int_to_u64, ram_measure, cpu_measure, nsecc_to_clock_t,
}
use linux_kernel.Watch.Digits.{
  decimal, rev_onto-append, length-decimal, HasNoNul, empty, char, HasNoNul-append,
  decimal-HasNoNul,
}

-- Numbers, each followed by a blank.
abbrev pub report : List ℕ → List ℕ
report [] = []
report (n ∷ ns) = decimal n ++ (32 ∷ report ns)

int2char-decimal :
    (n p : ℕ) (output : List ℕ) → int2char n p output ≡ put output p (decimal n ++ (32 ∷ 0 ∷ []))
unfolding int2char decimal
int2char-decimal n p output =
    if_cases
      (λ t.
        (if n == 0
          then put output p (48 ∷ 32 ∷ 0 ∷ [])
          else put output p (rev_onto (low_digits 20 n) (32 ∷ 0 ∷ [])))
        ≡ put output p (t ++ (32 ∷ 0 ∷ [])))
      (n == 0) (λ z. rw z refl)
      (λ z. rw z (ap (put output p) (rev_onto-append (low_digits 20 n) [] (32 ∷ 0 ∷ []))))

set-append :
    (pre : List ℕ) (o x : ℕ) (rest : List ℕ)
    → set (pre ++ (o ∷ rest)) (length pre) x ≡ pre ++ (x ∷ rest)
set-append [] o x rest = refl
set-append (y ∷ pre) o x rest = ap (λ l. y ∷ l) (set-append pre o x rest)

-- Stores behind a prefix replace what stands there.
put-append :
    (xs pre old rest : List ℕ)
    → length old ≡ length xs
    → put (pre ++ (old ++ rest)) (length pre) xs ≡ pre ++ (xs ++ rest)
put-append [] pre [] rest h = refl
put-append [] pre (o ∷ old) rest h = absurd (omega arith)
put-append (x ∷ xs) pre [] rest h = absurd (omega arith)
put-append (x ∷ xs) pre (o ∷ old) rest h =
    ap (λ b. put b (length pre + 1) xs)
      (set-append pre o x (old ++ rest) ∙ sym (append_assoc pre (x ∷ []) (old ++ rest)))
    ∙ ap (λ p. put ((pre ++ (x ∷ [])) ++ (old ++ rest)) p xs)
        (omega (arith, length-append pre (x ∷ [])))
    ∙ put-append xs (pre ++ (x ∷ [])) old rest (omega arith)
    ∙ append_assoc pre (x ∷ []) (xs ++ rest)

-- Into a tail that is long enough.
put-tail :
    (xs pre tail : List ℕ)
    → length xs ≤ length tail
    → put (pre ++ tail) (length pre) xs ≡ pre ++ (xs ++ drop (length xs) tail)
put-tail xs pre tail h =
    ap (λ t. put (pre ++ t) (length pre) xs) (sym (take-append-drop (length xs) tail))
    ∙ put-append xs pre (take (length xs) tail) (drop (length xs) tail)
        (omega (arith, length-take (length xs) tail))

strlen-append : {t : List ℕ} (rest : List ℕ) → HasNoNul t → strlen (t ++ (0 ∷ rest)) ≡ length t
strlen-append rest empty = refl
strlen-append rest (char {x = x} {xs = xs} l h) = ground (arith, strlen-append rest h)

-- The buffer starts with the text, and the next number goes behind it.
pub record Shows (t : List ℕ) (w : Watch) : Type 0 where
  pub rest : List ℕ
  pub prefix : w.output ≡ t ++ rest
  pub size : length w.output ≡ max_size
  pub len : w.out_len ≡ length t
  pub chars : HasNoNul t

append_numbers : List ℕ → Watch → Watch
append_numbers [] w = w
append_numbers (n ∷ ns) w = append_numbers ns (append_number n w)

length-put : (xs output : List ℕ) (p : ℕ) → length (put output p xs) ≡ length output
length-put [] output p = refl
length-put (x ∷ xs) output p = length-put xs (set output p x) (p + 1) ∙ length-set output p x

regroup :
    (t d rest : List ℕ)
    → t ++ ((d ++ (32 ∷ 0 ∷ [])) ++ rest) ≡ (t ++ (d ++ (32 ∷ []))) ++ (0 ∷ rest)
regroup t d rest =
    ap (λ l. t ++ l) (append_assoc d (32 ∷ 0 ∷ []) rest ∙ sym (append_assoc d (32 ∷ []) (0 ∷ rest)))
    ∙ sym (append_assoc t (d ++ (32 ∷ [])) (0 ∷ rest))

room :
    {t : List ℕ} (n : ℕ) {w : Watch} (s : Shows t w)
    → length t + 22 ≤ max_size
    → length (decimal n ++ (32 ∷ 0 ∷ [])) ≤ length s.rest
room {t = t} n s h = omega (
  arith,
  length-append (decimal n) (32 ∷ 0 ∷ []),
  length-decimal n,
  sym s.size ∙ ap length s.prefix ∙ length-append t s.rest,
)

written :
    {t : List ℕ} (n : ℕ) {w : Watch} (s : Shows t w)
    → length t + 22 ≤ max_size
    → int2char n w.out_len w.output
      ≡ (t ++ (decimal n ++ (32 ∷ []))) ++ (0 ∷ drop (length (decimal n ++ (32 ∷ 0 ∷ []))) s.rest)
written {t = t} n {w = w} s h =
    let text = decimal n ++ (32 ∷ 0 ∷ []) in
    int2char-decimal n w.out_len w.output
    ∙ ap (λ p. put w.output p text) s.len
    ∙ ap (λ b. put b (length t) text) s.prefix
    ∙ put-tail text t s.rest (room n s h)
    ∙ regroup t (decimal n) _

append_number-Shows :
    {t : List ℕ} (n : ℕ) {w : Watch}
    → Shows t w
    → length t + 22 ≤ max_size
    → Shows (t ++ (decimal n ++ (32 ∷ []))) (append_number n w)
append_number-Shows {t = t} n {w = w} s h =
    let chars =
      HasNoNul-append s.chars (HasNoNul-append (decimal-HasNoNul n) (char (omega arith) empty)) in
    record {
      rest = 0 ∷ drop (length (decimal n ++ (32 ∷ 0 ∷ []))) s.rest;
      prefix = written n s h;
      size =
          ap length (int2char-decimal n w.out_len w.output)
          ∙ length-put (decimal n ++ (32 ∷ 0 ∷ [])) w.output w.out_len
          ∙ s.size;
      len = ap strlen (written n s h) ∙ strlen-append _ chars;
      chars = chars;
    }

-- Five numbers of at most 20 digits with their blanks and the final zero fit the buffer.
append_numbers-Shows :
    (ns : List ℕ) {t : List ℕ} {w : Watch}
    → Shows t w
    → length t + 21 * length ns < max_size
    → Shows (t ++ report ns) (append_numbers ns w)
unfolding append_numbers
append_numbers-Shows [] {t = t} {w = w} s h = subst (λ l. Shows l w) (sym (append-nil t)) s
append_numbers-Shows (n ∷ ns) {t = t} {w = w} s h =
    subst (λ l. Shows l (append_numbers ns (append_number n w)))
      (append_assoc t (decimal n ++ (32 ∷ [])) (report ns)
        ∙ ap (λ l. t ++ l) (append_assoc (decimal n) (32 ∷ []) (report ns)))
      (append_numbers-Shows ns (append_number-Shows n s (omega arith)) (
        omega (
          arith,
          length-append t (decimal n ++ (32 ∷ [])),
          length-append (decimal n) (32 ∷ []),
          length-decimal n,
        )))

-- A read at position 0 while the process lives leaves in the buffer, up to its first zero, the decimal
-- texts of what ram_measure returns, an int that is extended by its sign to 64 bits, and of the four
-- times in clock ticks, each with a blank behind it; they stay within the buffer, and out_len is their
-- length.
pub update_status_lem :
    (p : Process) (ptes : ℕ → ℕ) (w : Watch)
    → length w.output ≡ max_size
    → let w' = (update_status (some p) ptes w).0 in
      let times = cpu_measure p.times p.again in
      Shows
        (report (
          int_to_u64 (ram_measure p.mm ptes).1
          ∷ nsecc_to_clock_t (times.0)
          ∷ nsecc_to_clock_t (times.1)
          ∷ nsecc_to_clock_t p.cutime
          ∷ nsecc_to_clock_t p.cstime
          ∷ []))
        w'
      × (w'.out_len ≡ strlen w'.output)
unfolding update_status append_numbers
update_status_lem p ptes w h =
    let start : Shows [] (record w { out_len = 0 }) = record {
      rest = w.output;
      prefix = refl;
      size = h;
      len = refl;
      chars = empty;
    } in
    (append_numbers-Shows (_ ∷ _ ∷ _ ∷ _ ∷ _ ∷ []) start (omega arith), refl)
