-- ===== src/Mtest/Commands.antt =====
-- How the words of a command get to the variables of proc_write.
use linux_kernel.Prelude.{
  ℕ, ◌+◌, ◌-◌, ◌<◌, ◌≡◌, ◌≢◌, refl, sym, ap, ◌∙◌, false, List, [], ◌∷◌, ◌++◌, append_assoc, some,
  arith, ◌==◌, ◌||◌, ltb, length, length-append, take,
}
use linux_kernel.Prelude.Int.{pos}
use linux_kernel.Mtest.{Env, State, tokens, c_string, dispatch, run_command, proc_write}

-- Characters that are neither a blank nor the end of a string.
pub data Plain : List ℕ → Type 0 where
  empty : Plain []
  char : {x : ℕ} {xs : List ℕ} → x ≢ 0 → x ≢ 32 → Plain xs → Plain (x ∷ xs)

-- A word of a command: it is not empty.
pub data Word : List ℕ → Type 0 where
  word : {x : ℕ} {xs : List ℕ} → Plain (x ∷ xs) → Word (x ∷ xs)

Plain-Word : {t : List ℕ} → Word t → Plain t
Plain-Word (word p) = p

tokens-append : {t : List ℕ} (rest : List ℕ) → Plain t → tokens (t ++ (32 ∷ rest)) ≡ t ∷ tokens rest
unfolding tokens
tokens-append rest empty = refl
tokens-append rest (char {x = x} {xs = xs} z b p) = ground (arith, tokens-append rest p)

c_string-append : {t : List ℕ} (rest : List ℕ) → Plain t → c_string (t ++ rest) ≡ t ++ c_string rest
c_string-append rest empty = refl
c_string-append rest (char {x = x} {xs = xs} z b p) = ground (arith, c_string-append rest p)

take-append : (t rest : List ℕ) → take (length t) (t ++ rest) ≡ t
take-append [] rest = refl
take-append (x ∷ xs) rest = ap (λ l. x ∷ l) (take-append xs rest)

-- The words one after the other, each with a blank behind it.
abbrev pub sentence : List (List ℕ) → List ℕ
sentence [] = []
sentence (t ∷ ts) = t ++ (32 ∷ sentence ts)

-- The same with the last blank replaced by any character, as the user writes it (a line feed).
abbrev pub command : List (List ℕ) → List ℕ → ℕ → List ℕ
command ts last c = sentence ts ++ (last ++ (c ∷ []))

pub data Words : List (List ℕ) → Type 0 where
  no_words : Words []
  words : {t : List ℕ} {ts : List (List ℕ)} → Word t → Words ts → Words (t ∷ ts)

-- The words, and the empty token behind the last blank.
abbrev pub and_end : List (List ℕ) → List ℕ → List (List ℕ)
and_end [] last = last ∷ [] ∷ []
and_end (t ∷ ts) last = t ∷ and_end ts last

c_string-sentence :
    {ts : List (List ℕ)} {last : List ℕ}
    → Words ts
    → Word last
    → c_string (sentence ts ++ (last ++ (32 ∷ []))) ≡ sentence ts ++ (last ++ (32 ∷ []))
c_string-sentence {last = last} no_words w = c_string-append (32 ∷ []) (Plain-Word w)
c_string-sentence {last = last} (words {t = t} {ts = ts} v vs) w =
    ap c_string (append_assoc t (32 ∷ sentence ts) (last ++ (32 ∷ [])))
    ∙ c_string-append (32 ∷ (sentence ts ++ (last ++ (32 ∷ [])))) (Plain-Word v)
    ∙ ap (λ l. t ++ (32 ∷ l)) (c_string-sentence vs w)
    ∙ sym (append_assoc t (32 ∷ sentence ts) (last ++ (32 ∷ [])))

tokens-sentence :
    {ts : List (List ℕ)} {last : List ℕ}
    → Words ts
    → Word last
    → tokens (sentence ts ++ (last ++ (32 ∷ []))) ≡ and_end ts last
tokens-sentence no_words w = tokens-append [] (Plain-Word w) ∙ unfold tokens in refl
tokens-sentence {last = last} (words {t = t} {ts = ts} v vs) w =
    ap tokens (append_assoc t (32 ∷ sentence ts) (last ++ (32 ∷ [])))
    ∙ tokens-append (sentence ts ++ (last ++ (32 ∷ []))) (Plain-Word v)
    ∙ ap (λ l. t ∷ l) (tokens-sentence vs w)

run_command-body :
    (e : Env) (s : State) (body : List ℕ) (c len : ℕ)
    → length (body ++ (c ∷ [])) ≡ len
    → len < 128
    → run_command e s len (body ++ (c ∷ []))
      ≡ dispatch e s (pos (len + 1)) (tokens (c_string (body ++ (32 ∷ []))))
unfolding run_command
run_command-body e s body c len l h =
    let size = length-append body (c ∷ []) in
    let inside : (len == 0 || len == 128) ≡ false = ground (arith, size) in
    let n : len - 1 ≡ length body = omega (arith, size) in
    rw (inside, n, take-append body (c ∷ [])) refl

-- A command of at most 127 characters, at position 0, reaches the test of its first word.
pub proc_write-dispatch :
    (e : Env) (s : State) (ts : List (List ℕ)) (last : List ℕ) (c : ℕ)
    → Words ts
    → Word last
    → length (command ts last c) < 128
    → let len = length (command ts last c) in
      proc_write e s len 0 (some (command ts last c))
      ≡ dispatch e s (pos (len + 1)) (and_end ts last)
unfolding proc_write
proc_write-dispatch e s ts last c vs w h =
    let len = length (command ts last c) in
    let fits : ltb 128 len ≡ false = ground arith in
    let same = append_assoc (sentence ts) last (c ∷ []) in
    rw fits (
      ap (run_command e s len) (sym same)
      ∙ run_command-body e s (sentence ts ++ last) c len (ap length same) h
      ∙ ap (λ t. dispatch e s (pos (len + 1)) (tokens (c_string t)))
          (append_assoc (sentence ts) last (32 ∷ []))
      ∙ ap (λ t. dispatch e s (pos (len + 1)) (tokens t)) (c_string-sentence vs w)
      ∙ ap (dispatch e s (pos (len + 1))) (tokens-sentence vs w))
