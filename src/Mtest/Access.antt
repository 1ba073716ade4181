-- ===== src/Mtest/Access.antt =====
-- What reads and writes through /proc/mtest do to the memory of a process.
use linux_kernel.Prelude.{
  ℕ, ◌+◌, ◌<◌, ◌≡◌, ◌≢◌, refl, ◌∙◌, List, [], ◌∷◌, Option, none, some, arith, length, ◌⊎◌, inl, inr,
  same_text,
}
use linux_kernel.Prelude.Int.{pos}
use linux_kernel.Mtest.{
  Env, State, Tables, returns, fault, get_addr, parse_args, keep_or, no_args, dispatch, do_read,
  do_write, of_task, resolve, place, no_place, read_byte, write_byte, proc_write,
}
use linux_kernel.Mtest.Commands.{
  empty, char, Word, word, words, no_words, command, proc_write-dispatch,
}

abbrev pub write_words : List ℕ → List ℕ → List (List ℕ)
write_words p a = (119 ∷ []) ∷ p ∷ a ∷ []

abbrev pub read_words : List ℕ → List (List ℕ)
read_words p = (114 ∷ []) ∷ p ∷ []

-- The words name a process, an address of it that is mapped, and its place in memory.
pub record Names (e : Env) (p a : List ℕ) (at : ℕ) : Type 0 where
  pub p_word : Word p
  pub a_word : Word a
  pub pid : ℕ
  pub addr : ℕ
  pub walk : ℕ → Tables
  pub pid_text : e.kstrtoul p ≡ some pid
  pub addr_text : e.kstrtoul (48 ∷ 120 ∷ a) ≡ some addr
  pub found : e.find pid ≡ some walk
  pub mapped : get_addr walk addr ≡ some at

keep_none : (o : Option ℕ) → keep_or none o ≡ o
keep_none none = refl
keep_none (some v) = refl

write_args :
    (e : Env) {p a v : List ℕ}
    → Word p
    → Word a
    → Word v
    → parse_args e 3 0 (p ∷ a ∷ v ∷ [] ∷ []) no_args ≡ record {
      target_pid = e.kstrtoul p;
      addr = e.kstrtoul (48 ∷ 120 ∷ a);
      content = e.kstrtoul v;
    }
unfolding parse_args
write_args e (word {x = x} {xs = xs} p) (word {x = y} {xs = ys} a) (word {x = z} {xs = zs} v) =
    rw
      (
        keep_none (e.kstrtoul (x ∷ xs)),
        keep_none (e.kstrtoul (48 ∷ 120 ∷ y ∷ ys)),
        keep_none (e.kstrtoul (z ∷ zs)),
      )
      refl

read_args :
    (e : Env) {p a : List ℕ}
    → Word p
    → Word a
    → parse_args e 2 0 (p ∷ a ∷ [] ∷ []) no_args
      ≡ record { target_pid = e.kstrtoul p; addr = e.kstrtoul (48 ∷ 120 ∷ a); content = none }
unfolding parse_args
read_args e (word {x = x} {xs = xs} p) (word {x = y} {xs = ys} a) =
    rw (keep_none (e.kstrtoul (x ∷ xs)), keep_none (e.kstrtoul (48 ∷ 120 ∷ y ∷ ys))) refl

resolve_lem :
    (e : Env) {p a : List ℕ} {at : ℕ}
    → Names e p a at
    → resolve e (e.kstrtoul p) (e.kstrtoul (48 ∷ 120 ∷ a)) ≡ place at
unfolding resolve
resolve_lem e n = rw (n.pid_text, n.addr_text) (rw (n.found, of_task) (rw (n.mapped, of_task) refl))

letter : {x : ℕ} → x ≢ 0 → x ≢ 32 → Word (x ∷ [])
letter z b = word (char z b empty)

-- The command "w pid address value", with any character behind it: the value's byte is stored.
pub write_command :
    (e : Env) (s : State) {p a v : List ℕ} {at val : ℕ} (c : ℕ)
    → Names e p a at
    → Word v
    → e.kstrtoul v ≡ some val
    → length (command (write_words p a) v c) < 128
    → let len = length (command (write_words p a) v c) in
      proc_write e s len 0 (some (command (write_words p a) v c))
      ≡ returns (pos (len + 1)) (write_byte s at val)
unfolding dispatch do_write same_text
write_command e s {p = p} {a = a} {v = v} c n w h l =
    proc_write-dispatch e s (write_words p a) v c
      (words (letter (ground arith) (ground arith)) (words n.p_word (words n.a_word no_words))) w l
    ∙ rw (write_args e n.p_word n.a_word w) (rw (resolve_lem e n, do_write) (rw (h, do_write) refl))

-- The command "r pid address": the byte is put into the output buffer.
pub read_command :
    (e : Env) (s : State) {p a : List ℕ} {at : ℕ} (c : ℕ)
    → Names e p a at
    → length (command (read_words p) a c) < 128
    → let len = length (command (read_words p) a c) in
      proc_write e s len 0 (some (command (read_words p) a c))
      ≡ returns (pos (len + 1)) (read_byte s at)
unfolding dispatch do_read same_text
read_command e s {p = p} {a = a} c n l =
    proc_write-dispatch e s (read_words p) a c
      (words (letter (ground arith) (ground arith)) (words n.p_word no_words)) n.a_word l
    ∙ rw (read_args e n.p_word n.a_word) (rw (resolve_lem e n, do_read) refl)

no_place_at :
    (e : Env) (pid addr : ℕ)
    → (e.find pid ≡ none)
      ⊎ ((walk : ℕ → Tables) × (e.find pid ≡ some walk) × (get_addr walk addr ≡ none))
    → resolve e (some pid) (some addr) ≡ no_place fault
unfolding resolve
no_place_at e pid addr (inl h) = rw h refl
no_place_at e pid addr (inr (walk, h, k)) = rw (h, of_task) (rw (k, of_task) refl)

-- A read command whose words are numbers, of a process that is not there or at an address that has no
-- page: the kernel faults, on a NULL task or on the address -1.
pub read_of_nothing :
    (e : Env) (s : State) {p a : List ℕ} (pid addr c : ℕ)
    → Word p
    → Word a
    → e.kstrtoul p ≡ some pid
    → e.kstrtoul (48 ∷ 120 ∷ a) ≡ some addr
    → (e.find pid ≡ none)
      ⊎ ((walk : ℕ → Tables) × (e.find pid ≡ some walk) × (get_addr walk addr ≡ none))
    → length (command (read_words p) a c) < 128
    → proc_write e s (length (command (read_words p) a c)) 0 (some (command (read_words p) a c))
      ≡ fault
unfolding dispatch do_read same_text
read_of_nothing e s {p = p} {a = a} pid addr c pw aw ph ah bad l =
    proc_write-dispatch e s (read_words p) a c
      (words (letter (ground arith) (ground arith)) (words pw no_words)) aw l
    ∙ rw (read_args e pw aw, ph, ah) (rw (no_place_at e pid addr bad, do_read) refl)
