-- ===== src/Mtest/Reading.antt =====
-- A byte that was written is read back, and what else a write changes.
use linux_kernel.Prelude.{
  ℕ, ◌+◌, ◌%◌, ◌^◌, ◌≤◌, ◌<◌, ◌≡◌, ◌≢◌, refl, ap, ◌∙◌, true, false, List, [], ◌∷◌, set, some, arith,
  if◌then◌else◌, ◌==◌, ltb, length, ◌⊎◌, inl, inr,
}
use linux_kernel.Prelude.Words.{sub64}
use linux_kernel.Prelude.Int.{pos}
use linux_kernel.Mtest.{
  Env, State, returns, overrun, run_command, read_byte, write_byte, proc_write, proc_read, c_string,
  strlen,
}
use linux_kernel.Mtest.Commands.{Word, command}
use linux_kernel.Mtest.Access.{Names, write_words, read_words, write_command, read_command}

-- The output after read_byte, for a buffer with room for two characters.
c_string-read_byte :
    (s : State) (at : ℕ)
    → 2 ≤ length s.output
    → c_string (read_byte s at).output ≡ (if s.memory at == 0 then [] else s.memory at ∷ [])
c_string-read_byte s at h = stored s.output h
  where
    stored :
        (b : List ℕ)
        → 2 ≤ length b
        → c_string (set (set b 0 (s.memory at)) 1 0)
          ≡ (if s.memory at == 0 then [] else s.memory at ∷ [])
    stored [] h = absurd (omega arith)
    stored (x ∷ []) h = absurd (omega arith)
    stored (x ∷ y ∷ rest) h = refl

-- A read at position 0 with room for the whole text.
proc_read_whole :
    (s : State) (len n : ℕ)
    → strlen s.output ≡ n
    → n ≤ len
    → n < 2 ^ 31
    → proc_read s len 0 true ≡ record { copied = n; at = n; ret = pos n }
unfolding proc_read
proc_read_whole s len n h k l =
    let left : sub64 n 0 ≡ n = omega arith in
    let fits : ltb len n ≡ false = ground arith in rw (h, left, fits) (ground arith)

-- "w pid address value" and then "r pid address", each with one more character behind its last word,
-- such as a line feed, and shorter than 128 characters with it, with words that name a mapped place
-- and a value that kstrtoul reads, return the lengths of what was written plus 1; then the output is
-- the byte that was written, if that is not zero and the output has room for two bytes, and a read of
-- at least one byte at position 0 copies it.
pub write_then_read :
    (e : Env) (s : State) {p a v : List ℕ} {at val : ℕ} (c d len : ℕ)
    → Names e p a at
    → Word v
    → e.kstrtoul v ≡ some val
    → length (command (write_words p a) v c) < 128
    → length (command (read_words p) a d) < 128
    → 2 ≤ length s.output
    → val % 256 ≢ 0
    → 0 < len
    → let m = length (command (write_words p a) v c) in
      let n = length (command (read_words p) a d) in
      let written = write_byte s at val in
      let read = read_byte written at in
      (proc_write e s m 0 (some (command (write_words p a) v c)) ≡ returns (pos (m + 1)) written)
      × (proc_write e written n 0 (some (command (read_words p) a d)) ≡ returns (pos (n + 1)) read)
      × (c_string read.output ≡ (val % 256) ∷ [])
      × (proc_read read len 0 true ≡ record { copied = 1; at = 1; ret = pos 1 })
write_then_read e s {at = at} {val = val} c d len n w h l k b z r =
    let written = write_byte s at val in
    let byte : written.memory at ≡ val % 256 = ground arith in
    let text : c_string (read_byte written at).output ≡ (val % 256) ∷ [] =
      c_string-read_byte written at b ∙ rw byte (ground arith) in
    (
      write_command e s c n w h l,
      read_command e written d n k,
      text,
      proc_read_whole (read_byte written at) len 1 (ap length text) (omega arith) (omega arith),
    )

-- "w pid address value", with words that name a mapped place, stores eight bytes and returns the length
-- of the command plus 1: each of the seven bytes behind the one that was asked for becomes 0, or 255 if
-- the byte written is 128 or more.
pub write_clobbers :
    (e : Env) (s : State) {p a v : List ℕ} {at val : ℕ} (c q : ℕ)
    → Names e p a at
    → Word v
    → e.kstrtoul v ≡ some val
    → length (command (write_words p a) v c) < 128
    → at < q
    → q < at + 8
    → let len = length (command (write_words p a) v c) in
      (t : State) × (proc_write e s len 0 (some (command (write_words p a) v c))
        ≡ returns (pos (len + 1)) t)
      × (t.memory at ≡ val % 256)
      × (t.memory q ≡ (if ltb (val % 256) 128 then 0 else 255))
write_clobbers e s {at = at} {val = val} c q n w h l i j =
    (write_byte s at val, write_command e s c n w h l, ground arith, ground arith)

-- A byte that is zero is put into the output as the empty text: every read at position 0 copies
-- nothing.
pub zero_is_not_read :
    (s : State) (at len : ℕ)
    → 2 ≤ length s.output
    → s.memory at ≡ 0
    → (proc_read (read_byte s at) len 0 true).copied ≡ 0
zero_is_not_read s at len h z =
    let text : c_string (read_byte s at).output ≡ [] = c_string-read_byte s at h ∙ rw z refl in
    ap (λ r. r.copied)
      (proc_read_whole (read_byte s at) len 0 (ap length text) (omega arith) (omega arith))

-- A command of no characters stores before tmp_buffer, and one of 128 behind it.
pub proc_write_overruns :
    (e : Env) (s : State) (len : ℕ) (input : List ℕ)
    → (len ≡ 0) ⊎ (len ≡ 128)
    → proc_write e s len 0 (some input) ≡ overrun
unfolding proc_write run_command
proc_write_overruns e s len input (inl h) = rw h refl
proc_write_overruns e s len input (inr h) = rw h refl
