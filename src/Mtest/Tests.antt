-- ===== src/Mtest/Tests.antt =====
-- A process with pid 7 (text "7") that has one page, and the theorems at it.
use linux_kernel.Prelude.{
  ℕ, ◌+◌, ◌-◌, ◌%◌, ◌<◌, ◌≡◌, refl, true, false, List, [], ◌∷◌, arith, if◌then◌else◌, ◌==◌, ltb,
  length, Option, none, some, replicate,
}
use linux_kernel.Prelude.Int.{pos}
use linux_kernel.Mtest.{
  Env, State, Tables, returns, get_addr, proc_write, proc_read, read_byte, write_byte, c_string,
}
use linux_kernel.Mtest.Commands.{empty, char, Word, word, command}
use linux_kernel.Mtest.Access.{Names, write_words, read_words}
use linux_kernel.Mtest.Reading.{write_then_read}

-- Texts of one digit, and of "0x" and one digit.
abbrev digit : List ℕ → Option ℕ
digit (d ∷ []) = some (d - 48)
digit (a ∷ b ∷ d ∷ []) = some (d - 48)
digit _ = none

abbrev tables : ℕ → Tables
tables addr = record {
  pgd_bad = false;
  p4d_bad = false;
  pud_bad = false;
  pmd_bad = ltb 4096 addr;
  frame = some 3;
}

abbrev env : Env
env = record { kstrtoul = digit; find = λ pid. if pid == 7 then some tables else none }

abbrev start : State
start = record { output = replicate 128 0; memory = λ q. 1 }

digit-Word : (d : ℕ) → 32 < d → Word (d ∷ [])
digit-Word d h = word (char (ground arith) (ground arith) empty)

names : Names env (55 ∷ []) (53 ∷ []) 12293
unfolding get_addr
names = record {
  p_word = digit-Word 55 (omega arith);
  a_word = digit-Word 53 (omega arith);
  pid = 7;
  addr = 5;
  walk = tables;
  pid_text = refl;
  addr_text = refl;
  found = refl;
  mapped = refl;
}

-- "w 7 5 9" and a line feed, then "r 7 5" and a line feed.
write_then_read_example :
    let w = command (write_words (55 ∷ []) (53 ∷ [])) (57 ∷ []) 10 in
    let r = command (read_words (55 ∷ [])) (53 ∷ []) 10 in
    let written = write_byte start 12293 9 in
    let read = read_byte written 12293 in
    (proc_write env start (length w) 0 (some w) ≡ returns (pos (length w + 1)) written)
    × (proc_write env written (length r) 0 (some r) ≡ returns (pos (length r + 1)) read)
    × (c_string read.output ≡ (9 % 256) ∷ [])
    × (proc_read read 16 0 true ≡ record { copied = 1; at = 1; ret = pos 1 })
write_then_read_example =
    write_then_read env start 10 10 16 names (digit-Word 57 (omega arith)) refl (omega arith)
      (omega arith) (omega arith) (ground arith) (omega arith)
