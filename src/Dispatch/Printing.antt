-- ===== src/Dispatch/Printing.antt =====
-- What a read of /proc/<pid>/ctx shows.
use linux_kernel.Prelude.{ℕ, ◌%◌, ◌<◌, ◌≡◌, refl, ◌∙◌, List, [], ◌∷◌, ◌++◌, arith}
use linux_kernel.Prelude.Words.{u32_mod}
use linux_kernel.Prelude.Int.{pos}
use linux_kernel.Watch.Digits.{read_decimal}
use linux_kernel.Dispatch.{State, Classes, Event, copy_process, run, proc_pid_ctx}
use linux_kernel.Dispatch.Balance.{Since, picks, running, copy_process-run-ctx}

-- "%u" prints an unsigned int in decimal digits.
abbrev pub PrintsDecimal : (ℕ → List ℕ) → Type 0
PrintsDecimal print_u = (n : ℕ) → n < u32_mod → read_decimal 0 (print_u n) ≡ n

-- With "%u" giving the decimal digits of an unsigned int: after the fork of a task that runs on none
-- of the n processors, and any events in which it is not forked again, proc_pid_ctx appends a line and
-- returns 0; the line is a number, which is the number of the calls of __schedule since the fork that
-- left the task as the current one, modulo 2^32.
pub proc_pid_ctx-run :
    {Q : Type 0} (c : Classes Q) (print_u : ℕ → List ℕ) (orig p n : ℕ) (es : List (Event Q))
    (s : State Q) (m : List ℕ)
    → PrintsDecimal print_u
    → Since p n es
    → running n p s ≡ 0
    → let born = copy_process c orig p s in
      (line : List ℕ) × (proc_pid_ctx print_u ((run c es born).tasks p) m
        ≡ (m ++ line ++ (10 ∷ []), pos 0))
      × (read_decimal 0 line ≡ picks c p es born % u32_mod)
unfolding proc_pid_ctx
proc_pid_ctx-run c print_u orig p n es s m prints r h =
    let (counted, _) = copy_process-run-ctx c orig p n es s r h in
    let t = run c es (copy_process c orig p s) in
    (print_u (t.tasks p).ctx, refl, prints (t.tasks p).ctx (rw counted (omega arith)) ∙ counted)
