-- ===== src/Dispatch/Tests.antt =====
-- Two tasks that take turns on one processor: the class picks the head of a list.
use linux_kernel.Prelude.{ℕ, ◌+◌, ◌%◌, ◌≡◌, refl, true, false, List, [], ◌∷◌, ◌++◌, arith}
use linux_kernel.Prelude.Words.{u32_mod}
use linux_kernel.Prelude.Int.{pos}
use linux_kernel.Watch.Digits.{read_decimal, decimal, read_decimal-decimal}
use linux_kernel.Dispatch.{
  Task, State, Classes, Event, copy_process, run, proc_pid_ctx, happen, __schedule, switch_to_next,
  block_prev, deactivate_task,
}
use linux_kernel.Dispatch.Counting.{switches}
use linux_kernel.Dispatch.Balance.{Since, picks, picks_again, running, copy_process-run-ctx}
use linux_kernel.Dispatch.Printing.{proc_pid_ctx-run, PrintsDecimal}

abbrev in_turn : Classes (List ℕ)
in_turn = record { dequeue_task = λ q p flags. q; pick_next_task = λ q prev. pick q }
  where
    pick : List ℕ → ℕ × List ℕ
    pick [] = (0, [])
    pick (x ∷ xs) = (x, xs ++ (x ∷ []))

abbrev idle_task : Task
idle_task = record {
  state = 0;
  frozen = false;
  in_iowait = false;
  on_rq = 1;
  ctx = 41;
  nvcsw = 3;
  nivcsw = 4;
}

abbrev machine : State (List ℕ)
machine = record {
  rqs = λ cpu. record {
    curr = 1;
    nr_switches = 0;
    nr_uninterruptible = 0;
    nr_iowait = 0;
    classes = 2 ∷ 2 ∷ 1 ∷ [];
  };
  tasks = λ p. idle_task;
}

-- The new task 2 is picked twice, and then 1.
abbrev trace : List (Event (List ℕ))
trace =
    Event.schedule true false 0
    ∷ Event.schedule false false 0
    ∷ Event.fork 2 3
    ∷ Event.schedule true false 0
    ∷ []

trace-Since : Since {Q = List ℕ} 2 1 trace
trace-Since = Since.schedule true false (omega arith) (
    Since.schedule false false (omega arith)
      (Since.fork 2 (λ e. ground arith) (Since.schedule true false (omega arith) Since.none_left)))

copy_process-run-ctx_example :
    let born = copy_process in_turn 1 2 machine in
    let t = run in_turn trace born in
    ((t.tasks 2).ctx ≡ picks in_turn 2 trace born % u32_mod)
    × ((t.tasks 2).ctx
        ≡ (switches t 2 + running 1 2 t + picks_again in_turn 2 trace born) % u32_mod)
copy_process-run-ctx_example = copy_process-run-ctx in_turn 1 2 1 trace machine trace-Since refl

decimal-PrintsDecimal : PrintsDecimal decimal
decimal-PrintsDecimal n h = read_decimal-decimal n (omega arith)

proc_pid_ctx-run_example :
    let born = copy_process in_turn 1 2 machine in
    (line : List ℕ) × (proc_pid_ctx decimal ((run in_turn trace born).tasks 2) []
      ≡ ([] ++ line ++ (10 ∷ []), pos 0))
    × (read_decimal 0 line ≡ picks in_turn 2 trace born % u32_mod)
proc_pid_ctx-run_example =
    proc_pid_ctx-run in_turn decimal 1 2 1 trace machine [] decimal-PrintsDecimal trace-Since refl

-- The task's picks are counted twice, though it was switched to once.
ctx_test : ((run in_turn trace (copy_process in_turn 1 2 machine)).tasks 2).ctx ≡ 2
unfolding run copy_process happen __schedule switch_to_next block_prev deactivate_task
ctx_test = refl
