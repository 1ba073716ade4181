-- ===== src/Core/Completion.antt =====
-- sched/core.c: __wake_up_common and the completions (complete to completion_done). A function that
-- sleeps is cut where it drops the lock, so that other calls can come between its parts.
pub mod Steps
pub mod Tokens
pub mod Waking
mod Tests
use linux_kernel.Prelude.{
  ℕ, ◌+◌, ◌-◌, ◌^◌, Bool, true, false, ◌&&◌, not, List, [], ◌∷◌, ◌++◌, if◌then◌else◌, ◌==◌,
}
use linux_kernel.Prelude.Words.{add32}
use linux_kernel.Prelude.Int.{ℤ, pos, ◌-ℤ◌, eqb_ℤ}
use linux_kernel.Prelude.Errno.{erestartsys}

-- wait_queue_t: the task in `private`, and the flag WQ_FLAG_EXCLUSIVE.
pub record Waiter : Type 0 where
  pub task : ℕ
  pub exclusive : Bool

-- struct completion, and which tasks are in one of the states of TASK_NORMAL.
pub record Completion : Type 0 where
  pub done : ℕ
  pub wait : List Waiter
  pub asleep : ℕ → Bool

abbrev pub set_asleep : (ℕ → Bool) → ℕ → Bool → ℕ → Bool
set_asleep asleep p b q = if q == p then b else asleep q

-- default_wake_function with TASK_NORMAL: try_to_wake_up wakes a task in one of these states and returns
-- 1, and returns 0 for another.
abbrev pub default_wake_function : (ℕ → Bool) → ℕ → (ℕ → Bool) × Bool
default_wake_function asleep p =
    if asleep p then (set_asleep asleep p false, true) else (asleep, false)

-- `nr_exclusive` counts down from its value, also below 0.
unfoldable pub __wake_up_common : List Waiter → ℤ → (ℕ → Bool) → ℕ → Bool
__wake_up_common [] nr_exclusive asleep = asleep
__wake_up_common (w ∷ ws) nr_exclusive asleep =
    let (woken, ret) = default_wake_function asleep w.task in
    let go_on = __wake_up_common ws nr_exclusive woken in
    let counted = __wake_up_common ws (nr_exclusive -ℤ pos 1) woken in
    if ret && w.exclusive
    then (if eqb_ℤ (nr_exclusive -ℤ pos 1) (pos 0) then woken else counted)
    else go_on

unfoldable pub complete : Completion → Completion
complete x = record x { done = add32 x.done 1; asleep = __wake_up_common x.wait (pos 1) x.asleep }

-- UINT_MAX / 2
abbrev pub half_of_all : ℕ
half_of_all = 2 ^ 31 - 1

unfoldable pub complete_all : Completion → Completion
complete_all x = record x {
  done = add32 x.done half_of_all;
  asleep = __wake_up_common x.wait (pos 0) x.asleep;
}

-- How a part of do_wait_for_common ends: it calls schedule_timeout, or returns.
pub data Wait : Type 0 where
  sleeps : (timeout : ℕ) → Wait
  returns : ℤ → Wait

-- timeout ?: 1
abbrev pub or_one : ℤ → ℤ
or_one timeout = if eqb_ℤ timeout (pos 0) then pos 1 else timeout

abbrev pub take_one : Completion → ℤ → Completion × Wait
take_one x timeout = (record x { done = x.done - 1 }, returns (or_one timeout))

-- __remove_wait_queue of the task's own entry.
abbrev pub remove_wait_queue : List Waiter → ℕ → List Waiter
remove_wait_queue [] p = []
remove_wait_queue (w ∷ ws) p =
    let rest = remove_wait_queue ws p in if w.task == p then ws else w ∷ rest

-- After the loop.
unfoldable pub finish_wait : Completion → ℕ → ℤ → Completion × Wait
finish_wait x p timeout =
    let left = record x { wait = remove_wait_queue x.wait p } in
    if x.done == 0 then (left, returns timeout) else take_one left timeout

-- The loop up to schedule_timeout; `signal` is what signal_pending_state says.
unfoldable pub wait_round : Completion → ℕ → (signal : Bool) → ℕ → Completion × Wait
wait_round x p signal timeout =
    if signal
    then finish_wait x p erestartsys
    else (record x { asleep = set_asleep x.asleep p true }, sleeps timeout)

-- do_wait_for_common from its start.
unfoldable pub do_wait_for_common : Completion → ℕ → (signal : Bool) → ℕ → Completion × Wait
do_wait_for_common x p signal timeout =
    if x.done == 0
    then wait_round (record x { wait = x.wait ++ (record { task = p; exclusive = true } ∷ []) }) p
        signal timeout
    else take_one x (pos timeout)

-- do_wait_for_common after schedule_timeout has returned `timeout`.
unfoldable pub resume_wait : Completion → ℕ → (signal : Bool) → ℕ → Completion × Wait
resume_wait x p signal timeout =
    if x.done == 0 && not (timeout == 0)
    then wait_round x p signal timeout
    else finish_wait x p (pos timeout)

-- What wait_for_completion_interruptible and wait_for_completion_killable make of the result.
abbrev pub wait_result : ℤ → ℤ
wait_result t = if eqb_ℤ t erestartsys then t else pos 0

unfoldable pub try_wait_for_completion : Completion → Completion × Bool
try_wait_for_completion x =
    if x.done == 0 then (x, false) else (record x { done = x.done - 1 }, true)

abbrev pub completion_done : Completion → Bool
completion_done x = not (x.done == 0)
