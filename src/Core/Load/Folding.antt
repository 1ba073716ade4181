-- ===== src/Core/Load/Folding.antt =====
-- The count of active tasks is folded into the system's without loss.
use linux_kernel.Prelude.{ℕ, ◌<◌, ◌≡◌, arith, if_cases}
use linux_kernel.Prelude.Words.{u32_mod, add32}
use linux_kernel.Core.Load.{
  LoadState, time_before, calc_load_fold_active, calc_load_write_idx, calc_load_enter_idle,
  calc_load_exit_idle, calc_load_fold_idle, calc_global_nohz, calc_global_load,
  calc_load_account_active,
}

-- What the processor has told is in the system's count or on its way there, and all are patterns of 32 bits.
pub record Balanced (s : LoadState) : Type 0 where
  pub told :
      add32 (add32 s.calc_load_tasks (s.calc_load_idle 0)) (s.calc_load_idle 1) ≡ s.calc_load_active
  pub narrow : s.calc_load_active < u32_mod

account-Balanced : (s : LoadState) → Balanced s → Balanced (calc_load_account_active s)
unfolding calc_load_account_active calc_load_fold_active
account-Balanced s b =
    let t = b.told in let n = b.narrow in record { told = ground arith; narrow = ground arith }

enter-Balanced : (s : LoadState) → Balanced s → Balanced (calc_load_enter_idle s)
unfolding calc_load_enter_idle calc_load_fold_active calc_load_write_idx
enter-Balanced s b =
    let t = b.told in let n = b.narrow in record { told = ground arith; narrow = ground arith }

nohz-Balanced : (s : LoadState) → Balanced s → Balanced (calc_global_nohz s)
unfolding calc_global_nohz
nohz-Balanced s b =
    if_cases Balanced (time_before s.jiffies (add32 s.calc_load_update 10))
      (λ _. record { told = b.told; narrow = b.narrow })
      (λ _. record { told = b.told; narrow = b.narrow })

-- The pending difference goes over into the system's count.
folded :
    (s : LoadState)
    → Balanced s
    → (let (t, delta) = calc_load_fold_idle s in
        add32 (add32 (add32 t.calc_load_tasks delta) (t.calc_load_idle 0)) (t.calc_load_idle 1)
        ≡ t.calc_load_active)
unfolding calc_load_fold_idle
folded s b = let t = b.told in let n = b.narrow in ground arith

fold_idle_active : (s : LoadState) → (calc_load_fold_idle s).0.calc_load_active ≡ s.calc_load_active
unfolding calc_load_fold_idle
fold_idle_active s = ground arith

global-Balanced : (s : LoadState) → Balanced s → Balanced (calc_global_load s)
unfolding calc_global_load
global-Balanced s b =
    let narrow = b.narrow in
    let same = fold_idle_active s in
    if_cases Balanced (time_before s.jiffies (add32 s.calc_load_update 10)) (λ _. b)
      (λ _. nohz-Balanced _ (record { told = folded s b; narrow = omega arith }))

exit-Balanced : (s : LoadState) → Balanced s → Balanced (calc_load_exit_idle s)
unfolding calc_load_exit_idle
exit-Balanced s b =
    if_cases Balanced (time_before s.jiffies s.rq_calc_load_update) (λ _. b)
      (λ _.
        if_cases Balanced (time_before s.jiffies (add32 s.calc_load_update 10))
          (λ _. record { told = b.told; narrow = b.narrow })
          (λ _. record { told = b.told; narrow = b.narrow }))

-- What happens to the counts: ticks of the processor and of the system, idle times, and, in `around`, the rest
-- of the kernel, which changes the number of tasks and the time.
pub data Event : LoadState → LoadState → Type 0 where
  tick : (s : LoadState) → Event s (calc_load_account_active s)
  enter_idle : (s : LoadState) → Event s (calc_load_enter_idle s)
  exit_idle : (s : LoadState) → Event s (calc_load_exit_idle s)
  global : (s : LoadState) → Event s (calc_global_load s)
  around :
      (s : LoadState) (jiffies nr_running nr_uninterruptible load_weight : ℕ)
      → Event s (record s {
        jiffies = jiffies;
        nr_running = nr_running;
        nr_uninterruptible = nr_uninterruptible;
        load_weight = load_weight;
      })

pub data Reach (s : LoadState) : LoadState → Type 0 where
  start : Reach s s
  more : {t u : LoadState} → Reach s t → Event t u → Reach s u

Event-Balanced : {s t : LoadState} → Event s t → Balanced s → Balanced t
Event-Balanced (Event.tick s) b = account-Balanced s b
Event-Balanced (Event.enter_idle s) b = enter-Balanced s b
Event-Balanced (Event.exit_idle s) b = exit-Balanced s b
Event-Balanced (Event.global s) b = global-Balanced s b
Event-Balanced (Event.around s j r u w) b = record { told = b.told; narrow = b.narrow }

-- If the system's count of active tasks and the two differences that are still to be folded into it add up to
-- what the processor last counted, then they do so after any sequence of ticks, of times without ticks
-- and of updates of the averages, whatever the number of tasks and the time are in between: no active
-- task is lost or counted twice.
pub Reach-Balanced : {s t : LoadState} → Reach s t → Balanced s → Balanced t
Reach-Balanced Reach.start b = b
Reach-Balanced (Reach.more r e) b = Event-Balanced e (Reach-Balanced r b)
