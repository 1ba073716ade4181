-- ===== src/Core/Running/Placed.antt =====
-- Where the tasks of the wrr class are, over any sequence of wake-ups and of tasks that go to sleep.
use Prim.Native.Nat.{bit_and}
use mathlib.Core.Path.{subst}
use linux_kernel.Prelude.{
  ℕ, ◌<◌, ◌≡◌, sym, ap, ◌∙◌, Bool, true, false, none, some, List, [], ◌∷◌, arith, if_cases,
  Bool-cases, inl, inr, ◌==◌, length,
}
use linux_kernel.Prelude.Words.{sub32, u32_mod}
use linux_kernel.Sched.{Class, Rq, WrrRq}
use linux_kernel.Wrr.{remove}
use linux_kernel.Wrr.Queue.{contains, contains-append, contains-remove, contains-remove_other}
use linux_kernel.Wrr.Invariant.{Inv, queued, Keeps-Inv}
use linux_kernel.Core.Classes.{Env, class_ops, check_preempt_curr}
use linux_kernel.Core.Running.{
  Cpu, task_running, ttwu_do_wakeup, ttwu_remote, try_to_wake_up, __schedule,
}
use linux_kernel.Core.Running.Waking.{IsWoken, check_preempt_curr-Frame, ttwu_do_activate-IsWoken}
use linux_kernel.Core.Running.Sleeping.{IsSwitched, __schedule_lem}

-- A task of the wrr class is in the queue exactly when its on_rq is set, and the bookkeeping holds.
pub record Placed (rq : Rq) : Type 0 where
  pub inv : Inv rq
  pub places : (q : ℕ) → (rq.tasks q).sched_class ≡ Class.wrr → (rq.tasks q).on_rq ≡ queued q rq

-- A wake-up of a wrr task, with any mask; and a round of __schedule in which a wrr task goes to sleep,
-- under the conditions of __schedule_lem.
pub data Step (e : Env) : Cpu → Cpu → Type 0 where
  wakes :
      (c : Cpu) (p state wake_flags : ℕ)
      → (c.rq.tasks p).sched_class ≡ Class.wrr
      → Step e c (try_to_wake_up e c p state wake_flags).0
  sleeps :
      (c d : Cpu) (next : ℕ) (rest : List ℕ)
      → (c.rq.tasks c.rq.curr).sched_class ≡ Class.wrr
      → (c.rq.tasks c.rq.curr).on_rq ≡ true
      → remove c.rq.curr c.rq.wrr.queue ≡ next ∷ rest
      → length (next ∷ rest) < u32_mod
      → (c.state c.rq.curr == task_running) ≡ false
      → (sub32 c.rq.nr_running 1 == c.rq.cfs_h_nr_running) ≡ false
      → ((r : Rq) → (class_ops e Class.stop).pick_next_task r ≡ (none, r))
      → ((r : Rq) → (class_ops e Class.rt).pick_next_task r ≡ (none, r))
      → __schedule e false false none c ≡ some d
      → Step e c d

pub data Reach (e : Env) (c : Cpu) : Cpu → Type 0 where
  here : Reach e c c
  step : {s t : Cpu} → Reach e c s → Step e s t → Reach e c t

IsWoken-Placed : {p : ℕ} {c d : Cpu} → Placed c.rq → IsWoken p c d → Placed d.rq
unfolding contains
IsWoken-Placed {p = p} {c = c} {d = d} l w = record {
  inv = w.inv;
  places = λ q h.
      let was = l.places q (sym (w.sched_class q) ∙ h) in
      let now = w.runnable q in
      let added = ap (contains q) w.queue ∙ contains-append q c.rq.wrr.queue (p ∷ []) in
      ground arith;
}

preempted-Placed :
    (e : Env) (rq : Rq) (p flags : ℕ)
    → (rq.tasks p).sched_class ≡ Class.wrr
    → Placed rq
    → Placed (check_preempt_curr e rq p flags)
preempted-Placed e rq p flags h l =
    let f = λ (q : ℕ). check_preempt_curr-Frame e rq p flags q h in
    record {
      inv = Keeps-Inv (f p).keeps l.inv;
      places = λ q k.
          (f q).on_rq
          ∙ l.places q (sym ((f q).sched_class) ∙ k)
          ∙ sym (ap (λ (w : WrrRq). contains q w.queue) (f q).keeps.wrr);
    }

try_to_wake_up-Placed :
    (e : Env) (c : Cpu) (p state flags : ℕ)
    → (c.rq.tasks p).sched_class ≡ Class.wrr
    → Placed c.rq
    → Placed ((try_to_wake_up e c p state flags).0).rq
unfolding try_to_wake_up ttwu_remote ttwu_do_wakeup
try_to_wake_up-Placed e c p state flags h l =
    if_cases (λ (r : Cpu × Bool). Placed (r.0).rq) (bit_and (c.state p) state == 0) (λ _. l)
      (λ _. elim (Bool-cases (c.rq.tasks p).on_rq) [
        | inl o ↦ rw o (preempted-Placed e c.rq p flags h l)
        | inr o ↦
            rw o
              (IsWoken-Placed l (ttwu_do_activate-IsWoken e c p h (sym (l.places p h) ∙ o) l.inv))
      ])

IsSwitched-Placed :
    {next : ℕ} {rest : List ℕ} {c d : Cpu}
    → remove c.rq.curr c.rq.wrr.queue ≡ next ∷ rest
    → Placed c.rq
    → IsSwitched c.rq.curr next rest c d
    → Placed d.rq
IsSwitched-Placed {c = c} {d = d} e l w = record {
  inv = w.inv;
  places = λ q h.
      let was = l.places q (sym (w.sched_class q) ∙ h) in
      let now = w.runnable q in
      let left = ap (contains q) (w.queue ∙ sym e) in
      let gone = contains-remove c.rq.curr c.rq.wrr.queue l.inv.distinct in
      let kept = contains-remove_other c.rq.curr q c.rq.wrr.queue in ground arith;
}

Step-Placed : {e : Env} {c d : Cpu} → Step e c d → Placed c.rq → Placed d.rq
Step-Placed {e = e} (Step.wakes c p state flags h) l = try_to_wake_up-Placed e c p state flags h l
Step-Placed {e = e} (Step.sleeps c d next rest h o r n s f stop rt k) l =
    let (x, same, w) =
      __schedule_lem e c next rest h (sym (l.places c.rq.curr h) ∙ o) r l.inv n s f stop rt in
    let equal : x ≡ d = some_eq (sym same ∙ k) in ap_placed equal (IsSwitched-Placed r l w)
  where
    some_eq : {a b : Cpu} → some a ≡ some b → a ≡ b
    some_eq h = cc

    ap_placed : {a b : Cpu} → a ≡ b → Placed a.rq → Placed b.rq
    ap_placed h = subst (λ (x : Cpu). Placed x.rq) h

-- If the bookkeeping holds and the tasks of the wrr class are queued exactly when their on_rq is set,
-- then this is so after any sequence of wake-ups of wrr tasks and of rounds of __schedule, neither
-- preempting nor interrupted by a signal, in which a wrr task that is on the run queue goes to sleep
-- and others, fewer than 2^32, are left in the wrr queue, tasks outside the fair class are left, there
-- is neither a stop task nor a real-time task to run, and no worker of a workqueue is to be woken.
pub Reach-Placed : (e : Env) (c d : Cpu) → Placed c.rq → Reach e c d → Placed d.rq
Reach-Placed e c d l Reach.here = l
Reach-Placed e c d l (Reach.step {s = s} r st) = Step-Placed st (Reach-Placed e c s l r)
