-- ===== src/Core/Setscheduler/Checks.antt =====
-- The checks of __sched_setscheduler before the lock is taken, told without the code: what a caller may
-- ask for, and with which error the rest is refused.
use linux_kernel.Prelude.{
  ℕ, ◌≤◌, ◌≡◌, ◌≢◌, refl, Bool, true, false, ◌&&◌, ◌||◌, not, Option, none, some, ◌⊎◌, inl, inr,
  arith, ◌==◌, leb, if◌then◌else◌, if_cases, Bool-cases,
}
use linux_kernel.Prelude.Int.{ℤ, pos, eqb_ℤ, eq_of_eqb_ℤ, pos_part, neg_part}
use linux_kernel.Prelude.Errno.{einval, eperm}
use linux_kernel.Sched.{Task, sched_idle}
use linux_kernel.Core.Prio.{rt_policy, can_nice, task_nice}
use linux_kernel.Core.Setscheduler.{
  Caller, Request, Checked, read_policy, prio_ok, refused, check_request, passed, failed,
}

-- A priority from 0 to 99 that is 0 exactly when the policy is no rt policy.
abbrev pub FitsPolicy : ℕ → ℤ → Type 0
FitsPolicy policy prio =
    (neg_part prio ≡ 0) × (pos_part prio ≤ 99) × (rt_policy policy ≡ not (pos_part prio == 0))

-- What a caller without CAP_SYS_NICE may ask for: an rt policy under RLIMIT_RTPRIO, another policy for
-- a SCHED_IDLE task under RLIMIT_NICE, for tasks of its own, with no reset on fork taken away.
pub record Permitted (c : Caller) (t : Task) (p : ℕ) (r : Request) (prio : ℤ) : Type 0 where
  pub rt_limit :
      rt_policy r.policy ≡ true
      → ((r.policy == t.policy || not (c.rlimit_rtprio p == 0)) ≡ true)
        × ((leb (pos_part prio) t.rt_priority || leb (pos_part prio) (c.rlimit_rtprio p)) ≡ true)
  pub idle :
      t.policy ≡ sched_idle
      → (r.policy == sched_idle || can_nice (c.rlimit_nice p) c.capable (task_nice t)) ≡ true
  pub owner : c.same_owner p ≡ true
  pub reset : t.sched_reset_on_fork ≡ true → r.reset_on_fork ≡ true

-- What passes.
pub record Valid (c : Caller) (t : Task) (p : ℕ) (policy prio : ℤ) (user : Bool) (r : Request)
    : Type 0 where
  pub read : read_policy t policy ≡ some r
  pub fits : FitsPolicy r.policy prio
  pub permitted : user ≡ true → (c.capable ≡ true) ⊎ Permitted c t p r prio
  pub secure : user ≡ true → c.security p ≡ pos 0

-- What is refused, and with which error.
pub data Fails (c : Caller) (t : Task) (p : ℕ) (policy prio : ℤ) (user : Bool) : ℤ → Type 0 where
  no_policy : read_policy t policy ≡ none → Fails c t p policy prio user einval
  bad_prio :
      (r : Request)
      → read_policy t policy ≡ some r
      → ¬ FitsPolicy r.policy prio
      → Fails c t p policy prio user einval
  not_permitted :
      (r : Request)
      → read_policy t policy ≡ some r
      → user ≡ true
      → c.capable ≡ false
      → ¬ Permitted c t p r prio
      → Fails c t p policy prio user eperm
  insecure :
      (r : Request)
      → read_policy t policy ≡ some r
      → user ≡ true
      → c.security p ≢ pos 0
      → Fails c t p policy prio user (c.security p)

prio_ok-FitsPolicy :
    (t : Task) (policy : ℕ) (prio : ℤ) → prio_ok t policy prio ≡ true → FitsPolicy policy prio
unfolding prio_ok
prio_ok-FitsPolicy t policy prio h = (ground arith, ground arith, ground arith)

prio_ok_not :
    (t : Task) (policy : ℕ) (prio : ℤ) → prio_ok t policy prio ≡ false → ¬ FitsPolicy policy prio
unfolding prio_ok
prio_ok_not t policy prio h f = let a = f.0 in let b = f.1 in let d = f.2 in ground arith

refused-Permitted :
    (c : Caller) (t : Task) (p : ℕ) (r : Request) (prio : ℤ)
    → refused c t p r prio ≡ false
    → Permitted c t p r prio
unfolding refused
refused-Permitted c t p r prio h = record {
  rt_limit = λ k. (ground arith, ground arith);
  idle = λ k. ground arith;
  owner = ground arith;
  reset = λ k. ground arith;
}

refused_not :
    (c : Caller) (t : Task) (p : ℕ) (r : Request) (prio : ℤ)
    → refused c t p r prio ≡ true
    → ¬ Permitted c t p r prio
unfolding refused
refused_not c t p r prio h f =
    let a = rt in let b = idle in let d = reset in let o = f.owner in ground arith
  where
    rt :
        (not (rt_policy r.policy)
          || ((r.policy == t.policy || not (c.rlimit_rtprio p == 0))
              && (leb (pos_part prio) t.rt_priority || leb (pos_part prio) (c.rlimit_rtprio p))))
        ≡ true
    rt = elim (Bool-cases (rt_policy r.policy)) [
      | inl y ↦ (let (k, l) = f.rt_limit y in ground arith)
      | inr y ↦ ground arith
    ]

    idle :
        (not (t.policy == sched_idle)
          || (r.policy == sched_idle || can_nice (c.rlimit_nice p) c.capable (task_nice t)))
        ≡ true
    idle = elim (Bool-cases (t.policy == sched_idle)) [
      | inl y ↦ (let k = f.idle (ground arith) in ground arith)
      | inr y ↦ ground arith
    ]

    reset : (not t.sched_reset_on_fork || r.reset_on_fork) ≡ true
    reset = elim (Bool-cases t.sched_reset_on_fork) [
      | inl y ↦ (let k = f.reset y in ground arith)
      | inr y ↦ ground arith
    ]

-- Each request either is refused, for one of these reasons, or is valid.
pub check_request_lem :
    (c : Caller) (t : Task) (p : ℕ) (policy prio : ℤ) (user : Bool)
    → ((err : ℤ) × (check_request c t p policy prio user ≡ failed err)
        × Fails c t p policy prio user err)
      ⊎ ((r : Request) × (check_request c t p policy prio user ≡ passed r)
          × Valid c t p policy prio user r)
unfolding check_request
check_request_lem c t p policy prio user = by_policy (read_policy t policy) refl
  where
    Answer : Checked → Type 0
    Answer k =
        ((err : ℤ) × (k ≡ failed err) × Fails c t p policy prio user err)
        ⊎ ((r : Request) × (k ≡ passed r) × Valid c t p policy prio user r)

    by_policy :
        (o : Option Request)
        → read_policy t policy ≡ o
        → Answer (elim o [
          | none ↦ failed einval
          | some r ↦
              if not (prio_ok t r.policy prio)
              then failed einval
              else if user && (not c.capable && refused c t p r prio)
              then failed eperm
              else if user && not (eqb_ℤ (c.security p) (pos 0))
              then failed (c.security p)
              else passed r
        ])
    by_policy none e = inl (einval, refl, no_policy e)
    by_policy (some r) e =
        if_cases Answer (not (prio_ok t r.policy prio))
          (λ n. inl (einval, refl, bad_prio r e (prio_ok_not t r.policy prio (ground arith))))
          (λ ok.
            if_cases Answer (user && (not c.capable && refused c t p r prio))
              (λ n. inl (
                eperm,
                refl,
                not_permitted r e (ground arith) (ground arith)
                    (refused_not c t p r prio (ground arith)),
              ))
              (λ allowed.
                if_cases Answer (user && not (eqb_ℤ (c.security p) (pos 0)))
                  (λ n. inl (c.security p, refl, insecure r e (ground arith) (λ z. ground arith)))
                  (λ secure. inr (
                    r,
                    refl,
                    record {
                      read = e;
                      fits = prio_ok-FitsPolicy t r.policy prio (ground arith);
                      permitted = λ u. elim (Bool-cases c.capable) [
                        | inl y ↦ inl y
                        | inr y ↦ inr (refused-Permitted c t p r prio (ground arith))
                      ];
                      secure = λ u. eq_of_eqb_ℤ (c.security p) (pos 0) (ground arith);
                    },
                  ))))

pub Fails-nonzero :
    {c : Caller} {t : Task} {p : ℕ} {policy prio : ℤ} {user : Bool} {err : ℤ}
    → Fails c t p policy prio user err
    → err ≢ pos 0
Fails-nonzero (no_policy e) = λ z. cc
Fails-nonzero (bad_prio r e n) = λ z. cc
Fails-nonzero (not_permitted r e u k n) = λ z. cc
Fails-nonzero (insecure r e u n) = n
