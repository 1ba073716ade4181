-- ===== src/Dispatch/Counting.antt =====
-- What `ctx` counts, over any sequence of events.
use linux_kernel.Prelude.{
  ℕ, ◌+◌, ◌%◌, ◌≡◌, ◌≢◌, refl, ap, ◌∙◌, sym, Bool, true, false, ◌&&◌, not, arith, if◌then◌else◌,
  if_cases, ◌==◌,
}
use linux_kernel.Prelude.Words.{add32, u32_mod}
use linux_kernel.Dispatch.{State, Classes, block_prev, deactivate_task, switch_to_next, __schedule}

abbrev pub one_if : Bool → ℕ
one_if b = if b then 1 else 0

module _ {Q : Type 0} where
  abbrev pub current : State Q → ℕ → ℕ
  current s cpu = (s.rqs cpu).curr

  -- The sum of the two counts of switches away from a task.
  abbrev pub switches : State Q → ℕ → ℕ
  switches s p = (s.tasks p).nvcsw + (s.tasks p).nivcsw

module _ {Q : Type 0} (c : Classes Q) where
  block_prev-ctx :
      (b : Bool) (s : State Q) (cpu prev p : ℕ)
      → ((block_prev c b s cpu prev).tasks p).ctx ≡ (s.tasks p).ctx
  unfolding block_prev deactivate_task
  block_prev-ctx b s cpu prev p = ground arith

  block_prev-switches :
      (b : Bool) (s : State Q) (cpu prev p : ℕ)
      → switches (block_prev c b s cpu prev) p ≡ switches s p
  unfolding block_prev deactivate_task
  block_prev-switches b s cpu prev p = ground arith

  block_prev-current :
      (b : Bool) (s : State Q) (cpu prev other : ℕ)
      → current (block_prev c b s cpu prev) other ≡ current s other
  unfolding block_prev deactivate_task
  block_prev-current b s cpu prev other = ground arith

  switch_to_next-ctx :
      (b : Bool) (s : State Q) (cpu prev p : ℕ)
      → prev ≡ current s cpu
      → let t = switch_to_next c b s cpu prev in
        (t.tasks p).ctx ≡ (if current t cpu == p then add32 (s.tasks p).ctx 1 else (s.tasks p).ctx)
  unfolding switch_to_next
  switch_to_next-ctx b s cpu prev p h = ground arith

  switch_to_next-current :
      (b : Bool) (s : State Q) (cpu prev other : ℕ)
      → other ≢ cpu
      → current (switch_to_next c b s cpu prev) other ≡ current s other
  unfolding switch_to_next
  switch_to_next-current b s cpu prev other h = ground arith

  switch_to_next-switches :
      (b : Bool) (s : State Q) (cpu prev p : ℕ)
      → prev ≡ current s cpu
      → let t = switch_to_next c b s cpu prev in
        switches t p % u32_mod
        ≡ (switches s p + one_if (prev == p && not (current t cpu == p))) % u32_mod
  unfolding switch_to_next
  switch_to_next-switches b s cpu prev p h = ground arith

  pub schedule-ctx :
      (preempt b : Bool) (cpu p : ℕ) (s : State Q)
      → let t = __schedule c preempt b cpu s in
        (t.tasks p).ctx ≡ (if current t cpu == p then add32 (s.tasks p).ctx 1 else (s.tasks p).ctx)
  unfolding __schedule
  schedule-ctx preempt b cpu p s =
      if_cases
        (λ (t : State Q).
          (t.tasks p).ctx
          ≡ (if current t cpu == p then add32 (s.tasks p).ctx 1 else (s.tasks p).ctx))
        (not preempt && not ((s.tasks (current s cpu)).state == 0))
        (λ _.
          switch_to_next-ctx true (block_prev c b s cpu (current s cpu)) cpu (current s cpu) p
            (sym (block_prev-current b s cpu (current s cpu) cpu))
          ∙ ap
              (λ m.
                if current
                    (switch_to_next c true (block_prev c b s cpu (current s cpu)) cpu
                      (current s cpu))
                    cpu
                  == p
                then add32 m 1
                else m)
              (block_prev-ctx b s cpu (current s cpu) p))
        (λ _. switch_to_next-ctx false s cpu (current s cpu) p refl)

  pub schedule-current :
      (preempt b : Bool) (cpu other : ℕ) (s : State Q)
      → other ≢ cpu
      → current (__schedule c preempt b cpu s) other ≡ current s other
  unfolding __schedule
  schedule-current preempt b cpu other s h =
      if_cases (λ (t : State Q). current t other ≡ current s other)
        (not preempt && not ((s.tasks (current s cpu)).state == 0))
        (λ _.
          switch_to_next-current true (block_prev c b s cpu (current s cpu)) cpu (current s cpu)
            other h
          ∙ block_prev-current b s cpu (current s cpu) other)
        (λ _. switch_to_next-current false s cpu (current s cpu) other h)

  pub schedule-switches :
      (preempt b : Bool) (cpu p : ℕ) (s : State Q)
      → let t = __schedule c preempt b cpu s in
        switches t p % u32_mod
        ≡ (switches s p + one_if (current s cpu == p && not (current t cpu == p))) % u32_mod
  unfolding __schedule
  schedule-switches preempt b cpu p s =
      if_cases
        (λ (t : State Q).
          switches t p % u32_mod
          ≡ (switches s p + one_if (current s cpu == p && not (current t cpu == p))) % u32_mod)
        (not preempt && not ((s.tasks (current s cpu)).state == 0))
        (λ _.
          switch_to_next-switches true (block_prev c b s cpu (current s cpu)) cpu (current s cpu) p
            (sym (block_prev-current b s cpu (current s cpu) cpu))
          ∙ ap
              (λ m.
                (m
                  + one_if (
                      current s cpu == p
                      && not (
                          current
                            (switch_to_next c true (block_prev c b s cpu (current s cpu)) cpu
                              (current s cpu))
                            cpu
                          == p)))
                % u32_mod)
              (block_prev-switches b s cpu (current s cpu) p))
        (λ _. switch_to_next-switches false s cpu (current s cpu) p refl)
