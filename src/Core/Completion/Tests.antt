-- ===== src/Core/Completion/Tests.antt =====
-- Two tasks wait, one completion is given, and the first of them takes it.
use linux_kernel.Prelude.{◌+◌, ◌%◌, ◌≤◌, ◌≡◌, ◌⊎◌, refl, false, []}
use linux_kernel.Prelude.Words.{u32_mod}
use linux_kernel.Prelude.Int.{◌-ℤ◌}
use linux_kernel.Core.Completion.{
  Completion, complete, do_wait_for_common, resume_wait, wait_round, finish_wait, __wake_up_common,
}
use linux_kernel.Core.Completion.Waking.{awake, sleeping}
use linux_kernel.Core.Completion.Steps.{Step, Reach}
use linux_kernel.Core.Completion.Tokens.{Reach-done, Reach-NoLost}

abbrev fresh : Completion
fresh = record { done = 0; wait = []; asleep = λ p. false }

abbrev first_waits : Completion
first_waits = (do_wait_for_common fresh 5 false 100).0

abbrev both_wait : Completion
both_wait = (do_wait_for_common first_waits 6 false 100).0

abbrev given : Completion
given = complete both_wait

abbrev taken : Completion
taken = (resume_wait given 5 false 40).0

calls : Reach fresh 1 1 taken
unfolding complete do_wait_for_common resume_wait wait_round finish_wait __wake_up_common ◌-ℤ◌
calls =
    Reach.next
      (Reach.next
        (Reach.next (Reach.next Reach.here (Step.enters fresh 5 false 100))
          (Step.enters first_waits 6 false 100))
        (Step.gives_one both_wait))
      (Step.resumes given 5 false 40 refl refl)

Reach-done_example : (taken.done + 1) % u32_mod ≡ (fresh.done + 1) % u32_mod
Reach-done_example = Reach-done calls

Reach-NoLost_example :
    (sleeping taken.wait taken.asleep ≡ 0) ⊎ (taken.done ≤ awake taken.wait taken.asleep)
Reach-NoLost_example = Reach-NoLost refl calls
