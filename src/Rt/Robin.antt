-- ===== src/Rt/Robin.antt =====
-- The round-robin part of task_tick_rt: the time slice runs down, and then the next task of the priority comes.
use mathlib.Core.Path.{subst}
use linux_kernel.Prelude.{
  ℕ, zero, suc, ◌+◌, ◌<◌, ◌≤◌, ◌≡◌, refl, sym, ap, ◌∙◌, true, false, not, none, List, [], ◌∷◌, ◌++◌,
  arith, if◌then◌else◌, if_cases, ◌==◌,
}
use linux_kernel.Prelude.Words.{sub32, u32_mod}
use linux_kernel.Sched.{sched_rr}
use linux_kernel.Wrr.{remove}
use linux_kernel.Core.Setscheduler.Frames.{itself}
use linux_kernel.Rt.{
  RtEnv, RtEntity, RtState, on_rt_rq, rq_of, rt_se_prio, set_need_resched, ancestors,
}
use linux_kernel.Rt.Runtime.{update_curr_rt}
use linux_kernel.Rt.Methods.{
  set_entity, rr_timeslice, has_other, any_company, requeue_task_rt, tick_slice, watchdog,
  task_tick_rt,
}
use linux_kernel.Rt.Invariant.{IsSound}
use linux_kernel.Rt.Picking.{task_prio}
use linux_kernel.Rt.Agreement.{Agree-on, prio-Agree}
use linux_kernel.Rt.Accounting.{Agree-IsSound}
use linux_kernel.Rt.Replacing.{same_places, set_entity-Agree, timed-IsSound}
use linux_kernel.Rt.Ticks.{
  ticks, Unthrottled, Counted, Counted-refl, Counted-trans, update_curr_rt-Counted,
  watchdog-Counted,
}
use linux_kernel.Rt.Mates.{requeued_at_end, company, requeue_entities}

-- A round-robin task whose slice has one tick left, and that is not alone in its queue.
record IsLast (s : RtState) (p : ℕ) : Type 0 where
  rr : (s.tasks p).policy ≡ sched_rr
  one : (s.entities p).time_slice ≡ 1
  on : on_rt_rq s p ≡ true
  others : has_other ((rq_of s p).queue (rt_se_prio s p)) ≡ true

-- What its tick leaves.
record Rotated (e : RtEnv) (s t : RtState) (p : ℕ) : Type 0 where
  queue :
      ((t.rqs (s.entities p).rt_rq).queue (rt_se_prio s p))
      ≡ remove p ((rq_of s p).queue (rt_se_prio s p)) ++ (p ∷ [])
  slice : (t.entities p).time_slice ≡ rr_timeslice e
  resched : (t.tasks p).need_resched ≡ true

resched_here : (u : RtState) (p : ℕ) → ((set_need_resched u p).tasks p).need_resched ≡ true
resched_here u p =
    ap (λ b. (if b then record (u.tasks p) { need_resched = true } else u.tasks p).need_resched)
      (itself p)

tick_slice-Rotated :
    (e : RtEnv) {level : ℕ → ℕ} (s : RtState) (p : ℕ)
    → IsSound level s
    → IsLast s p
    → Rotated e s (tick_slice e s p) p
unfolding tick_slice requeue_task_rt
tick_slice-Rotated e s p v l =
    let rr = rr_timeslice e in
    let expired = set_entity s p (record (s.entities p) { time_slice = rr }) in
    let w = timed-IsSound s p (s.entities p).timeout rr v in
    let a = set_entity-Agree s p (s.entities p).timeout rr in
    let on = Agree-on s expired a p ∙ l.on in
    let same = prio-Agree s expired a p in
    let home = a.rt_rq p in
    let mates : (rq_of expired p).queue (rt_se_prio expired p)
        ≡ (rq_of s p).queue (rt_se_prio s p) =
      ap (λ (g : ℕ). (s.rqs g).queue (rt_se_prio expired p)) home
      ∙ ap (λ (i : ℕ). (rq_of s p).queue i) same in
    let many = company e expired w p on (ap has_other mates ∙ l.others) in
    let policy = l.rr in
    let one = l.one in
    let u = requeue_task_rt expired p false in
    if_cases (λ (t : RtState). Rotated e s t p) (not ((s.tasks p).policy == sched_rr))
      (λ y. absurd (ground arith))
      (λ _.
        if_cases (λ (t : RtState). Rotated e s t p) (not (sub32 (s.entities p).time_slice 1 == 0))
          (λ y. absurd (ground arith))
          (λ _.
            if_cases (λ (t : RtState). Rotated e s t p) (any_company expired (ancestors expired p))
              (λ _. record {
                queue =
                    ap (λ (g : ℕ). (u.rqs g).queue (rt_se_prio s p)) (sym home)
                    ∙ ap (λ (i : ℕ). (u.rqs (expired.entities p).rt_rq).queue i) (sym same)
                    ∙ requeued_at_end e expired w p on
                    ∙ ap (λ (xs : List ℕ). remove p xs ++ (p ∷ [])) mates;
                slice =
                    ap (λ (es : ℕ → RtEntity). (es p).time_slice)
                      (requeue_entities expired false (ancestors expired p))
                    ∙ ap
                        (λ b.
                          (if b
                            then record (s.entities p) { time_slice = rr }
                            else s.entities p).time_slice)
                        (itself p);
                resched = resched_here u p;
              })
              (λ y. absurd (let yes = many in ground arith))))

slice_counts :
    (e : RtEnv) (u : RtState) (p : ℕ)
    → (u.tasks p).policy ≡ sched_rr
    → (u.entities p).time_slice < u32_mod
    → 1 < (u.entities p).time_slice
    → Counted u (tick_slice e u p) p 1
unfolding tick_slice
slice_counts e u p policy b l =
    if_cases (λ (t : RtState). Counted u t p 1) (not ((u.tasks p).policy == sched_rr))
      (λ y. absurd (ground arith))
      (λ _.
        if_cases (λ (t : RtState). Counted u t p 1) (not (sub32 (u.entities p).time_slice 1 == 0))
          (λ _. record {
            queues = λ g i. refl;
            agree = set_entity-Agree u p (u.entities p).timeout (sub32 (u.entities p).time_slice 1);
            policy = refl;
            slice = rw (itself p) (ground arith);
          })
          (λ y. absurd (ground arith)))

-- What a tick does before it comes to the time slice.
before_slice : RtEnv → ℕ → RtState → ℕ → RtState
before_slice e now s p = watchdog e (update_curr_rt e (record s { clock_task = now })) p

before_slice-Counted :
    (e : RtEnv) (now : ℕ) (s : RtState) (p : ℕ)
    → Unthrottled e (record s { clock_task = now })
    → Counted s (before_slice e now s p) p 0
unfolding before_slice
before_slice-Counted e now s p free =
    let clocked = record s { clock_task = now } in
    let c : Counted s clocked p 0 = record {
      queues = λ g i. refl;
      agree = same_places s clocked refl refl refl (λ q. refl);
      policy = refl;
      slice = omega arith;
    } in
    Counted-trans c (
      Counted-trans (update_curr_rt-Counted e clocked p free)
        (watchdog-Counted e (update_curr_rt e clocked) p))

ticks-Counted :
    (e : RtEnv) (clock : ℕ → ℕ) (s : RtState) (p j : ℕ)
    → ((i : ℕ) → i < j → Unthrottled e (record (ticks i e clock s p) { clock_task = clock i }))
    → (s.tasks p).policy ≡ sched_rr
    → (s.entities p).time_slice < u32_mod
    → j < (s.entities p).time_slice
    → Counted s (ticks j e clock s p) p j
unfolding ticks task_tick_rt before_slice
ticks-Counted e clock s p zero free rr b l = Counted-refl s p
ticks-Counted e clock s p (suc j) free rr b l =
    let u = ticks j e clock s p in
    let c = ticks-Counted e clock s p j (λ i l. free i (omega arith)) rr b (omega arith) in
    let k = before_slice-Counted e (clock j) u p (free j (omega arith)) in
    let x = c.slice in
    let y = k.slice in
    let now =
      slice_counts e (before_slice e (clock j) u p) p (k.policy ∙ c.policy ∙ rr) (omega arith)
        (omega arith) in
    let n : j + 1 ≡ suc j = omega arith in
    subst (λ i. Counted s (tick_slice e (before_slice e (clock j) u p) p) p i) n
      (Counted-trans c (Counted-trans k now))

-- For a SCHED_RR task that is queued, not alone in its queue and has a time slice left, in a
-- hierarchy that is a tree with the invariant of the class: if task_tick_rt is called for the task
-- as many times as the slice has ticks, and at none of the calls the accounting of the current task
-- throttles a group, then all calls but the last change no queue, whatever the clock reads; the
-- last one puts the task at the end of its queue, behind all others of its priority, gives it a
-- full time slice and sets its need_resched.
pub ticks_lem :
    (e : RtEnv) (clock : ℕ → ℕ) {level : ℕ → ℕ} (s : RtState) (p k : ℕ)
    → IsSound level s
    → ((i : ℕ) → i ≤ k → Unthrottled e (record (ticks i e clock s p) { clock_task = clock i }))
    → (s.entities p).my_q ≡ none
    → (s.tasks p).policy ≡ sched_rr
    → (s.entities p).time_slice ≡ suc k
    → suc k < u32_mod
    → on_rt_rq s p ≡ true
    → has_other ((rq_of s p).queue (s.tasks p).prio) ≡ true
    → ((g i : ℕ) → ((ticks k e clock s p).rqs g).queue i ≡ (s.rqs g).queue i)
      × (((ticks (suc k) e clock s p).rqs (s.entities p).rt_rq).queue (s.tasks p).prio
          ≡ remove p ((rq_of s p).queue (s.tasks p).prio) ++ (p ∷ []))
      × (((ticks (suc k) e clock s p).entities p).time_slice ≡ rr_timeslice e)
      × (((ticks (suc k) e clock s p).tasks p).need_resched ≡ true)
unfolding ticks task_tick_rt before_slice
ticks_lem e clock {level = level} s p k v free m rr sl b o h =
    let before =
      ticks-Counted e clock s p k (λ i l. free i (omega arith)) rr (omega arith) (omega arith) in
    let u = before_slice e (clock k) (ticks k e clock s p) p in
    let c =
      Counted-trans before
        (before_slice-Counted e (clock k) (ticks k e clock s p) p (free k (omega arith))) in
    let w = Agree-IsSound s u c.agree v in
    let q = (s.tasks p).prio in
    let prio = prio-Agree s u c.agree p ∙ task_prio s p m in
    let home = c.agree.rt_rq p in
    let mates : (rq_of u p).queue (rt_se_prio u p) ≡ (rq_of s p).queue q =
      ap (λ (i : ℕ). (rq_of u p).queue i) prio
      ∙ ap (λ (g : ℕ). (u.rqs g).queue q) home
      ∙ c.queues (s.entities p).rt_rq q in
    let slice = c.slice in
    let r = tick_slice-Rotated e u p w (record {
      rr = c.policy ∙ rr;
      one = omega arith;
      on = Agree-on s u c.agree p ∙ o;
      others = ap has_other mates ∙ h;
    }) in
    let t = tick_slice e u p in
    (
      before.queues,
      ap (λ (i : ℕ). (t.rqs (s.entities p).rt_rq).queue i) (sym prio)
          ∙ ap (λ (g : ℕ). (t.rqs g).queue (rt_se_prio u p)) (sym home)
          ∙ r.queue
          ∙ ap (λ (xs : List ℕ). remove p xs ++ (p ∷ [])) mates,
      r.slice,
      r.resched,
    )
