-- ===== src/Rt/Changes.antt =====
-- What linking and unlinking an entity do to the queues of an rt_rq.
use linux_kernel.Prelude.{
  ℕ, zero, suc, ◌<◌, ◌≤◌, ◌≡◌, refl, inl, inr, false, not, List, arith, if_cases, ◌==◌, ltb, Bool,
  Bool-cases, ◌||◌, ◌&&◌,
}
use linux_kernel.Prelude.Words.{sub32}
use linux_kernel.Sched.{max_rt_prio, update}
use linux_kernel.Wrr.{remove}
use linux_kernel.Wrr.Queue.{Distinct}
use linux_kernel.Rt.{RtEnv, RtRq, on_queues, link, unlink, inc_rt_tasks, dec_rt_prio, dec_rt_tasks}
use linux_kernel.Rt.Array.{IsArray, contains-remove-Distinct, total-none}
use linux_kernel.Rt.Linking.{added, contains-update}

pub on_queues-added :
    (n : ℕ) (head : Bool) (queue : ℕ → List ℕ) (p se q : ℕ)
    → p < n
    → on_queues n (update queue p (added head se (queue p))) q ≡ (se == q || on_queues n queue q)
unfolding on_queues
on_queues-added zero head queue p se q l = absurd (omega arith)
on_queues-added (suc n) head queue p se q l = elim (Bool-cases (p == n)) [
  | inl e ↦
      (let u = contains-update head queue p se n q in
        let out = on_queues-other n head queue p se q (ground arith) in ground arith)
  | inr e ↦
      (let u = contains-update head queue p se n q in
        let rest = on_queues-added n head queue p se q (ground arith) in ground arith)
]
  where
    on_queues-other :
        (n : ℕ) (head : Bool) (queue : ℕ → List ℕ) (p se q : ℕ)
        → n ≤ p
        → on_queues n (update queue p (added head se (queue p))) q ≡ on_queues n queue q
    on_queues-other zero head queue p se q l = refl
    on_queues-other (suc n) head queue p se q l =
        let rest = on_queues-other n head queue p se q (omega arith) in
        let u = contains-update head queue p se n q in ground arith

pub on_queues-remove :
    (n : ℕ) (queue : ℕ → List ℕ) (se q : ℕ)
    → ((i : ℕ) → Distinct (queue i))
    → on_queues n (λ i. remove se (queue i)) q ≡ (not (se == q) && on_queues n queue q)
unfolding on_queues
on_queues-remove zero queue se q d = ground arith
on_queues-remove (suc n) queue se q d =
    let rest = on_queues-remove n queue se q d in
    let here = contains-remove-Distinct se q (queue n) (d n) in ground arith

pub queue-inc_rt_tasks :
    (enabled boosted head : Bool) (p se : ℕ) (r : RtRq)
    → (inc_rt_tasks enabled boosted p (link r p se head)).queue
      ≡ update r.queue p (added head se (r.queue p))
unfolding inc_rt_tasks link
queue-inc_rt_tasks enabled boosted head p se r =
    if_cases (λ (h : RtRq). h.queue ≡ update r.queue p (added head se (r.queue p)))
      (ltb p r.highest_prio) (λ _. refl) (λ _. refl)

pub queue-dec_rt_tasks :
    (e : RtEnv) (boosted : Bool) (p se : ℕ) (r : RtRq)
    → (dec_rt_tasks e boosted p (unlink r p se)).queue ≡ λ (i : ℕ). remove se (r.queue i)
unfolding dec_rt_tasks unlink dec_rt_prio
queue-dec_rt_tasks e boosted p se r =
    if_cases (λ (h : RtRq). h.queue ≡ λ (i : ℕ). remove se (r.queue i))
      (sub32 r.rt_nr_running 1 == 0) (λ _. refl)
      (λ _.
        if_cases (λ (h : RtRq). h.queue ≡ λ (i : ℕ). remove se (r.queue i)) (p == r.highest_prio)
          (λ _. refl) (λ _. refl))

pub rt_se-inc_rt_tasks :
    (enabled boosted head : Bool) (p se : ℕ) (r : RtRq)
    → (inc_rt_tasks enabled boosted p (link r p se head)).rt_se ≡ r.rt_se
unfolding inc_rt_tasks link
rt_se-inc_rt_tasks enabled boosted head p se r = ground arith

pub rt_se-dec_rt_tasks :
    (e : RtEnv) (boosted : Bool) (p se : ℕ) (r : RtRq)
    → (dec_rt_tasks e boosted p (unlink r p se)).rt_se ≡ r.rt_se
unfolding dec_rt_tasks unlink dec_rt_prio
rt_se-dec_rt_tasks e boosted p se r = ground arith

-- An rt_rq that is not empty has a highest priority below 100.
pub busy-highest_prio :
    (prio : ℕ → ℕ) (r : RtRq)
    → IsArray prio r
    → (r.rt_nr_running == 0) ≡ false
    → r.highest_prio < max_rt_prio
busy-highest_prio prio r v b = elim (Bool-cases (ltb r.highest_prio max_rt_prio)) [
  | inl y ↦ ground arith
  | inr y ↦ absurd (
      let z =
        total-none max_rt_prio r.queue
          (λ i l. let k = v.highest.below i (ground arith) in let s = v.bits i l in ground arith) in
      let n = v.count in ground arith)
]
