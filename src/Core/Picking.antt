-- ===== src/Core/Picking.antt =====
-- pick_next_task of core.c over the classes, the wrr class before the fair one.
use linux_kernel.Prelude.{
  ℕ, ◌≡◌, ◌<◌, ◌∙◌, refl, ap, false, Option, none, some, List, [], ◌∷◌, ◌==◌, length,
}
use linux_kernel.Prelude.Words.{u32_mod}
use linux_kernel.Sched.{Class, Rq}
use linux_kernel.Wrr.{first_entry, pick_next_task_wrr}
use linux_kernel.Wrr.Invariant.{Inv}
use linux_kernel.Wrr.Slices.{pick_next_task_wrr_lem}
use linux_kernel.Core.Classes.{
  Env, class_ops, wrr_sched_class, pick_from, pick_next_task, all_classes,
}

-- The first task of the wrr queue, or what the classes below give.
abbrev pub wrr_or_below : Env → Rq → Option ℕ → Option (ℕ × Rq)
wrr_or_below e rq none = pick_from e (Class.fair ∷ Class.idle ∷ []) rq
wrr_or_below e rq (some p) = some (p, rq)

pick_from_skips :
    (e : Env) (c : Class) (cs : List Class) (rq : Rq)
    → (class_ops e c).pick_next_task rq ≡ (none, rq)
    → pick_from e (c ∷ cs) rq ≡ pick_from e cs rq
unfolding pick_from
pick_from_skips e c cs rq h = rw (h, pick_from) (ap (λ (x : Option ℕ × Rq). pick_from e cs x.1) h)

pick_from_wrr :
    (e : Env) (rq : Rq) (o : Option ℕ)
    → pick_next_task_wrr rq ≡ o
    → pick_from e (Class.wrr ∷ Class.fair ∷ Class.idle ∷ []) rq ≡ wrr_or_below e rq o
unfolding pick_from class_ops wrr_sched_class
pick_from_wrr e rq none h = rw (h, pick_from) refl
pick_from_wrr e rq (some p) h = rw (h, pick_from) refl

-- With tasks outside the fair class, no stop task and no real-time task to run, the bookkeeping
-- invariant and fewer than 2^32 tasks in the wrr queue: pick_next_task gives the first task of
-- the wrr queue, and what the fair and idle classes give if that queue is empty.
pub pick_next_task_lem :
    (e : Env) (rq : Rq)
    → (rq.nr_running == rq.cfs_h_nr_running) ≡ false
    → (class_ops e Class.stop).pick_next_task rq ≡ (none, rq)
    → (class_ops e Class.rt).pick_next_task rq ≡ (none, rq)
    → Inv rq
    → length rq.wrr.queue < u32_mod
    → pick_next_task e rq ≡ wrr_or_below e rq (first_entry rq.wrr.queue)
unfolding pick_next_task
pick_next_task_lem e rq n s r v l =
    let slow : pick_from e all_classes rq ≡ wrr_or_below e rq (first_entry rq.wrr.queue) =
      pick_from_skips e Class.stop _ rq s
      ∙ pick_from_skips e Class.rt _ rq r
      ∙ pick_from_wrr e rq _ (pick_next_task_wrr_lem rq v l) in
    rw (n, pick_next_task) slow
