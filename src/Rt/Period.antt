-- ===== src/Rt/Period.antt =====
-- What the period timer does to the accumulated time of an rt_rq.
use linux_kernel.Prelude.{
  ℕ, ◌+◌, ◌-◌, ◌*◌, ◌%◌, ◌<◌, ◌≡◌, ap, ◌&&◌, not, Bool, arith, min, if_cases, ltb,
}
use linux_kernel.Prelude.Words.{u64_mod}
use linux_kernel.Rt.{RtRq}
use linux_kernel.Rt.Runtime.{replenish}

sum_times : (a b r : ℕ) → (a + b) * r ≡ a * r + b * r
sum_times a b r = grind arith

-- An rt_rq with another time and throttle.
abbrev timed : RtRq → ℕ → Bool → RtRq
timed r time throttled = record r { rt_time = time; rt_throttled = throttled }

abbrev left_over : RtRq → ℕ → Bool
left_over r time = r.rt_throttled && not (ltb time r.rt_runtime)

replenish-timed :
    (r : RtRq) (o : ℕ)
    → o * r.rt_runtime < u64_mod
    → (replenish r o).0
      ≡ timed r (r.rt_time - o * r.rt_runtime) (left_over r (r.rt_time - o * r.rt_runtime))
unfolding replenish
replenish-timed r o h =
    let left = r.rt_time - min r.rt_time (o * r.rt_runtime % u64_mod) in
    let same : left ≡ r.rt_time - o * r.rt_runtime = ground arith in
    rw (← same) (
      if_cases (λ (x : RtRq × Bool). x.0 ≡ timed r left (left_over r left))
        (r.rt_throttled && ltb left r.rt_runtime) (λ y. ap (timed r left) (ground arith))
        (λ y. ap (timed r left) (ground arith)))

-- If (a + b) periods' runtime fits in 64 bits: replenishing for `a` overrun periods and then for `b` leaves
-- the rt_rq of replenishing once for `a + b`, its throttle included. Periods whose timer is late are made
-- up for in full.
replenish-replenish :
    (r : RtRq) (a b : ℕ)
    → (a + b) * r.rt_runtime < u64_mod
    → (replenish (replenish r a).0 b).0 ≡ (replenish r (a + b)).0
replenish-replenish r a b h =
    let s = sum_times a b r.rt_runtime in
    let u = timed r (r.rt_time - a * r.rt_runtime) (left_over r (r.rt_time - a * r.rt_runtime)) in
    let first : (replenish r a).0 ≡ u = replenish-timed r a (omega arith) in
    rw (first, replenish-timed u b (omega arith), replenish-timed r (a + b) h)
      (let time : r.rt_time - a * r.rt_runtime - b * r.rt_runtime
            ≡ r.rt_time - (a + b) * r.rt_runtime =
          omega arith in
        rw time (ap (timed r (r.rt_time - (a + b) * r.rt_runtime)) (ground arith)))

-- If the runtime of the overrun periods fits in 64 bits: replenish takes it off the accumulated time as far as
-- that goes; the rt_rq is throttled afterwards exactly if it was before and has not got below its runtime;
-- and the function reports a lifted throttle exactly then.
pub replenish_lem :
    (r : RtRq) (overrun : ℕ)
    → overrun * r.rt_runtime < u64_mod
    → ((replenish r overrun).0.rt_time ≡ r.rt_time - overrun * r.rt_runtime)
      × ((replenish r overrun).0.rt_throttled
          ≡ (r.rt_throttled && not (ltb (r.rt_time - overrun * r.rt_runtime) r.rt_runtime)))
      × ((replenish r overrun).1 ≡ (r.rt_throttled && not (replenish r overrun).0.rt_throttled))
unfolding replenish
replenish_lem r overrun h = ground arith
