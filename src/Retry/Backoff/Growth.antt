-- ===== src/Retry/Backoff/Growth.antt =====
-- What the delays grow to: the exact product or power, up to the largest duration.
use opensearch_api.Prelude.{
  Bool-cases, ap, arith, false, inl, inr, int64_of_le, ltb, ltb→lt, min, pos, suc, zero, ℕ, ◌%◌,
  ◌*◌, ◌-◌, ◌/◌, ◌<◌, ◌==◌, ◌^◌, ◌∙◌, ◌≡◌, ◌≤◌,
}
use native.Mathlib.Nat.{div-lt_iff_lt-mul, le-div_iff_mul-le, mul_comm, one-le-pow, pow-suc}
use opensearch_api.Retry.Backoff.{double_from, exp_delay, linear_delay, max_duration}

suc-ne-zero : (n : ℕ) → (suc n == 0) ≡ false
suc-ne-zero n = ground arith

le-of_not_ltb : (a b : ℕ) → ltb a b ≡ false → b ≤ a
le-of_not_ltb a b h = ground arith

-- Growing linearly, the delay is the initial one times the attempt, or the largest duration where
-- that is more; the int64 product never wraps.
pub linear_delay-min :
    (initial attempt : ℕ)
    → initial ≤ max_duration
    → linear_delay (pos initial) attempt ≡ pos (min (initial * attempt) max_duration)
unfolding linear_delay
linear_delay-min zero attempt h = ap pos (omega arith)
linear_delay-min (suc n) attempt h =
    let over = div-lt_iff_lt-mul {k = suc n} {x = max_duration} {y = attempt} (omega arith) in
    elim (Bool-cases (ltb (max_duration / suc n) attempt)) [
      | inl big ↦
          rw (suc-ne-zero n, big)
            (ap pos (omega (arith, over.0 (ltb→lt _ _ big), mul_comm attempt (suc n))))
      | inr fits ↦
          let small = le-of_not_ltb (max_duration / suc n) attempt fits in
          let le =
            (le-div_iff_mul-le {k = suc n} {x = attempt} {y = max_duration} (omega arith)).0
              small in
          rw (suc-ne-zero n, fits)
            (int64_of_le (suc n * attempt) (omega (arith, le, mul_comm attempt (suc n)))
              ∙ ap pos (omega (arith, le, mul_comm attempt (suc n))))
    ]

double_from-min :
    (rounds d : ℕ)
    → 0 < d
    → d ≤ max_duration
    → double_from rounds d ≡ min (d * 2 ^ rounds) max_duration
unfolding double_from
double_from-min zero d p h = omega arith
double_from-min (suc rounds) d p h =
    let one = one-le-pow rounds 2 (omega arith) in
    let ih = double_from-min rounds ((d * 2) % 2 ^ 64) in
    elim (Bool-cases (ltb (max_duration / 2) d)) [
      | inl big ↦ rw (big, pow-suc) (grind arith)
      | inr fits ↦
          let small = le-of_not_ltb (max_duration / 2) d fits in
          let same : (d * 2) % 2 ^ 64 ≡ d * 2 = omega arith in
          rw (fits, ih (omega arith) (omega arith), same, pow-suc) (grind arith)
    ]

-- Growing exponentially, the delay is the initial one doubled before each attempt after the first,
-- or the largest duration where that is more; the doubling never wraps.
pub exp_delay-min :
    (initial attempt : ℕ)
    → initial ≤ max_duration
    → exp_delay (pos initial) attempt ≡ pos (min (initial * 2 ^ (attempt - 1)) max_duration)
unfolding exp_delay
exp_delay-min zero attempt h = ap pos (omega arith)
exp_delay-min (suc n) attempt h =
    let e = double_from-min (attempt - 1) (suc n) (omega arith) h in
    rw (suc-ne-zero n, e) (int64_of_le _ (omega arith))
