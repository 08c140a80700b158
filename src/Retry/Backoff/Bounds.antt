-- ===== src/Retry/Backoff/Bounds.antt =====
-- The delay lies between zero and the cap, whatever the jitter and the floating point do.
use opensearch_api.Prelude.{
  Bool-cases, Option, arith, false, inl, inr, int_ltb, negsuc, none, pos, refl, some, true, ℕ, ℤ,
  ◌≡◌, ◌≤◌,
}
use opensearch_api.Config.Types.{Duration, Float64, RetryConfig}
use opensearch_api.Config.Strategy.{strategy_cases}
use opensearch_api.Retry.Backoff.Growth.{exp_delay-min, linear_delay-min}
use opensearch_api.Retry.Backoff.{
  FloatOps, backoff, base_delay, clamp_max, jittered, max_duration, not_negative,
}

clamp_max-le :
    (max_delay d : Duration)
    → int_ltb (pos 0) max_delay ≡ true
    → int_ltb max_delay (clamp_max max_delay d) ≡ false
unfolding clamp_max
clamp_max-le (pos cap) (pos n) h = ground arith
clamp_max-le (pos cap) (negsuc n) h = ground arith
clamp_max-le (negsuc cap) d h = cc

-- If there is a cap, no delay is longer, whatever the jitter source and the floating point give.
pub backoff-le-max :
    (f : FloatOps) (cfg : RetryConfig) (attempt : ℤ) (sample : Option Float64)
    → int_ltb (pos 0) cfg.max ≡ true
    → int_ltb cfg.max (backoff f cfg attempt sample) ≡ false
unfolding backoff
backoff-le-max f cfg attempt none h = clamp_max-le cfg.max _ h
backoff-le-max f cfg attempt (some sample) h = elim (Bool-cases (f.le cfg.jitter f.zero_f)) [
  | inl off ↦ rw off (clamp_max-le cfg.max _ h)
  | inr jitter ↦ rw jitter (clamp_max-le cfg.max _ h)
]

abbrev IsNotNegative : Duration → Type 0
IsNotNegative d = int_ltb d (pos 0) ≡ false

pos_sign : (n : ℕ) → IsNotNegative (pos n)
pos_sign n = ground arith

clamp_max_sign : (max_delay d : Duration) → IsNotNegative d → IsNotNegative (clamp_max max_delay d)
unfolding clamp_max
clamp_max_sign (pos cap) (pos n) h = ground arith
clamp_max_sign (pos cap) (negsuc n) h = cc
clamp_max_sign (negsuc cap) d h = h

jittered_sign :
    (f : FloatOps) (jitter sample : Float64) (d : Duration)
    → IsNotNegative (jittered f jitter sample d)
unfolding jittered
jittered_sign f jitter sample d = go (f.to_int _)
  where
    go : (x : Duration) → IsNotNegative (not_negative x)
    go (pos n) = unfold not_negative in pos_sign n
    go (negsuc n) = unfold not_negative in refl

base_delay_sign :
    (cfg : RetryConfig) (attempt initial : ℕ)
    → cfg.initial ≡ pos initial
    → initial ≤ max_duration
    → IsNotNegative (base_delay cfg attempt)
unfolding base_delay
base_delay_sign cfg attempt initial e h = elim (strategy_cases cfg.strategy) [
  | inl is_constant ↦ rw (is_constant, e) (pos_sign initial)
  | inr (inl is_linear) ↦ rw (is_linear, e, linear_delay-min initial attempt h) (pos_sign _)
  | inr (inr is_exp) ↦ rw (is_exp, e, exp_delay-min initial attempt h) (pos_sign _)
]

-- An initial delay that is not negative never gives a negative delay.
pub backoff_sign :
    (f : FloatOps) (cfg : RetryConfig) (attempt : ℤ) (sample : Option Float64) (initial : ℕ)
    → cfg.initial ≡ pos initial
    → initial ≤ max_duration
    → IsNotNegative (backoff f cfg attempt sample)
unfolding backoff
backoff_sign f cfg attempt none initial e h =
    clamp_max_sign cfg.max _ (base_delay_sign cfg _ initial e h)
backoff_sign f cfg attempt (some sample) initial e h =
    elim (Bool-cases (f.le cfg.jitter f.zero_f)) [
      | inl off ↦ rw off (clamp_max_sign cfg.max _ (base_delay_sign cfg _ initial e h))
      | inr jitter ↦ rw jitter (clamp_max_sign cfg.max _ (jittered_sign f cfg.jitter sample _))
    ]
