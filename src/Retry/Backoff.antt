-- ===== src/Retry/Backoff.antt =====
-- internal/retry/backoff.go: the delay before the next attempt. Floating point is an argument: the
-- processor's operations on bit patterns.
pub mod Growth
pub mod Bounds
use opensearch_api.Prelude.{
  Bool, Option, if◌then◌else◌, int64, int_ltb, ltb, max, max_int64, negsuc, none, pos, refl, some,
  suc, zero, ℕ, ℤ, ◌%◌, ◌&&◌, ◌*◌, ◌-◌, ◌/◌, ◌==◌, ◌^◌, ◌≡◌,
}
use opensearch_api.Config.Types.{Duration, Float64, RetryConfig}
use opensearch_api.Config.Strategy.{constant, exponential, linear}

pub record FloatOps : Type 0 where
  pub lt : Float64 → Float64 → Bool
  pub le : Float64 → Float64 → Bool
  pub add : Float64 → Float64 → Float64
  pub sub : Float64 → Float64 → Float64
  pub mul : Float64 → Float64 → Float64
  pub zero_f : Float64
  pub one_f : Float64
  pub two_f : Float64
  pub max_jitter_fraction : Float64
  pub of_int : ℤ → Float64
  pub to_int : Float64 → ℤ

abbrev pub max_duration : ℕ
max_duration = max_int64

unfoldable pub clamp_max : Duration → Duration → Duration
clamp_max max_delay d = if int_ltb (pos 0) max_delay && int_ltb max_delay d then max_delay else d

unfoldable pub clamp_unit : FloatOps → Float64 → Float64
clamp_unit f v =
    if f.lt v f.zero_f
    then f.zero_f
    else if f.lt f.max_jitter_fraction v
    then f.max_jitter_fraction
    else v

-- The product is in int64.
unfoldable pub linear_delay : Duration → ℕ → Duration
linear_delay (negsuc n) attempt = negsuc n
linear_delay (pos initial) attempt =
    if initial == 0
    then pos initial
    else if ltb (max_duration / initial) attempt
    then pos max_duration
    else int64 (initial * attempt)

-- The loop of `expDelay`, with the rounds that are left. The doubling is in int64.
unfoldable pub double_from : ℕ → ℕ → ℕ
double_from zero d = d
double_from (suc rounds) d =
    let rest = double_from rounds ((d * 2) % 2 ^ 64) in
    if ltb (max_duration / 2) d then max_duration else rest

unfoldable pub exp_delay : Duration → ℕ → Duration
exp_delay (negsuc n) attempt = negsuc n
exp_delay (pos initial) attempt =
    if initial == 0 then pos initial else int64 (double_from (attempt - 1) initial)

unfoldable pub base_delay : RetryConfig → ℕ → Duration
base_delay cfg attempt = elim cfg.strategy [
  | constant ↦ cfg.initial
  | linear ↦ linear_delay cfg.initial attempt
  | exponential ↦ exp_delay cfg.initial attempt
]

-- `if attempt < 1 { attempt = 1 }`
unfoldable pub at_least_one : ℤ → ℕ
at_least_one (negsuc n) = 1
at_least_one (pos n) = if n == 0 then 1 else n

-- max(d, 0)
unfoldable pub not_negative : Duration → Duration
not_negative (pos n) = pos n
not_negative (negsuc n) = pos 0

-- The delay under a jitter sample.
unfoldable pub jittered : FloatOps → Float64 → Float64 → Duration → Duration
jittered f jitter sample d =
    let fraction = clamp_unit f jitter in
    let s = clamp_unit f sample in
    let factor = f.add (f.sub f.one_f fraction) (f.mul (f.mul s f.two_f) fraction) in
    not_negative (f.to_int (f.mul (f.of_int d) factor))

-- `Duration`; the jitter source is nil or gives a sample.
unfoldable pub backoff : FloatOps → RetryConfig → ℤ → Option Float64 → Duration
backoff f cfg attempt none = clamp_max cfg.max (base_delay cfg (at_least_one attempt))
backoff f cfg attempt (some sample) =
    let d = clamp_max cfg.max (base_delay cfg (at_least_one attempt)) in
    if f.le cfg.jitter f.zero_f then d else clamp_max cfg.max (jittered f cfg.jitter sample d)

ramp :
    (linear_delay (pos 2) 3 ≡ pos 6)
    × (exp_delay (pos 2) 5 ≡ pos 32)
    × (exp_delay (pos 2) 70 ≡ pos max_duration)
unfolding linear_delay exp_delay double_from
ramp = (refl, refl, refl)
