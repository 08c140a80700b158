-- ===== src/Config/Strategy.antt =====
-- internal/config/config.go, the backoff strategies. The Go type is an `int`; its three constants
-- are the only values that the program builds, but for the 0 that goes with a parse error.
use opensearch_api.Prelude.{
  Bytes, Result, bytes_eq, codes, err, if◌then◌else◌, inl, inr, ok, refl, to_lower, ◌≡◌, ◌⊎◌,
}

pub data BackoffStrategy : Type 0 where
  constant linear exponential : BackoffStrategy

pub strategy_cases : (s : BackoffStrategy) → (s ≡ constant) ⊎ ((s ≡ linear) ⊎ (s ≡ exponential))
strategy_cases constant = inl refl
strategy_cases linear = inr (inl refl)
strategy_cases exponential = inr (inr refl)

pub data StrategyError : Type 0 where
  unknown_strategy : Bytes → StrategyError

unfoldable pub strategy_string : BackoffStrategy → Bytes
strategy_string constant = codes "constant"
strategy_string linear = codes "linear"
strategy_string exponential = codes "exponential"

unfoldable pub parse_backoff_strategy : Bytes → Result StrategyError BackoffStrategy
parse_backoff_strategy s =
    let name = to_lower s in
    if bytes_eq name (codes "constant")
    then ok constant
    else if bytes_eq name (codes "linear")
    then ok linear
    else if bytes_eq name (codes "exponential")
    then ok exponential
    else err (unknown_strategy s)

mixed_case : parse_backoff_strategy (codes "ExpoNential") ≡ ok exponential
unfolding parse_backoff_strategy to_lower
mixed_case = refl
