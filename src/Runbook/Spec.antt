-- ===== src/Runbook/Spec.antt =====
-- The retry settings of a call as written in a runbook, and buildRetryConfig of
-- internal/runbook/runbook.go. `time.ParseDuration` is an argument.
mod Tests
pub mod Fields
use opensearch_api.Prelude.{
  Bytes, List, Option, Result, from_option, guard, if◌then◌else◌, is_empty, map_err, max, ok, ℤ,
  ◌>>=◌, ◌>>◌, ◌||◌,
}
use opensearch_api.Config.Types.{Duration, Float64, RetryConfig, default_retry}
use opensearch_api.Config.Strategy.{BackoffStrategy, StrategyError, parse_backoff_strategy}
use opensearch_api.Config.Size.{SizeError, parse_size}

-- The retry part of callSpec; a text that is empty was not given.
pub record RetrySpec : Type 0 where
  pub retry : ℤ
  pub backoff : Bytes
  pub backoff_initial : Bytes
  pub backoff_max : Bytes
  pub backoff_jitter : Float64
  pub abort_on : List ℤ
  pub retry_on : List ℤ
  pub retry_when : Bytes
  pub success_when : Bytes
  pub max_body_buffer : Bytes

pub data SpecError : Type 0 where
  bad_backoff : StrategyError → SpecError
  bad_initial bad_max : Bytes → SpecError
  bad_buffer : SizeError → SpecError
  both_lists : SpecError

-- `if text != "" { value, err = parse(text) }`
abbrev pub parsed_or : {A : Type 0} → A → (Bytes → Result SpecError A) → Bytes → Result SpecError A
parsed_or default parse text = if is_empty text then ok default else parse text

abbrev pub read_strategy : Bytes → Result SpecError BackoffStrategy
read_strategy text = map_err bad_backoff (parse_backoff_strategy text)

abbrev pub read_size : Bytes → Result SpecError ℤ
read_size text = map_err bad_buffer (parse_size text)

module _ (parse_duration : Bytes → Option Duration) where
  abbrev pub read_initial : Bytes → Result SpecError Duration
  read_initial text = from_option (bad_initial text) (parse_duration text)

  abbrev pub read_max : Bytes → Result SpecError Duration
  read_max text = from_option (bad_max text) (parse_duration text)

  unfoldable pub build_retry_config : RetrySpec → Result SpecError RetryConfig
  build_retry_config spec = do
    strategy ← parsed_or default_retry.strategy read_strategy spec.backoff
    initial ← parsed_or default_retry.initial read_initial spec.backoff_initial
    max_delay ← parsed_or default_retry.max read_max spec.backoff_max
    max_body_buffer ← parsed_or default_retry.max_body_buffer read_size spec.max_body_buffer
    guard (is_empty spec.abort_on || is_empty spec.retry_on) both_lists
    ok (record {
      max_retries = spec.retry;
      strategy = strategy;
      initial = initial;
      max = max_delay;
      jitter = spec.backoff_jitter;
      abort_on = spec.abort_on;
      retry_on = spec.retry_on;
      retry_when = spec.retry_when;
      success_when = spec.success_when;
      max_body_buffer = max_body_buffer;
    })
