-- ===== src/Runbook/Spec/Fields.antt =====
-- What a call's retry settings become.
use opensearch_api.Prelude.{
  >>=-eq-ok, Bytes, Option, guard, guard-eq-ok, is_empty, ok, ok-injective, refl, subst, true, ◌||◌,
  ◌≡◌,
}
use opensearch_api.Config.Types.{Duration, RetryConfig, default_retry}
use opensearch_api.Runbook.Spec.{
  RetrySpec, both_lists, build_retry_config, parsed_or, read_initial, read_max, read_size,
  read_strategy,
}

-- Each setting is what its text says, or the default of the command line where there is no text; and
-- not both lists of statuses are given.
pub record IsBuilt (parse_duration : Bytes → Option Duration) (spec : RetrySpec) (cfg : RetryConfig)
    : Type 0 where
  pub strategy : parsed_or default_retry.strategy read_strategy spec.backoff ≡ ok cfg.strategy
  pub initial :
      parsed_or default_retry.initial (read_initial parse_duration) spec.backoff_initial
      ≡ ok cfg.initial
  pub max : parsed_or default_retry.max (read_max parse_duration) spec.backoff_max ≡ ok cfg.max
  pub max_body_buffer :
      parsed_or default_retry.max_body_buffer read_size spec.max_body_buffer
      ≡ ok cfg.max_body_buffer
  pub max_retries : cfg.max_retries ≡ spec.retry
  pub jitter : cfg.jitter ≡ spec.backoff_jitter
  pub lists : (is_empty cfg.abort_on || is_empty cfg.retry_on) ≡ true

-- A call whose retry settings are accepted runs with each of them as its text says, or as the command
-- line's default where there is no text, and never with both lists of statuses.
pub build_retry_config-IsBuilt :
    (parse_duration : Bytes → Option Duration) (spec : RetrySpec) (cfg : RetryConfig)
    → build_retry_config parse_duration spec ≡ ok cfg
    → IsBuilt parse_duration spec cfg
unfolding build_retry_config
build_retry_config-IsBuilt parse_duration spec cfg h =
    let (s, h1, r1) = >>=-eq-ok (parsed_or default_retry.strategy read_strategy spec.backoff) _ h in
    let (i, h2, r2) =
      >>=-eq-ok (parsed_or default_retry.initial (read_initial parse_duration) spec.backoff_initial)
        _ r1 in
    let (m, h3, r3) =
      >>=-eq-ok (parsed_or default_retry.max (read_max parse_duration) spec.backoff_max) _ r2 in
    let (b, h4, r4) =
      >>=-eq-ok (parsed_or default_retry.max_body_buffer read_size spec.max_body_buffer) _ r3 in
    let (_, h5, r5) =
      >>=-eq-ok (guard (is_empty spec.abort_on || is_empty spec.retry_on) both_lists) _ r4 in
    let same = ok-injective r5 in
    subst (IsBuilt parse_duration spec) same (record {
      strategy = h1;
      initial = h2;
      max = h3;
      max_body_buffer = h4;
      max_retries = refl;
      jitter = refl;
      lists = guard-eq-ok _ _ h5;
    })
