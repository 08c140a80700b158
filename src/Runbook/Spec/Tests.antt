-- ===== src/Runbook/Spec/Tests.antt =====
-- The settings of a call that gives a strategy and no more.
use opensearch_api.Prelude.{[], codes, none, ok, pos, refl, to_lower, to_upper, ◌∷◌, ◌≡◌}
use opensearch_api.Config.Types.{RetryConfig, default_retry}
use opensearch_api.Config.Strategy.{exponential, parse_backoff_strategy}
use opensearch_api.Config.Size.{parse_int, parse_size, scale, unit_bytes}
use opensearch_api.Runbook.Spec.{RetrySpec, build_retry_config}

abbrev written : RetrySpec
written = record {
  retry = pos 3;
  backoff = codes "Exponential";
  backoff_initial = [];
  backoff_max = [];
  backoff_jitter = 0;
  abort_on = [];
  retry_on = pos 503 ∷ [];
  retry_when = [];
  success_when = [];
  max_body_buffer = codes "1KiB";
}

abbrev built : RetryConfig
built = record default_retry {
  max_retries = pos 3;
  strategy = exponential;
  retry_on = pos 503 ∷ [];
  max_body_buffer = pos 1024;
}

builds : build_retry_config (λ text. none) written ≡ ok built
unfolding build_retry_config default_retry parse_backoff_strategy to_lower parse_size parse_int
    unit_bytes scale to_upper
builds = refl
