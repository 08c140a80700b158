-- ===== src/Cli/Tests.antt =====
-- A resolved command line and parsed headers on concrete inputs.
use opensearch_api.Osclient.Address.{Headers, delete_header}
use opensearch_api.Osclient.Header.{
  canonical_from, canonical_key, header_add, header_get, values_of,
}
use opensearch_api.Cli.Flags.{
  parse_headers, parse_headers-values_for, parse_headers_from, trim_one_space, trim_space,
  trim_start, values_for,
}
use opensearch_api.Prelude.{
  Bytes, List, [], codes, cut_at, err, false, none, ok, pos, refl, to_lower, to_upper, ◌∷◌, ◌≡◌,
}
use opensearch_api.Errors.{ctx, deadline_exceeded, sentinel}
use opensearch_api.Config.Types.{Config, default_retry, defaults}
use opensearch_api.Config.Strategy.{parse_backoff_strategy}
use opensearch_api.Config.Size.{parse_int, parse_size, scale, unit_bytes}
use opensearch_api.Config.Env.{env_endpoint, env_password, env_timeout, env_username, lookup_env}
use opensearch_api.Config.Resolve.{
  apply_env, apply_flags, finish, or_default_endpoint, resolve, resolve_password,
  resolve_password_source,
}
use opensearch_api.Retry.Predicate.{compile_predicate}
use opensearch_api.Cli.Resolve.{
  IsMeant, Predicates, RetryFlags, Surroundings, resolve_config, resolve_config-IsMeant,
}

abbrev default_flags : RetryFlags
default_flags = record {
  retry = pos 0;
  backoff = codes "linear";
  backoff_initial = pos 2_000_000_000;
  backoff_max = pos 30_000_000_000;
  backoff_jitter = 0;
  abort_on = [];
  retry_on = [];
  retry_when = [];
  success_when = [];
  max_body_buffer = codes "10MiB";
}

abbrev nothing_set : Surroundings
nothing_set = record {
  parse_duration = λ text. none;
  compile = λ text. err (sentinel (ctx deadline_exceeded));
  prompt = none;
  is_tty = false;
  env = none;
  is_changed = λ field. false;
}

abbrev plain : Config × Predicates
plain = (
  record defaults { endpoint = codes "https://localhost:9200" },
  record { retry_when = none; success_when = none },
)

resolves_plain : resolve_config nothing_set defaults default_flags ≡ ok plain
unfolding resolve_config parse_backoff_strategy to_lower parse_size parse_int unit_bytes scale
    to_upper resolve apply_env env_timeout lookup_env env_endpoint env_username env_password finish
    apply_flags or_default_endpoint resolve_password_source defaults default_retry compile_predicate
    resolve_password
resolves_plain = refl

resolve_config-IsMeant_example : IsMeant nothing_set defaults plain.0 plain.1
resolve_config-IsMeant_example =
    resolve_config-IsMeant nothing_set defaults default_flags plain resolves_plain

abbrev header_flags : List Bytes
header_flags = codes "x-a: 1" ∷ codes "Accept:text/csv" ∷ codes " X-A :2" ∷ []

abbrev header_result : Headers
header_result =
    (codes "X-A", codes "1" ∷ codes "2" ∷ []) ∷ (codes "Accept", codes "text/csv" ∷ []) ∷ []

parses_headers : parse_headers header_flags ≡ ok header_result
unfolding canonical_from canonical_key cut_at delete_header header_add header_get parse_headers
    parse_headers_from trim_one_space trim_space trim_start
parses_headers = refl

parse_headers-values_for_example :
    values_of (header_get (codes "X-A") header_result) ≡ values_for (codes "X-A") header_flags
parse_headers-values_for_example =
    parse_headers-values_for header_flags header_result (codes "X-A") parses_headers
