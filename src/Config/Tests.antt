-- ===== src/Config/Tests.antt =====
-- The configuration on concrete inputs.
use opensearch_api.Prelude.{
  Bool, Bytes, Option, arith, bytes_eq, codes, false, if◌then◌else◌, is_empty, max_int64, none, ok,
  pos, refl, some, span_digits, to_upper, true, value_from, ℕ, ◌*◌, ◌≡◌, ◌≤◌,
}
use opensearch_api.Config.Types.{Config, Duration, defaults}
use opensearch_api.Config.Size.{format_size, parse_int, parse_size, scale, unit_bytes}
use opensearch_api.Config.Size.RoundTrip.{parse_size-format_size}
use opensearch_api.Config.Size.Sound.{parse_size_sound}
use opensearch_api.Config.Env.{
  EnvLookup, Lookup, env_endpoint, env_password, env_timeout, lookup_env, non_empty,
}
use opensearch_api.Config.Resolve.{
  Field, Sources, apply_env, apply_flags, field_username, finish, or_default_endpoint, resolve,
  resolve_password_source,
}
use opensearch_api.Config.Resolve.Precedence.{Decides, resolve_precedence}
use opensearch_api.Config.Resolve.Errors.{error_of, error_of-resolve, expected_error}

parse_size-format_size_example : parse_size (format_size (pos 1536)) ≡ ok (pos 1536)
parse_size-format_size_example = parse_size-format_size 1536 (omega arith)

ten_kib : parse_size (codes "10KiB") ≡ ok (pos 10240)
unfolding parse_size parse_int unit_bytes scale to_upper
ten_kib = refl

parse_size_sound_example :
    (mult : ℕ) × (is_empty (span_digits (codes "10KiB")).0 ≡ false)
    × (unit_bytes (span_digits (codes "10KiB")).1 ≡ some mult)
    × (pos 10240 ≡ pos (value_from 0 (span_digits (codes "10KiB")).0 * mult))
    × (value_from 0 (span_digits (codes "10KiB")).0 * mult ≤ max_int64)
parse_size_sound_example = parse_size_sound (codes "10KiB") (pos 10240) ten_kib

abbrev environment : EnvLookup
environment = some λ key.
    if bytes_eq key (codes "OSAPI_TIMEOUT")
    then some (codes "5s")
    else if bytes_eq key (codes "OPENSEARCH_USERNAME")
    then some (codes "admin")
    else none

-- A reader of durations that knows one of them.
abbrev five_seconds : Bytes → Option Duration
five_seconds v = if bytes_eq v (codes "5s") then some (pos 5_000_000_000) else none

abbrev only_username : Field → Bool
only_username field_username = true
only_username _ = false

abbrev sources : Sources
sources = record {
  flags = record defaults { username = codes "reader" };
  is_changed = some only_username;
  env = environment;
}

abbrev resolved : Config
resolved = record defaults {
  endpoint = codes "https://localhost:9200";
  username = codes "reader";
  timeout = pos 5_000_000_000;
}

resolves : resolve five_seconds sources ≡ ok resolved
unfolding resolve apply_env env_timeout lookup_env non_empty finish apply_flags or_default_endpoint
    resolve_password_source defaults env_endpoint env_password
resolves = refl

resolve_precedence_example : Decides five_seconds sources resolved
resolve_precedence_example = resolve_precedence five_seconds sources resolved resolves

error_of-resolve_example :
    error_of (resolve five_seconds sources) ≡ expected_error five_seconds sources
error_of-resolve_example = error_of-resolve five_seconds sources

abbrev file_vars : Lookup
file_vars key = if bytes_eq key (codes "OPENSEARCH_USERNAME") then some (codes "filed") else none
