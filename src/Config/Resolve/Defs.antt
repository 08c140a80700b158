-- ===== src/Config/Resolve/Defs.antt =====
-- internal/config/resolve.go and password.go: one configuration out of flags, environment and
-- defaults. `time.ParseDuration` is an argument, and so are the prompt and the terminal test.
use opensearch_api.Prelude.{
  Bool, Bytes, Option, Result, [], err, false, if◌then◌else◌, int_ltb, is_empty, map_err, none, not,
  ok, pos, some, ◌>>=◌,
}
use opensearch_api.Config.Types.{Config, Duration, RetryConfig, default_endpoint, defaults}
use opensearch_api.Config.Env.{EnvLookup, env_endpoint, env_password, env_timeout, env_username}

-- The Field* constants.
pub data Field : Type 0 where
  field_endpoint field_username field_password field_ca_cert field_insecure : Field
  field_retry field_backoff field_backoff_initial field_backoff_max field_backoff_jitter : Field
  field_abort_on field_retry_on field_retry_when field_success_when field_max_body_buffer : Field
  field_timeout : Field

pub record Sources : Type 0 where
  pub flags : Config
  pub is_changed : Option (Field → Bool)
  pub env : EnvLookup

pub data ResolveError : Type 0 where
  invalid_env_timeout : Bytes → ResolveError
  negative_timeout : Duration → ResolveError

-- A nil `Changed` means that nothing was set.
unfoldable pub changed : Sources → Field → Bool
changed s f = elim s.is_changed [ none ↦ false | some was_set ↦ was_set f ]

abbrev pub pick {ℓ} : {A : Type ℓ} → Bool → A → A → A
pick set flag old = if set then flag else old

abbrev pub or_else {ℓ} : {A : Type ℓ} → Option A → A → A
or_else none old = old
or_else (some v) old = v

apply_timeout : (Bytes → Option Duration) → Option Bytes → Config → Result ResolveError Config
apply_timeout parse_duration none cfg = ok cfg
apply_timeout parse_duration (some v) cfg = elim (parse_duration v) [
  | none ↦ err (invalid_env_timeout v)
  | some d ↦ ok (record cfg { timeout = d })
]

unfoldable pub apply_env :
    (Bytes → Option Duration) → Config → EnvLookup → Result ResolveError Config
unfolding apply_timeout
apply_env parse_duration cfg env = apply_timeout parse_duration (env_timeout env) (record cfg {
  endpoint = or_else (env_endpoint env) cfg.endpoint;
  username = or_else (env_username env) cfg.username;
})

apply_retry_flags : (Field → Bool) → RetryConfig → RetryConfig → RetryConfig
apply_retry_flags set f old = record {
  max_retries = pick (set field_retry) f.max_retries old.max_retries;
  strategy = pick (set field_backoff) f.strategy old.strategy;
  initial = pick (set field_backoff_initial) f.initial old.initial;
  max = pick (set field_backoff_max) f.max old.max;
  jitter = pick (set field_backoff_jitter) f.jitter old.jitter;
  abort_on = pick (set field_abort_on) f.abort_on old.abort_on;
  retry_on = pick (set field_retry_on) f.retry_on old.retry_on;
  retry_when = pick (set field_retry_when) f.retry_when old.retry_when;
  success_when = pick (set field_success_when) f.success_when old.success_when;
  max_body_buffer = pick (set field_max_body_buffer) f.max_body_buffer old.max_body_buffer;
}

unfoldable pub apply_flags : Config → Sources → Config
unfolding apply_retry_flags changed
apply_flags cfg s =
    let f = s.flags in
    record {
      endpoint = pick (changed s field_endpoint) f.endpoint cfg.endpoint;
      username = pick (changed s field_username) f.username cfg.username;
      password = cfg.password;
      ca_cert_path = pick (changed s field_ca_cert) f.ca_cert_path cfg.ca_cert_path;
      insecure = pick (changed s field_insecure) f.insecure cfg.insecure;
      retry = apply_retry_flags (changed s) f.retry cfg.retry;
      timeout = pick (changed s field_timeout) f.timeout cfg.timeout;
    }

unfoldable pub resolve_password_source : Config → Sources → Config
resolve_password_source cfg s = record cfg {
  password =
      pick (changed s field_password) s.flags.password (or_else (env_password s.env) cfg.password);
}

unfoldable pub or_default_endpoint : Bytes → Bytes
or_default_endpoint endpoint = if is_empty endpoint then default_endpoint else endpoint

-- The part of Resolve after the environment.
unfoldable pub finish : Sources → Config → Result ResolveError Config
finish s from_env =
    let cfg = apply_flags from_env s in
    let with_password = resolve_password_source cfg s in
    if int_ltb cfg.timeout (pos 0)
    then err (negative_timeout cfg.timeout)
    else ok (record with_password { endpoint = or_default_endpoint with_password.endpoint })

unfoldable pub resolve : (Bytes → Option Duration) → Sources → Result ResolveError Config
resolve parse_duration s = apply_env parse_duration defaults s.env >>= finish s

pub data PasswordError : Type 0 where
  no_password : Bytes → PasswordError
  prompt_failed : Bytes → PasswordError

-- The prompt is nil, or gives a password or an error text.
unfoldable pub resolve_password :
    Config → Option (Result Bytes Bytes) → Bool → Result PasswordError Bytes
resolve_password cfg prompt is_tty =
    if not (is_empty cfg.password)
    then ok cfg.password
    else if is_empty cfg.username
    then ok []
    else if not is_tty
    then err (no_password cfg.username)
    else elim prompt [
      | none ↦ err (no_password cfg.username)
      | some answer ↦ map_err prompt_failed answer
    ]
