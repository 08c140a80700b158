-- ===== src/Config/Types.antt =====
-- internal/config/config.go, RetryConfig, Config and Defaults. A duration is an int64 number of
-- nanoseconds. A float64 is its bit pattern, 0 being zero; its arithmetic is in Retry.Backoff.
use opensearch_api.Prelude.{
  Bool, Bytes, List, Result, [], codes, err, false, if◌then◌else◌, is_empty, ok, pos, refl,
  to_upper, ℕ, ℤ, ◌*◌, ◌^◌, ◌≡◌,
}
use opensearch_api.Config.Strategy.{BackoffStrategy, linear}
use opensearch_api.Config.Size.{SizeError, parse_int, parse_size, scale, unit_bytes}

abbrev pub Duration : Type 0
Duration = ℤ

abbrev pub Float64 : Type 0
Float64 = ℕ

pub record RetryConfig : Type 0 where
  pub max_retries : ℤ
  pub strategy : BackoffStrategy
  pub initial : Duration
  pub max : Duration
  pub jitter : Float64
  pub abort_on : List ℤ
  pub retry_on : List ℤ
  pub retry_when : Bytes
  pub success_when : Bytes
  pub max_body_buffer : ℤ

pub record Config : Type 0 where
  pub endpoint : Bytes
  pub username : Bytes
  pub password : Bytes
  pub ca_cert_path : Bytes
  pub insecure : Bool
  pub retry : RetryConfig
  pub timeout : Duration

abbrev pub second : ℕ
second = 1_000_000_000

abbrev pub default_max_body_buffer : Bytes
default_max_body_buffer = codes "10MiB"

abbrev pub default_endpoint : Bytes
default_endpoint = codes "https://localhost:9200"

-- The size of the flag's default, 0 on an error, at which the program panics.
size_or_zero : Result SizeError ℤ → ℤ
size_or_zero (ok n) = n
size_or_zero (err _) = pos 0

unfoldable pub default_retry : RetryConfig
unfolding size_or_zero
default_retry = record {
  max_retries = pos 0;
  strategy = linear;
  initial = pos (2 * second);
  max = pos (30 * second);
  jitter = 0;
  abort_on = [];
  retry_on = [];
  retry_when = [];
  success_when = [];
  max_body_buffer = size_or_zero (parse_size default_max_body_buffer);
}

unfoldable pub defaults : Config
unfolding default_retry
defaults = record {
  endpoint = [];
  username = [];
  password = [];
  ca_cert_path = [];
  insecure = false;
  retry = default_retry;
  timeout = pos 0;
}

-- Defaults does not panic: the default of --max-body-buffer is a size, of ten mebibytes.
default_buffer : default_retry.max_body_buffer ≡ pos (10 * 2 ^ 20)
unfolding default_retry parse_size parse_int unit_bytes scale to_upper
default_buffer = refl

abbrev pub redacted : Bytes
redacted = codes "***"

unfoldable pub redact : Config → Config
redact c = if is_empty c.password then c else record c { password = redacted }

-- `String` and `GoString`, over the two prints of a configuration by the fmt package.
unfoldable pub config_string : (Config → Bytes) → Config → Bytes
config_string print c = print (redact c)

-- A printed configuration is the same whatever the password is, as long as there is one.
config_string-hides :
    (print : Config → Bytes) (c : Config) (p q : Bytes)
    → is_empty p ≡ false
    → is_empty q ≡ false
    → config_string print (record c { password = p })
      ≡ config_string print (record c { password = q })
unfolding config_string redact
config_string-hides print c p q given given2 = rw (given, given2) refl
