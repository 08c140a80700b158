-- ===== src/Cli/Resolve.antt =====
-- internal/cli, from flags to a configuration: resolveConfig and parseQuery of request.go, loadEnv
-- and retryCount of run.go. The jq compiler, `time.ParseDuration`, the env file's parser, the prompt
-- and the terminal test are arguments.
use opensearch_api.Config.Resolve.Precedence.{decided, resolve_precedence}
use opensearch_api.Config.Resolve.{
  Field, PasswordError, ResolveError, Sources, changed, field_endpoint, field_username,
  or_default_endpoint, resolve, resolve_password,
}
use opensearch_api.Config.Env.{EnvLookup, Lookup, env_endpoint, env_username, layered_env}
use opensearch_api.Prelude.{
  >>=-eq-ok, Bool, Bytes, List, Option, Result, [], ap, codes, cut_at, false, format_int,
  from_option, if◌then◌else◌, int_ltb, is_empty, map_err, map_err-eq-ok, negsuc, none, ok,
  ok-injective, pos, refl, some, subst, ℤ, ◌>>=◌, ◌∙◌, ◌∷◌, ◌≡◌,
}
use opensearch_api.Errors.{Err}
use opensearch_api.Json.{Json}
use opensearch_api.Config.Types.{Config, Duration, Float64, RetryConfig}
use opensearch_api.Config.Strategy.{BackoffStrategy, StrategyError, parse_backoff_strategy}
use opensearch_api.Config.Size.{SizeError, parse_size}
use opensearch_api.Retry.Predicate.{Context, Emission, Predicate, compile_predicate}

pub record RetryFlags : Type 0 where
  pub retry : ℤ
  pub backoff : Bytes
  pub backoff_initial : Duration
  pub backoff_max : Duration
  pub backoff_jitter : Float64
  pub abort_on : List ℤ
  pub retry_on : List ℤ
  pub retry_when : Bytes
  pub success_when : Bytes
  pub max_body_buffer : Bytes

pub record Predicates : Type 0 where
  pub retry_when : Option Predicate
  pub success_when : Option Predicate

pub data CliError : Type 0 where
  bad_strategy : StrategyError → CliError
  bad_buffer : SizeError → CliError
  bad_config : ResolveError → CliError
  bad_retry_when bad_success_when : Err → CliError
  bad_password : PasswordError → CliError
  bad_query bad_header : Bytes → CliError

-- The environment of the program's user: the process's, and what the file says if one is named.
unfoldable pub load_env : (Bytes → Result Err Lookup) → EnvLookup → Bytes → Result Err EnvLookup
load_env load_file process env_file =
    if is_empty env_file
    then ok (layered_env (λ key. none) process)
    else do vars ← load_file env_file; ok (layered_env vars process)

-- What resolveConfig is given besides the flags.
pub record Surroundings : Type 0 where
  pub parse_duration : Bytes → Option Duration
  pub compile : Bytes → Result Err (Context → Json → List Emission)
  pub prompt : Option (Result Bytes Bytes)
  pub is_tty : Bool
  pub env : EnvLookup
  pub is_changed : Field → Bool

abbrev pub retry_of : RetryFlags → BackoffStrategy → ℤ → RetryConfig
retry_of rf strategy max_body_buffer = record {
  max_retries = rf.retry;
  strategy = strategy;
  initial = rf.backoff_initial;
  max = rf.backoff_max;
  jitter = rf.backoff_jitter;
  abort_on = rf.abort_on;
  retry_on = rf.retry_on;
  retry_when = rf.retry_when;
  success_when = rf.success_when;
  max_body_buffer = max_body_buffer;
}

abbrev pub sources_of : Surroundings → Config → RetryFlags → BackoffStrategy → ℤ → Sources
sources_of s conn rf strategy max_body_buffer = record {
  flags = record conn { retry = retry_of rf strategy max_body_buffer };
  is_changed = some s.is_changed;
  env = s.env;
}

unfoldable pub resolve_config :
    Surroundings → Config → RetryFlags → Result CliError (Config × Predicates)
resolve_config s conn rf = do
  strategy ← map_err bad_strategy (parse_backoff_strategy rf.backoff)
  max_body_buffer ← map_err bad_buffer (parse_size rf.max_body_buffer)
  cfg ←
      map_err bad_config (resolve s.parse_duration (sources_of s conn rf strategy max_body_buffer))
  retry_when ← map_err bad_retry_when (compile_predicate s.compile cfg.retry.retry_when)
  success_when ← map_err bad_success_when (compile_predicate s.compile cfg.retry.success_when)
  password ← map_err bad_password (resolve_password cfg s.prompt s.is_tty)
  ok (
    record cfg { password = password },
    record { retry_when = retry_when; success_when = success_when },
  )

-- The loop of parseQuery; a pair that is set last goes first.
unfoldable pub parse_query_from :
    List (Bytes × Bytes) → List Bytes → Result CliError (List (Bytes × Bytes))
parse_query_from out [] = ok out
parse_query_from out (p ∷ pairs) =
    from_option (bad_query p) (cut_at b'=' p) >>= λ pair. parse_query_from (pair ∷ out) pairs

unfoldable pub parse_query : List Bytes → Result CliError (List (Bytes × Bytes))
parse_query pairs = parse_query_from [] pairs

unfoldable pub retry_count : ℤ → Bytes
retry_count (pos n) = format_int (pos n)
retry_count (negsuc n) = codes "unlimited"

-- What a resolved command line is made of.
record IsResolved (s : Surroundings) (conn : Config) (rf : RetryFlags) (out : Config × Predicates)
    : Type 0 where
  cfg : Config
  strategy : BackoffStrategy
  buffer : ℤ
  is_strategy : parse_backoff_strategy rf.backoff ≡ ok strategy
  is_buffer : parse_size rf.max_body_buffer ≡ ok buffer
  is_cfg : resolve s.parse_duration (sources_of s conn rf strategy buffer) ≡ ok cfg
  retry_when : compile_predicate s.compile cfg.retry.retry_when ≡ ok out.1.retry_when
  success_when : compile_predicate s.compile cfg.retry.success_when ≡ ok out.1.success_when
  password : resolve_password cfg s.prompt s.is_tty ≡ ok out.0.password
  others : out.0 ≡ record cfg { password = out.0.password }

resolve_config-IsResolved :
    (s : Surroundings) (conn : Config) (rf : RetryFlags) (out : Config × Predicates)
    → resolve_config s conn rf ≡ ok out
    → IsResolved s conn rf out
unfolding resolve_config
resolve_config-IsResolved s conn rf out h =
    let (strategy, h1, r1) =
      >>=-eq-ok (map_err bad_strategy (parse_backoff_strategy rf.backoff)) _ h in
    let (buffer, h2, r2) = >>=-eq-ok (map_err bad_buffer (parse_size rf.max_body_buffer)) _ r1 in
    let (cfg, h3, r3) =
      >>=-eq-ok
        (map_err bad_config (resolve s.parse_duration (sources_of s conn rf strategy buffer))) _
        r2 in
    let (p, h4, r4) =
      >>=-eq-ok (map_err bad_retry_when (compile_predicate s.compile cfg.retry.retry_when)) _ r3 in
    let (q, h5, r5) =
      >>=-eq-ok (map_err bad_success_when (compile_predicate s.compile cfg.retry.success_when)) _
        r4 in
    let (pw, h6, r6) =
      >>=-eq-ok (map_err bad_password (resolve_password cfg s.prompt s.is_tty)) _ r5 in
    subst (IsResolved s conn rf) (ok-injective r6) (record {
      cfg = cfg;
      strategy = strategy;
      buffer = buffer;
      is_strategy = map_err-eq-ok _ _ h1;
      is_buffer = map_err-eq-ok _ _ h2;
      is_cfg = map_err-eq-ok _ _ h3;
      retry_when = map_err-eq-ok _ _ h4;
      success_when = map_err-eq-ok _ _ h5;
      password = map_err-eq-ok _ _ h6;
      others = refl;
    })

-- What a command line means: its flags and the environment decide what the configuration says, and
-- its predicates are the compiled texts of that configuration.
pub record IsMeant (s : Surroundings) (conn : Config) (cfg : Config) (predicates : Predicates)
    : Type 0 where
  pub endpoint :
      cfg.endpoint
      ≡ or_default_endpoint
          (decided (s.is_changed field_endpoint) conn.endpoint (env_endpoint s.env) [])
  pub username :
      cfg.username ≡ decided (s.is_changed field_username) conn.username (env_username s.env) []
  pub timeout_sign : int_ltb cfg.timeout (pos 0) ≡ false
  pub retry_when : compile_predicate s.compile cfg.retry.retry_when ≡ ok predicates.retry_when
  pub success_when : compile_predicate s.compile cfg.retry.success_when ≡ ok predicates.success_when

-- A command line that resolves gives a configuration whose endpoint and user name are those of a flag
-- that was set, else of the environment, else the default, and whose timeout is not negative; with
-- the predicates that the jq compiler makes of the expressions in that same configuration.
pub resolve_config-IsMeant :
    (s : Surroundings) (conn : Config) (rf : RetryFlags) (out : Config × Predicates)
    → resolve_config s conn rf ≡ ok out
    → IsMeant s conn out.0 out.1
unfolding changed
resolve_config-IsMeant s conn rf out h =
    let made = resolve_config-IsResolved s conn rf out h in
    let decides =
      resolve_precedence s.parse_duration (sources_of s conn rf made.strategy made.buffer) made.cfg
        made.is_cfg in
    record {
      endpoint = ap (λ c. c.endpoint) made.others ∙ decides.endpoint;
      username = ap (λ c. c.username) made.others ∙ decides.username;
      timeout_sign = ap (λ c. int_ltb c.timeout (pos 0)) made.others ∙ decides.timeout_sign;
      retry_when =
          ap (λ c. compile_predicate s.compile c.retry.retry_when) made.others ∙ made.retry_when;
      success_when =
          ap (λ c. compile_predicate s.compile c.retry.success_when) made.others
          ∙ made.success_when;
    }
