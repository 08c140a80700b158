-- ===== src/Cli/Request.antt =====
-- internal/cli/request.go, runRequest: the command that sends one request. The file system, the
-- terminal, the url package, the server with the clock, and stdout are arguments.

pub mod Answered
pub mod Success
pub mod Tests
use opensearch_api.Config.Env.{EnvLookup, Lookup, load_env_file}
use opensearch_api.Prelude.{
  Bool, Bytes, List, Option, Result, [], err, if◌then◌else◌, is_some, map_err, none, ok, some, true,
  ◌>>=◌, ◌>>◌,
}
use opensearch_api.Errors.{Err}
use opensearch_api.Config.Types.{Config, Duration}
use opensearch_api.Osclient.Address.{Headers, RequestSpec, read_body}
use opensearch_api.Osclient.Request.{HttpRequest, UrlLib, build_request}
use opensearch_api.Osclient.Client.{AuthTransport, ClientError, Options, Url, new_client}
use opensearch_api.Retry.Backoff.{FloatOps}
use opensearch_api.Retry.Body.{Response}
use opensearch_api.Retry.Predicate.{Context}
use opensearch_api.Retry.Classify.{Engine}
use opensearch_api.Retry.Attempt.{Event, Round, Traced}
use opensearch_api.Retry.Engine.{Ending, do_attempts, pending, returned}
use opensearch_api.Json.{Json}
use opensearch_api.Cli.Exit.{copy_body}
use opensearch_api.Cli.Flags.{parse_headers}
use opensearch_api.Cli.Output.{ApiTables, Printed, Writer, print_body_skeleton}
use opensearch_api.Cli.Resolve.{
  CliError, Predicates, RetryFlags, Surroundings, load_env, parse_query, resolve_config,
}

-- `conn` is what connFlags.config gives, a configuration whose other fields are not read.
pub record RequestFlags : Type 0 where
  pub conn : Config
  pub retry : RetryFlags
  pub env_file : Bytes
  pub verbose : Bool
  pub method : Bytes
  pub path : Bytes
  pub body : Bytes
  pub body_skeleton : Bool
  pub query : List Bytes
  pub header : List Bytes

-- `answers` is what happens to each attempt of a request that a client sends within a timeout, and
-- `ctx_at_end` is the context behind the last.
pub record RequestWorld (Q : Type 0) : Type 0 where
  pub surroundings : Surroundings
  pub process_env : EnvLookup
  pub parse_env : Bytes → Option Lookup
  pub read_file : Bytes → Result Err Bytes
  pub stdin : Option (Result Err Bytes)
  pub parse_url : Bytes → Option Url
  pub read_pem : Bytes → Option Bytes
  pub url : UrlLib Q
  pub unmarshal : Bytes → Result Err Json
  pub floats : FloatOps
  pub print : Duration → Bytes
  pub tables : ApiTables
  pub stdout : Writer
  pub answers : AuthTransport → Duration → HttpRequest Q → List Round
  pub ctx_at_end : Context

-- Why a command stops before it sends anything.
pub data Refusal : Type 0 where
  no_env no_body not_built : Err → Refusal
  bad_flags : CliError → Refusal
  no_client : ClientError → Refusal

-- What the engine is started with.
pub record Prepared (Q : Type 0) : Type 0 where
  pub cfg : Config
  pub preds : Predicates
  pub client : AuthTransport
  pub request : HttpRequest Q

-- `newClient`
unfoldable pub client_options : Config → Options
client_options cfg = record {
  endpoint = cfg.endpoint;
  username = cfg.username;
  password = cfg.password;
  ca_cert_path = cfg.ca_cert_path;
  insecure = cfg.insecure;
  has_warn = true;
}

abbrev pub spec_of : RequestFlags → Bytes × Bool → List (Bytes × Bytes) → Headers → RequestSpec
spec_of f body query headers = record {
  method = f.method;
  path = f.path;
  body = body.0;
  has_body = body.1;
  query = query;
  headers = headers;
}

-- How a command ends: it was refused, it printed something and returned, or the answers at hand
-- are used up and it still runs.
pub data Ended : Type 0 where
  refused : Refusal → Ended
  ended : List Event → Printed → Ended
  running : List Event → Ended

-- `io.Copy`: an error of the writer ends it, and one of the reader comes behind all bytes.
abbrev pub copied_or : Option Err → Bytes × Option Err → Bytes × Option Err
copied_or failure (out, some e) = (out, some e)
copied_or failure (out, none) = (out, failure)

module _ {Q : Type 0} (w : RequestWorld Q) where
  -- `runRequest` up to the engine.
  unfoldable pub prepare_request : RequestFlags → Result Refusal (Prepared Q)
  prepare_request f = do
    env ← map_err no_env (load_env (load_env_file w.read_file w.parse_env) w.process_env f.env_file)
    resolved ←
        map_err bad_flags (resolve_config (record w.surroundings { env = env }) f.conn f.retry)
    client ← map_err no_client (new_client w.parse_url w.read_pem (client_options resolved.0))
    body ← map_err no_body (read_body w.stdin w.read_file f.body)
    query ← map_err bad_flags (parse_query f.query)
    headers ← map_err bad_flags (parse_headers f.header)
    request ←
        map_err not_built (build_request w.url resolved.0.endpoint (spec_of f body query headers))
    ok (record { cfg = resolved.0; preds = resolved.1; client = client; request = request })

  -- The engine of `doWithRetry`.
  unfoldable pub engine_of : Bool → Config → Predicates → Engine
  engine_of verbose cfg preds = record {
    cfg = cfg.retry;
    retry_when = preds.retry_when;
    success_when = preds.success_when;
    has_hook = verbose;
    unmarshal = w.unmarshal;
  }

  -- `doWithRetry`, on what happens to each attempt.
  unfoldable pub do_with_retry : Bool → Config → Predicates → List Round → Traced Ending
  do_with_retry verbose cfg preds rounds = do_attempts w.floats (engine_of verbose cfg preds) rounds

  unfoldable pub copy_to_stdout : Option Response → Bytes × Option Err
  copy_to_stdout none = ([], none)
  copy_to_stdout (some r) = copied_or r.body.failure (w.stdout r.body.unread)

  -- `streamBody` on what the engine returned.
  unfoldable pub stream_body : Duration → Traced Ending → Ended
  stream_body timeout (events, pending) = running events
  stream_body timeout (events, returned n response error) =
      let copied = copy_to_stdout response in
      ended events (record {
        out = copied.0;
        errw = [];
        error = copy_body w.print w.ctx_at_end timeout (is_some response) copied.1 error;
      })

  abbrev pub send_prepared : RequestFlags → Result Refusal (Prepared Q) → Ended
  send_prepared f (err why) = refused why
  send_prepared f (ok p) =
      stream_body p.cfg.timeout
        (do_with_retry f.verbose p.cfg p.preds (w.answers p.client p.cfg.timeout p.request))

  -- `runRequest`
  unfoldable pub run_request : RequestFlags → Ended
  run_request f =
      if f.body_skeleton
      then ended [] (print_body_skeleton w.tables w.stdout f.path f.method)
      else send_prepared f (prepare_request f)
