-- ===== src/Cli/Request/Tests.antt =====
-- A request of the command line, on a server that answers at once.
use opensearch_api.Config.Env.{
  env_endpoint, env_password, env_timeout, env_username, layered_env, load_env_file, lookup_env,
  non_empty,
}
use opensearch_api.Cli.Resolve.{
  Surroundings, load_env, parse_query, parse_query_from, resolve_config,
}
use opensearch_api.Osclient.Address.{
  RequestSpec, cut_scheme, drop_userinfo, override_headers, read_body, request_headers, request_url,
  span_until, strip_userinfo, trim_left_slashes, trim_right_slashes,
}
use opensearch_api.Cli.Request.{
  Prepared, RequestFlags, RequestWorld, client_options, prepare_request, run_request, spec_of,
}
use opensearch_api.Prelude.{
  [], arith, codes, cut_at, err, false, none, ok, pos, refl, some, to_lower, to_upper, true, ◌↔◌,
  ◌∷◌, ◌≡◌,
}
use opensearch_api.Config.Strategy.{parse_backoff_strategy}
use opensearch_api.Config.Size.{parse_int, parse_size, scale, unit_bytes}
use opensearch_api.Config.Types.{default_retry, defaults}
use opensearch_api.Config.Resolve.{
  apply_env, apply_flags, changed, finish, or_default_endpoint, resolve, resolve_password,
  resolve_password_source,
}
use opensearch_api.Retry.Predicate.{compile_predicate}
use opensearch_api.Cli.Flags.{parse_headers, parse_headers_from}
use opensearch_api.Osclient.Client.{
  build_tls_config, effective_port, new_client, origin_of, parse_origin, system_roots,
}
use opensearch_api.Osclient.Request.{UrlLib, Values, build_request, with_query}
use opensearch_api.Errors.{Err, other}
use opensearch_api.Retry.Body.{Response}
use opensearch_api.Retry.Backoff.{FloatOps}
use opensearch_api.Retry.Attempt.{Round, responded}
use opensearch_api.Cli.Request.Success.{IsSent, run_request-Ends, run_request-IsSent-iff}
use opensearch_api.Cli.Request.Answered.{IsOver, command_exit}

abbrev pub some_error : Err
some_error = other (codes "no")

abbrev pub no_floats : FloatOps
no_floats = record {
  lt = λ a b. false;
  le = λ a b. true;
  add = λ a b. 0;
  sub = λ a b. 0;
  mul = λ a b. 0;
  zero_f = 0;
  one_f = 0;
  two_f = 0;
  max_jitter_fraction = 0;
  of_int = λ d. 0;
  to_int = λ v. pos 0;
}

abbrev pub health : Response
health = record { status = 200; body = record { unread = codes "green"; failure = none } }

abbrev pub answered : Round
answered = record {
  attempted = responded health;
  ctx_at_error = none;
  ctx_at_predicates = record { at_retry_when = none; at_success_when = none };
  ctx_before_retry = none;
  jitter_sample = none;
  slept = none;
}

abbrev pub plain_urls : UrlLib Values
plain_urls = record {
  parse = λ text. ok (record { base = text; raw_query = [] });
  redacted = λ u. u.base;
  parse_query = λ raw. raw;
  encode = λ values. values;
  new_request = λ method u. ok u;
}

abbrev pub world : RequestWorld Values
world = record {
  surroundings = record {
    parse_duration = λ text. none;
    compile = λ text. err some_error;
    prompt = none;
    is_tty = false;
    env = none;
    is_changed = λ field. false;
  };
  process_env = none;
  parse_env = λ text. none;
  read_file = λ path. err some_error;
  stdin = none;
  parse_url = λ text.
      some (record { scheme = codes "https"; hostname = codes "localhost"; port = codes "9200" });
  read_pem = λ path. none;
  url = plain_urls;
  unmarshal = λ text. err some_error;
  floats = no_floats;
  print = λ d. [];
  tables = record { paths = []; bodies = λ key. none; marshal = λ name. name };
  stdout = λ text. (text, none);
  answers = λ client timeout request. answered ∷ [];
  ctx_at_end = none;
}

abbrev pub request_flags : RequestFlags
request_flags = record {
  conn = defaults;
  retry = record {
    retry = pos 0;
    backoff = codes "linear";
    backoff_initial = pos 2_000_000_000;
    backoff_max = pos 30_000_000_000;
    backoff_jitter = 0;
    abort_on = [];
    retry_on = [];
    retry_when = [];
    success_when = [];
    max_body_buffer = codes "10MiB";
  };
  env_file = [];
  verbose = false;
  method = codes "GET";
  path = codes "_cluster/health";
  body = [];
  body_skeleton = false;
  query = [];
  header = [];
}

abbrev pub prepared : Prepared Values
prepared = record {
  cfg = record defaults { endpoint = codes "https://localhost:9200" };
  preds = record { retry_when = none; success_when = none };
  client = record {
    trust = system_roots;
    username = [];
    password = [];
    origin = record { scheme = codes "https"; host = codes "localhost"; port = codes "9200" };
  };
  request = record {
    method = codes "GET";
    url = record { base = codes "https://localhost:9200/_cluster/health"; raw_query = [] };
    body = none;
    headers = [];
  };
}

loads :
    load_env
      (load_env_file world.read_file world.parse_env)
      world.process_env
      request_flags.env_file
    ≡ ok (layered_env (λ key. none) none)
unfolding load_env
loads = refl

abbrev pub surroundings : Surroundings
surroundings = record world.surroundings { env = layered_env (λ key. none) none }

resolves :
    resolve_config surroundings request_flags.conn request_flags.retry
    ≡ ok (prepared.cfg, prepared.preds)
unfolding resolve_config parse_backoff_strategy to_lower parse_size parse_int unit_bytes scale
    to_upper resolve apply_env env_timeout lookup_env layered_env non_empty env_endpoint
    env_username env_password finish apply_flags or_default_endpoint resolve_password_source
    defaults default_retry compile_predicate resolve_password changed
resolves = refl

connects :
    new_client world.parse_url world.read_pem (client_options prepared.cfg) ≡ ok prepared.client
unfolding client_options new_client parse_origin origin_of effective_port build_tls_config to_lower
    defaults
connects = refl

abbrev pub spec : RequestSpec
spec = spec_of request_flags ([], false) [] []

builds : build_request world.url prepared.cfg.endpoint spec ≡ ok prepared.request
unfolding build_request with_query request_url request_headers override_headers strip_userinfo
    cut_scheme drop_userinfo span_until trim_left_slashes trim_right_slashes cut_at
builds = refl

prepares : prepare_request world request_flags ≡ ok prepared
unfolding prepare_request read_body parse_query parse_headers parse_query_from parse_headers_from
prepares = rw (loads, resolves, connects, builds) refl

run_request-IsSent-iff_example :
    (command_exit (run_request world request_flags) ≡ some 0) ↔ IsSent world request_flags
run_request-IsSent-iff_example = run_request-IsSent-iff world request_flags refl

run_request-Ends_example : IsOver 1 (run_request world request_flags)
unfolding defaults
run_request-Ends_example =
    run_request-Ends world request_flags prepared 0 refl prepares refl (omega arith)
