-- ===== src/Runbook/Run/Tests.antt =====
-- A runbook of two calls: the first captures a name that the second has in its path.
use opensearch_api.Retry.Classify.{by_status, classify, contains_status, has_predicates, is_2xx}
use opensearch_api.Retry.Body.{Response, is_unlimited}
use opensearch_api.Retry.Engine.{
  act, context_of, decide, do_attempts, judge, on_context, proceed, returned, run_from, turn,
}
use opensearch_api.Retry.Attempt.{Round, receive, receive_response, responded}
use opensearch_api.Runbook.Template.{
  Declared, Store, check_refs, check_segments, next, open_reference, scan, scan_template,
  scan_token, substitute_path,
}
use opensearch_api.Runbook.Call.{Call, declare, register, register_all, substitute_call}
use opensearch_api.Runbook.Outcome.{read_bounded}
use opensearch_api.Runbook.Capture.{
  Capture, captured, decode_capture_body, extract_captures, extract_decoded, extract_each,
  first_value, render_scalar, run_capture, store_set, string_value,
}
use opensearch_api.Runbook.Run.{empty_store, run}
use opensearch_api.Runbook.Sending.{
  CallWorld, Runner, build_and_send, capture_from_response, ended, extract_read, log_captures,
  report_captured, report_ending, report_outcome, report_success, run_call, run_substituted, send,
}
use opensearch_api.Runbook.Run.Course.{Course, run-Course}
use opensearch_api.Prelude.{
  Bytes, List, [], arith, codes, cut_at, false, none, ok, pos, refl, some, true, ℕ, ◌∷◌, ◌≡◌,
}
use opensearch_api.Json.{null}
use opensearch_api.Config.Types.{RetryConfig}
use opensearch_api.Config.Strategy.{linear}
use opensearch_api.Retry.Backoff.{FloatOps}
use opensearch_api.Runbook.Run.Total.{IsRunEnded, run-IsRunEnded}
use opensearch_api.Runbook.Run.Counts.{IsAccounted, run-IsAccounted}
use opensearch_api.Runbook.Sending.Closing.{closings, closings-report_ending}
use opensearch_api.Runbook.Sending.Captures.{IsCallSound, run_call-IsCallSound}
use opensearch_api.Runbook.Run.Reached.{Reached, nothing_declared, passed, start}

-- No arithmetic is met here.
abbrev pub no_floats : FloatOps
no_floats = record {
  lt = λ a b. false;
  le = λ a b. true;
  add = λ a b. a;
  sub = λ a b. a;
  mul = λ a b. a;
  zero_f = 0;
  one_f = 0;
  two_f = 0;
  max_jitter_fraction = 0;
  of_int = λ d. 0;
  to_int = λ v. pos 0;
}

abbrev pub runner : Runner
runner = record {
  verbose = false;
  float_ops = no_floats;
  floats = record { format_float = λ f. []; parse_float = λ s. none };
  unmarshal = λ body. ok null;
  decode = λ body. ok null;
}

abbrev pub once : RetryConfig
once = record {
  max_retries = pos 0;
  strategy = linear;
  initial = pos 0;
  max = pos 0;
  jitter = 0;
  abort_on = [];
  retry_on = [];
  retry_when = [];
  success_when = [];
  max_body_buffer = pos 10;
}

abbrev pub index_capture : Capture
index_capture = record {
  name = codes "index";
  expr = codes ".index";
  code = λ c input. captured (string_value (codes "logs-1")) ∷ [];
}

abbrev pub call_of : Bytes → Bytes → List Capture → Call
call_of name path captures = record {
  name = name;
  method = codes "GET";
  path = path;
  body = [];
  has_body = false;
  query = [];
  headers = [];
  retry = once;
  retry_when = none;
  success_when = none;
  continue_on_failure = false;
  capture = captures;
}

abbrev pub create : Call
create = call_of (codes "create") (codes "/new") (index_capture ∷ [])

abbrev pub fetch : Call
fetch = call_of (codes "fetch") (codes "/${index}") []

abbrev pub good_response : Response
good_response = record { status = 200; body = record { unread = codes "{}"; failure = none } }

abbrev pub good_round : Round
good_round = record {
  attempted = responded good_response;
  ctx_at_error = none;
  ctx_at_predicates = record { at_retry_when = none; at_success_when = none };
  ctx_before_retry = none;
  jitter_sample = none;
  slept = none;
}

abbrev pub world : ℕ → CallWorld
world i = record {
  build = λ spec. none;
  answers = λ spec. good_round ∷ [];
  ctx_at_outcome = none;
  ctx_at_capture = λ k. none;
  ctx_at_capture_error = none;
  ctx_at_run = none;
}

abbrev pub after_create : Store
after_create = store_set (codes "index") (codes "logs-1") empty_store

pub creates : (run_call runner (world 0) create empty_store).1 ≡ ended none after_create
unfolding run_call run_substituted substitute_call substitute_path check_segments scan_template
    build_and_send send report_ending do_attempts run_from proceed turn on_context context_of
    receive receive_response has_predicates judge classify contains_status is_2xx by_status decide
    act report_outcome report_success capture_from_response extract_read read_bounded is_unlimited
    extract_captures extract_decoded decode_capture_body extract_each run_capture first_value
    render_scalar report_captured log_captures
creates = refl

run-IsAccounted_example : IsAccounted 2 (run runner world (create ∷ fetch ∷ [])).1
run-IsAccounted_example = run-IsAccounted runner world (create ∷ fetch ∷ [])

run_call-IsCallSound_example :
    IsCallSound create empty_store (run_call runner (world 0) create empty_store).1
run_call-IsCallSound_example = run_call-IsCallSound runner (world 0) create empty_store

closings-report_ending_example :
    closings
      (report_ending runner
        (world 0)
        create
        (good_round ∷ [])
        empty_store
        (returned 1 (some good_response) none)).0
    ≡ 1
closings-report_ending_example =
    closings-report_ending runner (world 0) create (good_round ∷ []) empty_store
      (returned 1 (some good_response) none)

abbrev pub create_is_reached : Reached runner world (create ∷ []) 1 0 after_create
create_is_reached = passed [] 0 0 empty_store after_create create start creates

run-Course_example :
    Course
      (λ store call. Unit {0})
      runner
      world
      []
      (create ∷ fetch ∷ [])
      0
      0
      empty_store
      (run runner world (create ∷ fetch ∷ []))
run-Course_example = run-Course runner world (create ∷ fetch ∷ [])

abbrev index_declared : Declared
index_declared =
    declare (codes "index") (record { call_name = codes "create"; continue_on_failure = false })
      nothing_declared

registers : register_all (create ∷ []) nothing_declared ≡ ok index_declared
unfolding register_all register
registers = refl

path_checks : check_refs (codes "/${index}") index_declared ≡ none
unfolding check_refs scan_template scan scan_token next open_reference cut_at
path_checks = refl

run-IsRunEnded_example : IsRunEnded (run runner world (create ∷ fetch ∷ [])).1
run-IsRunEnded_example =
    run-IsRunEnded runner world (create ∷ fetch ∷ [])
      ((0, refl, λ spec. omega arith), ((0, refl, λ spec. omega arith), tt))
