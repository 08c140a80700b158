-- ===== src/Runbook/Sending.antt =====
-- internal/runbook/run.go, Runner.runCall: one call under the retry engine, what is reported of it,
-- and the captures that it stores.
pub mod Closing
pub mod Captures
use opensearch_api.Prelude.{
  Bool, Bytes, List, Option, Result, [], codes, decimal, err, if◌then◌else◌, is_empty, is_one_of,
  leb, map, none, ok, quoted, some, split_on, ℕ, ◌++◌, ◌-◌, ◌∷◌,
}
use opensearch_api.Errors.{Err, other, wrap}
use opensearch_api.Json.{Json}
use opensearch_api.Retry.Predicate.{Context, failed}
use opensearch_api.Retry.Body.{Response}
use opensearch_api.Retry.Backoff.{FloatOps}
use opensearch_api.Retry.Classify.{Engine}
use opensearch_api.Retry.Engine.{Ending, do_attempts, pending, returned}
use opensearch_api.Retry.Attempt.{Attempted, Round, attempted, failed, failed_with, responded}
use opensearch_api.Runbook.Template.{
  PathError, ScanError, Store, dot_segment, forbidden_byte, is_dot_segment, path_bytes, store_get,
  unresolved, unterminated, unterminated_at,
}
use opensearch_api.Runbook.Capture.{Extracted, FloatText, extract_captures}
use opensearch_api.Runbook.Call.{Call, substitute_call}
use opensearch_api.Osclient.Address.{RequestSpec}
use opensearch_api.Runbook.Outcome.{
  Report, body_closed, capture_failed, captured_value, drain_discard, echo_body, engine_event,
  failed_status, failed_unanswered, failure_detail, indented, is_context_err, not_sent,
  read_bounded, succeeded, transport_failed,
}

-- What a runner has: its flag, and the third-party and library functions that its calls use. The
-- decoder reads the first document of a text, and `unmarshal` the whole of it.
pub record Runner : Type 0 where
  pub verbose : Bool
  pub float_ops : FloatOps
  pub floats : FloatText
  pub unmarshal : Bytes → Result Err Json
  pub decode : Bytes → Result Err Json

-- What the world answers to one call: whether the request can be built, the rounds of the engine,
-- and the context at each place where the runner looks at it.
pub record CallWorld : Type 0 where
  pub build : RequestSpec → Option Err
  pub answers : RequestSpec → List Round
  pub ctx_at_outcome : Context
  pub ctx_at_capture : ℕ → Context
  pub ctx_at_capture_error : Context
  pub ctx_at_run : Context

abbrev pub Reported : Type 0 → Type 0
Reported A = List Report × A

abbrev pub reported_then : {A : Type 0} → List Report → Reported A → Reported A
reported_then reports (more, a) = (reports ++ more, a)

-- A call has ended, with its error and the store that it leaves, or its rounds are used up.
pub data CallEnd : Type 0 where
  ended : Option Err → Store → CallEnd
  waiting : CallEnd

abbrev pub call_error : Call → Err → Option Err
call_error call e = some (wrap (codes "call " ++ quoted call.name ++ codes ": ") e [])

abbrev pub engine_of : Runner → Call → Engine
engine_of r call = record {
  cfg = call.retry;
  retry_when = call.retry_when;
  success_when = call.success_when;
  has_hook = r.verbose;
  unmarshal = r.unmarshal;
}

abbrev pub raw_error : Attempted → Option Err
raw_error (responded r) = none
raw_error (failed e) = some e
raw_error (failed_with r e) = some e

-- The error of attempt `n`, which is the last: the variable `transportErr`.
abbrev pub transport_error : ℕ → List Round → Option Err
transport_error n [] = none
transport_error n (round ∷ rounds) =
    let rest = transport_error (n - 1) rounds in if leb n 1 then raw_error round.attempted else rest

-- `captureFromResponse` after the extraction: the values are logged if it succeeded.
unfoldable pub log_captures : Runner → Call → Store → List Report
log_captures r call store =
    if r.verbose then map (λ c. captured_value c.name (store_get store c.name)) call.capture else []

-- The extraction out of what was read, with those bytes.
unfoldable pub extract_read :
    Runner → CallWorld → Call → Store → Bytes × (Bool × Option Err) → Bytes × Extracted
extract_read r w call store (read, (truncated, some why)) =
    ([], (err (wrap (codes "reading response body: ") why []), store))
extract_read r w call store (read, (truncated, none)) = (
  read,
  extract_captures r.floats r.decode w.ctx_at_capture call.capture read truncated
      call.retry.max_body_buffer store,
)

-- `captureFromResponse`, with the bytes that it read where it fails behind the read.
unfoldable pub capture_from_response :
    Runner → CallWorld → Call → Response → Store → Bytes × Extracted
capture_from_response r w call response store =
    extract_read r w call store (read_bounded response.body call.retry.max_body_buffer)

-- The end of `reportSuccess` behind an extraction.
unfoldable pub report_captured :
    Runner → CallWorld → Call → Response → ℕ → Bytes × Extracted → Reported CallEnd
report_captured r w call response attempts (read, (ok _, store)) = (
  log_captures r call store ++ (succeeded call.name response.status attempts ∷ []),
  ended none store,
)
report_captured r w call response attempts (read, (err e, store)) =
    if is_context_err w.ctx_at_capture_error e then ([], ended (call_error call e) store) else (
      capture_failed call.name response.status attempts call.continue_on_failure e
          ∷ indented read
          ∷ [],
      ended (call_error call e) store,
    )

-- `reportSuccess`; a response is there.
unfoldable pub report_success : Runner → CallWorld → Call → Response → ℕ → Store → Reported CallEnd
report_success r w call response attempts store =
    if is_empty call.capture
    then (
      drain_discard (some response) ++ (succeeded call.name response.status attempts ∷ []),
      ended none store,
    )
    else reported_then (body_closed ∷ [])
        (report_captured r w call response attempts (capture_from_response r w call response store))

-- `writeFailure`
unfoldable pub write_failure : Call → Option Response → Err → ℕ → Option Err → List Report
write_failure call none e attempts (some why) =
    transport_failed call.name attempts call.continue_on_failure why ∷ []
write_failure call none e attempts none =
    failed_unanswered call.name (failure_detail e) attempts call.continue_on_failure ∷ []
write_failure call (some response) e attempts transport =
    failed_status call.name response.status (failure_detail e) attempts call.continue_on_failure
    ∷ echo_body response call.retry.max_body_buffer

-- `reportOutcome`. Without an error there is a response; where there is none the program panics,
-- and the model is stuck.
unfoldable pub report_outcome :
    Runner
    → CallWorld
    → Call
    → Option Response
    → Option Err
    → ℕ
    → Option Err
    → Store
    → Reported CallEnd
report_outcome r w call (some response) none attempts transport store =
    report_success r w call response attempts store
report_outcome r w call none none attempts transport store = ([], waiting)
report_outcome r w call response (some e) attempts transport store =
    if is_context_err w.ctx_at_outcome e
    then (drain_discard response, ended (call_error call e) store)
    else (write_failure call response e attempts transport, ended (call_error call e) store)

-- What follows from the engine's ending.
unfoldable pub report_ending :
    Runner → CallWorld → Call → List Round → Store → Ending → Reported CallEnd
report_ending r w call rounds store (returned n response error) =
    report_outcome r w call response error n (transport_error n rounds) store
report_ending r w call rounds store pending = ([], waiting)

unfoldable pub send : Runner → CallWorld → Call → Store → RequestSpec → Reported CallEnd
send r w call store spec =
    let (events, ending) = do_attempts r.float_ops (engine_of r call) (w.answers spec) in
    reported_then (map engine_event events) (report_ending r w call (w.answers spec) store ending)

abbrev pub refuse : Call → Err → Err → Store → Reported CallEnd
refuse call shown e store =
    (not_sent call.name call.continue_on_failure shown ∷ [], ended (call_error call e) store)

-- The request that a call's specification builds, if it does.
unfoldable pub build_and_send :
    Runner → CallWorld → Call → Store → RequestSpec → Option Err → Reported CallEnd
build_and_send r w call store spec (some why) =
    refuse call why (wrap (codes "building request: ") why []) store
build_and_send r w call store spec none = send r w call store spec

-- The first byte of a value that may not come into a path, as a text.
abbrev pub first_unsafe : Bytes → Bytes
first_unsafe [] = []
first_unsafe (c ∷ s) = let rest = first_unsafe s in if is_one_of path_bytes c then c ∷ [] else rest

abbrev pub first_dot_segment : List Bytes → Bytes
first_dot_segment [] = []
first_dot_segment (seg ∷ segs) =
    let rest = first_dot_segment segs in if is_dot_segment seg then seg else rest

-- The text of an error of substitutePath.
abbrev pub path_error_text : ScanError PathError → Err
path_error_text (unterminated_at i) =
    other (codes "unterminated " ++ quoted (codes "${") ++ codes " starting at byte " ++ decimal i)
path_error_text (unresolved (forbidden_byte name value)) = other (
    codes "capture ${"
    ++ name
    ++ codes "} = "
    ++ quoted value
    ++ codes " cannot be substituted into path: contains "
    ++ quoted (first_unsafe value))
path_error_text (unresolved (dot_segment out)) = other (
    codes "substituted path "
    ++ quoted out
    ++ codes " contains a "
    ++ quoted (first_dot_segment (split_on b'/' out))
    ++ codes " segment")

-- `runCall` behind the substitution.
unfoldable pub run_substituted :
    Runner → CallWorld → Call → Store → Result (ScanError PathError) RequestSpec → Reported CallEnd
run_substituted r w call store (err e) = refuse call (path_error_text e) (path_error_text e) store
run_substituted r w call store (ok spec) = build_and_send r w call store spec (w.build spec)

unfoldable pub run_call : Runner → CallWorld → Call → Store → Reported CallEnd
run_call r w call store = run_substituted r w call store (substitute_call call store)
