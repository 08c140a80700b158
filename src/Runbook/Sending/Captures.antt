-- ===== src/Runbook/Sending/Captures.antt =====
-- What the store of a run holds when a call is run.
use opensearch_api.Prelude.{
  Bool, Bool-cases, Bytes, List, Option, Result, all, err, inl, inr, is_empty, is_empty-nil, none,
  ok, refl, some, ℕ, ◌≡◌,
}
use opensearch_api.Errors.{Err}
use opensearch_api.Retry.Body.{Response}
use opensearch_api.Retry.Engine.{Ending, pending, returned}
use opensearch_api.Retry.Attempt.{Round}
use opensearch_api.Runbook.Template.{PathError, ScanError, Store}
use opensearch_api.Runbook.Capture.{Extracted}
use opensearch_api.Runbook.Capture.Laws.{
  IsCaptured, IsExtraction, IsGrown, extract_captures-IsExtraction,
}
use opensearch_api.Runbook.Call.{Call, substitute_call}
use opensearch_api.Osclient.Address.{RequestSpec}
use opensearch_api.Runbook.Outcome.{is_context_err, read_bounded}
use opensearch_api.Runbook.Sending.{
  CallEnd, CallWorld, Runner, build_and_send, call_error, capture_from_response, ended,
  extract_read, path_error_text, report_captured, report_ending, report_outcome, report_success,
  run_call, run_substituted, send, transport_error, waiting,
}

-- What a call promises of the store: nothing is unset, and if it succeeds its captures are set.
abbrev pub IsCallSound : Call → Store → CallEnd → Type 0
IsCallSound call store waiting = Unit
IsCallSound call store (ended error after) =
    IsGrown store after × (error ≡ none → IsCaptured after call.capture)

kept_store :
    (call : Call) (store : Store) (e : Err)
    → IsCallSound call store (ended (call_error call e) store)
kept_store call store e = (λ name h. h, λ fine. cc)

report_captured-IsCallSound :
    (r : Runner) (w : CallWorld) (call : Call) (response : Response) (attempts : ℕ) (read : Bytes)
    (out : Extracted) (store : Store)
    → IsExtraction store call.capture out
    → IsCallSound call store (report_captured r w call response attempts (read, out)).1
unfolding report_captured
report_captured-IsCallSound r w call response attempts read (ok _, after) store (grown, all) =
    (grown, λ _. all refl)
report_captured-IsCallSound r w call response attempts read (err e, after) store (grown, all) =
    elim (Bool-cases (is_context_err w.ctx_at_capture_error e)) [
      | inl stopped ↦ rw stopped (grown, λ fine. cc)
      | inr lasting ↦ rw lasting (grown, λ fine. cc)
    ]

extract_read-IsExtraction :
    (r : Runner) (w : CallWorld) (call : Call) (store : Store) (read : Bytes × (Bool × Option Err))
    → IsExtraction store call.capture (extract_read r w call store read).1
unfolding extract_read
extract_read-IsExtraction r w call store (read, (truncated, some why)) = (λ name h. h, λ fine. cc)
extract_read-IsExtraction r w call store (read, (truncated, none)) =
    extract_captures-IsExtraction r.floats r.decode w.ctx_at_capture call.capture read truncated
      call.retry.max_body_buffer store

report_success-IsCallSound :
    (r : Runner) (w : CallWorld) (call : Call) (response : Response) (attempts : ℕ) (store : Store)
    → IsCallSound call store (report_success r w call response attempts store).1
unfolding report_success capture_from_response
report_success-IsCallSound r w call response attempts store =
    elim (Bool-cases (is_empty call.capture)) [
      | inl empty ↦ rw empty (λ name h. h, λ _. rw (is_empty-nil call.capture empty) tt)
      | inr some_capture ↦
          let out = capture_from_response r w call response store in
          rw some_capture (
            report_captured-IsCallSound r w call response attempts out.0 out.1 store (
              extract_read-IsExtraction r w call store
                (read_bounded response.body call.retry.max_body_buffer)))
    ]

report_outcome-IsCallSound :
    (r : Runner) (w : CallWorld) (call : Call) (response : Option Response) (error : Option Err)
    (n : ℕ) (transport : Option Err) (store : Store)
    → IsCallSound call store (report_outcome r w call response error n transport store).1
unfolding report_outcome
report_outcome-IsCallSound r w call (some response) none n transport store =
    report_success-IsCallSound r w call response n store
report_outcome-IsCallSound r w call none none n transport store = tt
report_outcome-IsCallSound r w call response (some e) n transport store =
    elim (Bool-cases (is_context_err w.ctx_at_outcome e)) [
      | inl stopped ↦ rw stopped (kept_store call store e)
      | inr lasting ↦ rw lasting (kept_store call store e)
    ]

report_ending-IsCallSound :
    (r : Runner) (w : CallWorld) (call : Call) (rounds : List Round) (store : Store)
    (ending : Ending)
    → IsCallSound call store (report_ending r w call rounds store ending).1
unfolding report_ending
report_ending-IsCallSound r w call rounds store (returned n response error) =
    report_outcome-IsCallSound r w call response error n (transport_error n rounds) store
report_ending-IsCallSound r w call rounds store pending = tt

build_and_send-IsCallSound :
    (r : Runner) (w : CallWorld) (call : Call) (store : Store) (spec : RequestSpec)
    (failure : Option Err)
    → IsCallSound call store (build_and_send r w call store spec failure).1
unfolding build_and_send send
build_and_send-IsCallSound r w call store spec (some why) = kept_store call store _
build_and_send-IsCallSound r w call store spec none =
    report_ending-IsCallSound r w call (w.answers spec) store _

run_substituted-IsCallSound :
    (r : Runner) (w : CallWorld) (call : Call) (store : Store)
    (spec : Result (ScanError PathError) RequestSpec)
    → IsCallSound call store (run_substituted r w call store spec).1
unfolding run_substituted
run_substituted-IsCallSound r w call store (err e) = kept_store call store (path_error_text e)
run_substituted-IsCallSound r w call store (ok spec) =
    build_and_send-IsCallSound r w call store spec (w.build spec)

-- A call never unsets a value of the store, also when it fails, and a call that succeeds has set
-- every one of its captures.
pub run_call-IsCallSound :
    (r : Runner) (w : CallWorld) (call : Call) (store : Store)
    → IsCallSound call store (run_call r w call store).1
unfolding run_call
run_call-IsCallSound r w call store =
    run_substituted-IsCallSound r w call store (substitute_call call store)
