-- ===== src/Runbook/Sending/Closing.antt =====
-- Who closes the response that the engine gives to a runner.
use opensearch_api.Prelude.{
  Bool, Bool-cases, Bytes, List, Option, [], arith, err, false, inl, inr, is_empty, map, none, ok,
  refl, some, true, ℕ, ℤ, ◌++◌, ◌+◌, ◌∙◌, ◌∷◌, ◌≡◌,
}
use opensearch_api.Errors.{Err}
use opensearch_api.Retry.Body.{Response}
use opensearch_api.Retry.Engine.{Ending, pending, returned}
use opensearch_api.Retry.Attempt.{Round}
use opensearch_api.Runbook.Template.{Store, store_get}
use opensearch_api.Runbook.Capture.{Capture, Extracted}
use opensearch_api.Runbook.Call.{Call}
use opensearch_api.Runbook.Outcome.{
  Report, body_closed, captured_value, drain_discard, echo_body, echo_end, is_context_err,
  read_bounded,
}
use opensearch_api.Runbook.Sending.{
  CallWorld, Runner, capture_from_response, log_captures, report_captured, report_ending,
  report_outcome, report_success, transport_error, write_failure,
}

abbrev pub is_closing : Report → ℕ
is_closing body_closed = 1
is_closing _ = 0

-- How often reports close the body of the response.
abbrev pub closings : List Report → ℕ
closings [] = 0
closings (report ∷ reports) = is_closing report + closings reports

-- The responses that an ending gives to the runner.
abbrev pub given : Ending → ℕ
given (returned n none error) = 0
given (returned n (some response) error) = 1
given pending = 0

closings-append : (xs ys : List Report) → closings (xs ++ ys) ≡ closings xs + closings ys
closings-append [] ys = omega arith
closings-append (x ∷ xs) ys = omega (arith, closings-append xs ys)

closings-echo_end :
    (max_buffer : ℤ) (ending : Bool × Option Err) → closings (echo_end max_buffer ending) ≡ 0
unfolding echo_end
closings-echo_end max_buffer (truncated, some why) = refl
closings-echo_end max_buffer (true, none) = refl
closings-echo_end max_buffer (false, none) = refl

closings-echo_body : (r : Response) (max_buffer : ℤ) → closings (echo_body r max_buffer) ≡ 1
unfolding echo_body
closings-echo_body r max_buffer =
    omega (arith, closings-echo_end max_buffer (read_bounded r.body max_buffer).1)

closings-map :
    (captures : List Capture) (store : Store)
    → closings (map (λ c. captured_value c.name (store_get store c.name)) captures) ≡ 0
closings-map [] store = refl
closings-map (c ∷ cs) store = omega (arith, closings-map cs store)

closings-log_captures :
    (r : Runner) (call : Call) (store : Store) → closings (log_captures r call store) ≡ 0
unfolding log_captures
closings-log_captures r call store = ground (arith, closings-map call.capture store)

closings-report_captured :
    (r : Runner) (w : CallWorld) (call : Call) (response : Response) (attempts : ℕ) (read : Bytes)
    (out : Extracted)
    → closings (report_captured r w call response attempts (read, out)).0 ≡ 0
unfolding report_captured
closings-report_captured r w call response attempts read (ok _, store) =
    closings-append (log_captures r call store) _
    ∙ omega (arith, closings-log_captures r call store)
closings-report_captured r w call response attempts read (err e, store) =
    elim (Bool-cases (is_context_err w.ctx_at_capture_error e)) [
      | inl stopped ↦ rw stopped refl
      | inr lasting ↦ rw lasting refl
    ]

closings-report_success :
    (r : Runner) (w : CallWorld) (call : Call) (response : Response) (attempts : ℕ) (store : Store)
    → closings (report_success r w call response attempts store).0 ≡ 1
unfolding report_success drain_discard
closings-report_success r w call response attempts store =
    elim (Bool-cases (is_empty call.capture)) [
      | inl empty ↦ rw empty refl
      | inr some_capture ↦ rw some_capture (
          let out = capture_from_response r w call response store in
          omega (arith, closings-report_captured r w call response attempts out.0 out.1))
    ]

closings-write_failure :
    (call : Call) (n : ℕ) (response : Option Response) (e : Err) (transport : Option Err)
    → closings (write_failure call response e n transport) ≡ given (returned n response (some e))
unfolding write_failure
closings-write_failure call n none e none = refl
closings-write_failure call n none e (some why) = refl
closings-write_failure call n (some response) e transport =
    omega (arith, closings-echo_body response call.retry.max_body_buffer)

closings-drain_discard :
    (response : Option Response) (n : ℕ) (e : Option Err)
    → closings (drain_discard response) ≡ given (returned n response e)
unfolding drain_discard
closings-drain_discard none n e = refl
closings-drain_discard (some response) n e = refl

closings-report_outcome :
    (r : Runner) (w : CallWorld) (call : Call) (response : Option Response) (error : Option Err)
    (n : ℕ) (transport : Option Err) (store : Store)
    → closings (report_outcome r w call response error n transport store).0
      ≡ given (returned n response error)
unfolding report_outcome
closings-report_outcome r w call (some response) none n transport store =
    closings-report_success r w call response n store
closings-report_outcome r w call none none n transport store = refl
closings-report_outcome r w call response (some e) n transport store =
    elim (Bool-cases (is_context_err w.ctx_at_outcome e)) [
      | inl stopped ↦ rw stopped (closings-drain_discard response n (some e))
      | inr lasting ↦ rw lasting (closings-write_failure call n response e transport)
    ]

-- Whatever the engine gives to the runner, a response's body is closed exactly once by what the
-- runner does with it, on every path: success, a failed capture, a failure that is echoed, and a
-- canceled context.
pub closings-report_ending :
    (r : Runner) (w : CallWorld) (call : Call) (rounds : List Round) (store : Store)
    (ending : Ending)
    → closings (report_ending r w call rounds store ending).0 ≡ given ending
unfolding report_ending
closings-report_ending r w call rounds store (returned n response error) =
    closings-report_outcome r w call response error n (transport_error n rounds) store
closings-report_ending r w call rounds store pending = refl
