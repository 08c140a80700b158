-- ===== src/Runbook/Run/Total.antt =====
-- A run comes to its end.
use opensearch_api.Prelude.{
  Bool-cases, Bytes, List, Option, Result, [], err, inl, inr, is_empty, length, none, ok, pos, some,
  suc, ℕ, ◌+◌, ◌∷◌, ◌≡◌, ◌≤◌,
}
use opensearch_api.Errors.{Err}
use opensearch_api.Retry.Body.{Response}
use opensearch_api.Retry.Engine.{returned}
use opensearch_api.Retry.Engine.Budget.{do_attempts_total}
use opensearch_api.Retry.Engine.Results.{EndingIsConsistent, do_attempts-IsConsistent}
use opensearch_api.Runbook.Template.{PathError, ScanError, Store}
use opensearch_api.Osclient.Address.{RequestSpec}
use opensearch_api.Runbook.Call.{Call, substitute_call}
use opensearch_api.Runbook.Outcome.{is_context_err}
use opensearch_api.Runbook.Capture.{Extracted}
use opensearch_api.Runbook.Sending.{
  CallEnd, CallWorld, Reported, Runner, build_and_send, capture_from_response, ended, engine_of,
  report_captured, report_ending, report_outcome, report_success, run_call, run_substituted, send,
  transport_error, waiting,
}
use opensearch_api.Runbook.Run.{
  RunEnd, after_call, empty_store, run, run_calls, run_ended, run_waiting,
}

-- A call has a finite number of retries, and the world answers to each of its attempts.
abbrev pub IsAnswered : CallWorld → Call → Type 0
IsAnswered w call =
    (k : ℕ) × (call.retry.max_retries ≡ pos k)
    × ((spec : RequestSpec) → suc k ≤ length (w.answers spec))

abbrev pub AllAnswered : (ℕ → CallWorld) → ℕ → List Call → Type 0
AllAnswered w i [] = Unit
AllAnswered w i (call ∷ calls) = IsAnswered (w i) call × AllAnswered w (suc i) calls

abbrev IsEnded : CallEnd → Type 0
IsEnded (ended error store) = Unit
IsEnded waiting = ⊥

abbrev pub IsRunEnded : RunEnd → Type 0
IsRunEnded (run_ended summary error) = Unit
IsRunEnded run_waiting = ⊥

report_captured-IsEnded :
    (r : Runner) (w : CallWorld) (call : Call) (response : Response) (n : ℕ) (read : Bytes)
    (out : Extracted)
    → IsEnded (report_captured r w call response n (read, out)).1
unfolding report_captured
report_captured-IsEnded r w call response n read (ok _, store) = tt
report_captured-IsEnded r w call response n read (err e, store) =
    elim (Bool-cases (is_context_err w.ctx_at_capture_error e)) [
      | inl stopped ↦ rw stopped tt
      | inr lasting ↦ rw lasting tt
    ]

report_success-IsEnded :
    (r : Runner) (w : CallWorld) (call : Call) (response : Response) (n : ℕ) (store : Store)
    → IsEnded (report_success r w call response n store).1
unfolding report_success
report_success-IsEnded r w call response n store = elim (Bool-cases (is_empty call.capture)) [
  | inl empty ↦ rw empty tt
  | inr some_capture ↦
      let out = capture_from_response r w call response store in
      rw some_capture (report_captured-IsEnded r w call response n out.0 out.1)
]

report_outcome-IsEnded :
    (r : Runner) (w : CallWorld) (call : Call) (n : ℕ) (response : Option Response)
    (error : Option Err) (transport : Option Err) (store : Store)
    → EndingIsConsistent (engine_of r call) (returned n response error)
    → IsEnded (report_outcome r w call response error n transport store).1
unfolding report_outcome
report_outcome-IsEnded r w call n (some response) none transport store h =
    report_success-IsEnded r w call response n store
report_outcome-IsEnded r w call n none none transport store h = absurd h
report_outcome-IsEnded r w call n response (some e) transport store h =
    elim (Bool-cases (is_context_err w.ctx_at_outcome e)) [
      | inl stopped ↦ rw stopped tt
      | inr lasting ↦ rw lasting tt
    ]

send-IsEnded :
    (r : Runner) (w : CallWorld) (call : Call) (store : Store) (spec : RequestSpec)
    → IsAnswered w call
    → IsEnded (send r w call store spec).1
unfolding send report_ending
send-IsEnded r w call store spec (k, budget, enough) =
    let (m, response, error, ends, _, _) =
      do_attempts_total r.float_ops (engine_of r call) k (w.answers spec) budget (enough spec) in
    let consistent = do_attempts-IsConsistent r.float_ops (engine_of r call) (w.answers spec) in
    rw ends (
      report_outcome-IsEnded r w call m response error (transport_error m (w.answers spec)) store
        (rw ends at consistent))

build_and_send-IsEnded :
    (r : Runner) (w : CallWorld) (call : Call) (store : Store) (spec : RequestSpec)
    (failure : Option Err)
    → IsAnswered w call
    → IsEnded (build_and_send r w call store spec failure).1
unfolding build_and_send
build_and_send-IsEnded r w call store spec (some e) answered = tt
build_and_send-IsEnded r w call store spec none answered = send-IsEnded r w call store spec answered

run_substituted-IsEnded :
    (r : Runner) (w : CallWorld) (call : Call) (store : Store)
    (spec : Result (ScanError PathError) RequestSpec)
    → IsAnswered w call
    → IsEnded (run_substituted r w call store spec).1
unfolding run_substituted
run_substituted-IsEnded r w call store (err e) answered = tt
run_substituted-IsEnded r w call store (ok spec) answered =
    build_and_send-IsEnded r w call store spec (w.build spec) answered

after_call-IsRunEnded :
    (w : CallWorld) (call : Call) (not_run good bad : ℕ) (more : ℕ → ℕ → Store → Reported RunEnd)
    (outcome : CallEnd)
    → IsEnded outcome
    → ((good2 bad2 : ℕ) (store : Store) → IsRunEnded (more good2 bad2 store).1)
    → IsRunEnded (after_call w call not_run good bad more outcome).1
unfolding after_call
after_call-IsRunEnded w call not_run good bad more waiting h ih = absurd h
after_call-IsRunEnded w call not_run good bad more (ended none store) h ih = ih (good + 1) bad store
after_call-IsRunEnded w call not_run good bad more (ended (some e) store) h ih =
    elim (Bool-cases (is_context_err w.ctx_at_run e)) [
      | inl stopped ↦ rw stopped tt
      | inr lasting ↦ elim (Bool-cases call.continue_on_failure) [
        | inl goes_on ↦ rw (lasting, goes_on) (ih good (bad + 1) store)
        | inr halts ↦ rw (lasting, halts) tt
      ]
    ]

run_calls-IsRunEnded :
    (r : Runner) (w : ℕ → CallWorld) (i : ℕ) (calls : List Call) (good bad : ℕ) (store : Store)
    → AllAnswered w i calls
    → IsRunEnded (run_calls r w i calls good bad store).1
unfolding run_calls run_call
run_calls-IsRunEnded r w i [] good bad store _ = tt
run_calls-IsRunEnded r w i (call ∷ rest) good bad store (answered, others) =
    after_call-IsRunEnded (w i) call (length rest) good bad (run_calls r w (suc i) rest) _
      (run_substituted-IsEnded r (w i) call store (substitute_call call store) answered)
      (λ good2 bad2 store2. run_calls-IsRunEnded r w (suc i) rest good2 bad2 store2 others)

-- A run of a runbook comes to its end, with a summary, if each of its calls has a finite number of
-- retries and the world answers to one attempt more than that: no outcome of a call leaves it stuck.
pub run-IsRunEnded :
    (r : Runner) (w : ℕ → CallWorld) (calls : List Call)
    → AllAnswered w 0 calls
    → IsRunEnded (run r w calls).1
unfolding run
run-IsRunEnded r w calls answered = run_calls-IsRunEnded r w 0 calls 0 0 empty_store answered
