-- ===== src/Runbook/Run.antt =====
-- internal/runbook/run.go, Runner.Run: the calls of a runbook one after the other, with the store of
-- captures that a run starts empty.
pub mod Tests
pub mod Counts
pub mod Reached
pub mod Course
pub mod Total
use opensearch_api.Prelude.{
  Bytes, List, Option, [], if◌then◌else◌, length, none, some, suc, ℕ, ◌+◌, ◌∷◌,
}
use opensearch_api.Errors.{Err, canceled, deadline_exceeded}
use opensearch_api.Retry.Predicate.{Context}
use opensearch_api.Runbook.Template.{Store, next}
use opensearch_api.Runbook.Call.{Call}
use opensearch_api.Runbook.Outcome.{is_context_err}
use opensearch_api.Runbook.Sending.{
  CallEnd, CallWorld, Reported, Runner, ended, reported_then, run_call, waiting,
}

-- The summary line of a run, with its counts.
pub data Summary : Type 0 where
  completed : ℕ → ℕ → Summary
  halted : ℕ → ℕ → ℕ → Summary
  interrupted timed_out_during : ℕ → ℕ → Bytes → ℕ → Summary

pub data RunEnd : Type 0 where
  run_ended : Summary → Option Err → RunEnd
  run_waiting : RunEnd

-- How a run was canceled.
unfoldable pub canceled_summary : Context → ℕ → ℕ → Bytes → ℕ → Summary
canceled_summary (some deadline_exceeded) good bad name not_run =
    timed_out_during good bad name not_run
canceled_summary (some canceled) good bad name not_run = interrupted good bad name not_run
canceled_summary none good bad name not_run = interrupted good bad name not_run

-- What the loop does behind a call: `good` and `bad` are `succeeded` and `tolerated`, and `next` is
-- the rest of the loop.
unfoldable pub after_call :
    CallWorld → Call → ℕ → ℕ → ℕ → (ℕ → ℕ → Store → Reported RunEnd) → CallEnd → Reported RunEnd
after_call w call not_run good bad next waiting = ([], run_waiting)
after_call w call not_run good bad next (ended none store) = next (good + 1) bad store
after_call w call not_run good bad next (ended (some e) store) =
    if is_context_err w.ctx_at_run e
    then ([], run_ended (canceled_summary w.ctx_at_run good bad call.name not_run) (some e))
    else if call.continue_on_failure
    then next good (bad + 1) store
    else ([], run_ended (halted good bad not_run) (some e))

-- The loop of `Run` from call `i` on.
unfoldable pub run_calls :
    Runner → (ℕ → CallWorld) → ℕ → List Call → ℕ → ℕ → Store → Reported RunEnd
run_calls r w i [] good bad store = ([], run_ended (completed good bad) none)
run_calls r w i (call ∷ rest) good bad store =
    let (reports, outcome) = run_call r (w i) call store in
    reported_then reports
      (after_call (w i) call (length rest) good bad (run_calls r w (suc i) rest) outcome)

abbrev pub empty_store : Store
empty_store name = none

unfoldable pub run : Runner → (ℕ → CallWorld) → List Call → Reported RunEnd
run r w calls = run_calls r w 0 calls 0 0 empty_store
