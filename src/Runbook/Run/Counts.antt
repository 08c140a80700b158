-- ===== src/Runbook/Run/Counts.antt =====
-- The summary of a run.
use opensearch_api.Runbook.Outcome.{is_context_err}
use opensearch_api.Runbook.Run.{
  RunEnd, Summary, after_call, canceled_summary, completed, empty_store, halted, interrupted, run,
  run_calls, run_ended, run_waiting, timed_out_during,
}
use opensearch_api.Runbook.Sending.{CallEnd, CallWorld, Reported, Runner, ended, run_call, waiting}
use opensearch_api.Prelude.{
  Bool, Bool-cases, Bytes, List, [], arith, false, inl, inr, is_some, length, none, not, refl, some,
  subst, suc, true, ℕ, ◌+◌, ◌∷◌, ◌≡◌,
}
use opensearch_api.Errors.{Err, canceled, deadline_exceeded}
use opensearch_api.Retry.Predicate.{Context}
use opensearch_api.Runbook.Template.{Store}
use opensearch_api.Runbook.Call.{Call}

-- How many calls a summary speaks of: those that went well, were tolerated, ended the run, and
-- were not run.
abbrev pub counted : Summary → ℕ
counted (completed good bad) = good + bad
counted (halted good bad not_run) = good + bad + 1 + not_run
counted (interrupted good bad name not_run) = good + bad + 1 + not_run
counted (timed_out_during good bad name not_run) = good + bad + 1 + not_run

abbrev pub is_completed : Summary → Bool
is_completed (completed good bad) = true
is_completed _ = false

-- What a run's end promises: every call is counted once, and the run has an error exactly when its
-- summary is not that of a completed run.
abbrev pub IsAccounted : ℕ → RunEnd → Type 0
IsAccounted n run_waiting = Unit
IsAccounted n (run_ended summary error) =
    (counted summary ≡ n) × (is_some error ≡ not (is_completed summary))

canceled_summary-IsAccounted :
    (c : Context) (good bad : ℕ) (name : Bytes) (not_run : ℕ) (e : Err)
    → IsAccounted
        (good + bad + 1 + not_run)
        (run_ended (canceled_summary c good bad name not_run) (some e))
unfolding canceled_summary
canceled_summary-IsAccounted (some deadline_exceeded) good bad name not_run e = (refl, refl)
canceled_summary-IsAccounted (some canceled) good bad name not_run e = (refl, refl)
canceled_summary-IsAccounted none good bad name not_run e = (refl, refl)

after_call-IsAccounted :
    (w : CallWorld) (call : Call) (not_run good bad : ℕ) (more : ℕ → ℕ → Store → Reported RunEnd)
    (outcome : CallEnd)
    → ((good2 bad2 : ℕ) (store : Store)
        → IsAccounted (good2 + bad2 + not_run) (more good2 bad2 store).1)
    → IsAccounted (good + bad + suc not_run) (after_call w call not_run good bad more outcome).1
unfolding after_call
after_call-IsAccounted w call not_run good bad more waiting ih = tt
after_call-IsAccounted w call not_run good bad more (ended none store) ih =
    subst (λ n. IsAccounted n (more (good + 1) bad store).1) (omega arith) (ih (good + 1) bad store)
after_call-IsAccounted w call not_run good bad more (ended (some e) store) ih =
    elim (Bool-cases (is_context_err w.ctx_at_run e)) [
      | inl stopped ↦ rw stopped (
          subst
            (λ n.
              IsAccounted n
                (run_ended (canceled_summary w.ctx_at_run good bad call.name not_run) (some e)))
            (omega arith) (canceled_summary-IsAccounted w.ctx_at_run good bad call.name not_run e))
      | inr lasting ↦ elim (Bool-cases call.continue_on_failure) [
        | inl goes_on ↦
            rw (lasting, goes_on)
              (subst (λ n. IsAccounted n (more good (bad + 1) store).1) (omega arith)
                (ih good (bad + 1) store))
        | inr halts ↦ rw (lasting, halts) (omega arith, refl)
      ]
    ]

run_calls-IsAccounted :
    (r : Runner) (w : ℕ → CallWorld) (i : ℕ) (calls : List Call) (good bad : ℕ) (store : Store)
    → IsAccounted (good + bad + length calls) (run_calls r w i calls good bad store).1
unfolding run_calls
run_calls-IsAccounted r w i [] good bad store = (omega arith, refl)
run_calls-IsAccounted r w i (call ∷ rest) good bad store =
    after_call-IsAccounted (w i) call (length rest) good bad (run_calls r w (suc i) rest)
      (run_call r (w i) call store).1
      (λ good2 bad2 store2. run_calls-IsAccounted r w (suc i) rest good2 bad2 store2)

-- The summary of a run counts every call of the runbook once, as succeeded, tolerated, the one that
-- ended the run, or not run; and the run returns an error exactly when it did not get to its end.
pub run-IsAccounted :
    (r : Runner) (w : ℕ → CallWorld) (calls : List Call)
    → IsAccounted (length calls) (run r w calls).1
unfolding run
run-IsAccounted r w calls =
    subst (λ n. IsAccounted n (run_calls r w 0 calls 0 0 empty_store).1) (omega arith)
      (run_calls-IsAccounted r w 0 calls 0 0 empty_store)
