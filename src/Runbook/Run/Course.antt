-- ===== src/Runbook/Run/Course.antt =====
-- The whole course of a run, Runner.Run of internal/runbook/run.go, as a relation: which calls it comes
-- to, on which store, and how it ends.
use opensearch_api.Runbook.Run.Reached.{Reached, length-snoc, passed, start, went_on}
use opensearch_api.Runbook.Run.{
  RunEnd, Summary, after_call, canceled_summary, completed, empty_store, halted, interrupted, run,
  run_calls, run_ended, run_waiting, timed_out_during,
}
use opensearch_api.Prelude.{
  Bool-cases, Bytes, List, Option, [], ap, append-nil, append_assoc, false, inl, inr, length, none,
  refl, some, subst, suc, sym, true, ℕ, ◌++◌, ◌+◌, ◌∙◌, ◌∷◌, ◌≡◌, ◌⊎◌,
}
use opensearch_api.Errors.{CtxErr, Err, canceled, deadline_exceeded}
use opensearch_api.Runbook.Call.{Call}
use opensearch_api.Runbook.Outcome.{Report, is_context_err}
use opensearch_api.Runbook.Sending.{
  CallEnd, CallWorld, Reported, Runner, ended, reported_then, run_call, waiting,
}
use opensearch_api.Runbook.Template.{Store}

-- `Course P r w past rest good bad store out`: behind the calls `past`, with these counts and this store,
-- the calls `rest` give `out`, and `P` holds of every call that the run comes to, on the store that it
-- has there. A call that fails ends the run with the context, or because its failure is not tolerated.
pub data Course (P : Store → Call → Type 0) (r : Runner) (w : ℕ → CallWorld)
    : List Call → List Call → ℕ → ℕ → Store → Reported RunEnd → Type 0 where
  all_done :
      (past : List Call) (good bad : ℕ) (store : Store)
      → Course P r w past [] good bad store ([], run_ended (completed good bad) none)
  waits :
      (past : List Call) (good bad : ℕ) (store : Store) (call : Call) (rest : List Call)
      (reports : List Report)
      → P store call
      → run_call r (w (length past)) call store ≡ (reports, waiting)
      → Course P r w past (call ∷ rest) good bad store (reports, run_waiting)
  succeeds :
      (past : List Call) (good bad : ℕ) (store after : Store) (call : Call) (rest : List Call)
      (reports : List Report) (out : Reported RunEnd)
      → P store call
      → run_call r (w (length past)) call store ≡ (reports, ended none after)
      → Course P r w (past ++ (call ∷ [])) rest (good + 1) bad after out
      → Course P r w past (call ∷ rest) good bad store (reported_then reports out)
  tolerates :
      (past : List Call) (good bad : ℕ) (store after : Store) (call : Call) (rest : List Call)
      (reports : List Report) (e : Err) (out : Reported RunEnd)
      → P store call
      → run_call r (w (length past)) call store ≡ (reports, ended (some e) after)
      → is_context_err (w (length past)).ctx_at_run e ≡ false
      → call.continue_on_failure ≡ true
      → Course P r w (past ++ (call ∷ [])) rest good (bad + 1) after out
      → Course P r w past (call ∷ rest) good bad store (reported_then reports out)
  halts :
      (past : List Call) (good bad : ℕ) (store after : Store) (call : Call) (rest : List Call)
      (reports : List Report) (e : Err)
      → P store call
      → run_call r (w (length past)) call store ≡ (reports, ended (some e) after)
      → is_context_err (w (length past)).ctx_at_run e ≡ false
      → call.continue_on_failure ≡ false
      → Course P r w past
          (call ∷ rest)
          good
          bad
          store
          (reports, run_ended (halted good bad (length rest)) (some e))
  stops :
      (past : List Call) (good bad : ℕ) (store after : Store) (call : Call) (rest : List Call)
      (reports : List Report) (e : Err) (summary : Summary)
      → P store call
      → run_call r (w (length past)) call store ≡ (reports, ended (some e) after)
      → is_context_err (w (length past)).ctx_at_run e ≡ true
      → ((summary ≡ timed_out_during good bad call.name (length rest))
          × ((w (length past)).ctx_at_run ≡ some deadline_exceeded))
        ⊎ ((summary ≡ interrupted good bad call.name (length rest))
            × ((w (length past)).ctx_at_run ≡ some canceled))
      → Course P r w past (call ∷ rest) good bad store (reports, run_ended summary (some e))

canceled_summary-cases :
    (c : Option CtxErr) (e : Err) (good bad : ℕ) (name : Bytes) (not_run : ℕ)
    → is_context_err c e ≡ true
    → ((canceled_summary c good bad name not_run ≡ timed_out_during good bad name not_run)
        × (c ≡ some deadline_exceeded))
      ⊎ ((canceled_summary c good bad name not_run ≡ interrupted good bad name not_run)
          × (c ≡ some canceled))
unfolding canceled_summary is_context_err
canceled_summary-cases (some deadline_exceeded) e good bad name not_run h = inl (refl, refl)
canceled_summary-cases (some canceled) e good bad name not_run h = inr (refl, refl)
canceled_summary-cases none e good bad name not_run h = absurd (cc)

-- A call behind which nothing is reported any more.
ended_by : (reports : List Report) (e : RunEnd) → (reports, e) ≡ reported_then reports ([], e)
ended_by reports e = ap (λ l. (l, e)) (sym (append-nil reports))

-- What the loop does behind a failure.
module _ (at : CallWorld) (call : Call) (not_run good bad : ℕ)
    (next : ℕ → ℕ → Store → Reported RunEnd) (after : Store) (e : Err) where
  after_call-stopped :
      is_context_err at.ctx_at_run e ≡ true
      → after_call at call not_run good bad next (ended (some e) after)
        ≡ ([], run_ended (canceled_summary at.ctx_at_run good bad call.name not_run) (some e))
  unfolding after_call
  after_call-stopped over = rw over refl

  after_call-tolerated :
      is_context_err at.ctx_at_run e ≡ false
      → call.continue_on_failure ≡ true
      → after_call at call not_run good bad next (ended (some e) after) ≡ next good (bad + 1) after
  unfolding after_call
  after_call-tolerated alive goes_on = rw (alive, goes_on) refl

  after_call-halted :
      is_context_err at.ctx_at_run e ≡ false
      → call.continue_on_failure ≡ false
      → after_call at call not_run good bad next (ended (some e) after)
        ≡ ([], run_ended (halted good bad not_run) (some e))
  unfolding after_call
  after_call-halted alive halting = rw (alive, halting) refl

module _ (P : Store → Call → Type 0) (r : Runner) (w : ℕ → CallWorld) where
  Course-at :
      {past calls : List Call} {good bad : ℕ} {store : Store} {out out2 : Reported RunEnd}
      → out ≡ out2
      → Course P r w past calls good bad store out
      → Course P r w past calls good bad store out2
  Course-at {past = past} {calls = calls} {good = good} {bad = bad} {store = store} same c =
      subst (Course P r w past calls good bad store) same c

  -- One call of the loop, by what it gave.
  after_call-Course :
      (past : List Call) (call : Call) (rest : List Call) (good bad : ℕ) (store : Store)
      (made : Reported CallEnd)
      → P store call
      → run_call r (w (length past)) call store ≡ made
      → ((good2 bad2 : ℕ) (after : Store)
          → Reached r w (past ++ (call ∷ [])) good2 bad2 after
          → Course P r w
              (past ++ (call ∷ []))
              rest
              good2
              bad2
              after
              (run_calls r w (suc (length past)) rest good2 bad2 after))
      → Reached r w past good bad store
      → Course P r w past (call ∷ rest) good bad store (
          reported_then made.0 (
            after_call
              (w (length past))
              call
              (length rest)
              good
              bad
              (run_calls r w (suc (length past)) rest)
              made.1))
  unfolding after_call
  after_call-Course past call rest good bad store (reports, waiting) p ran ih reached =
      Course-at (ended_by reports run_waiting) (waits past good bad store call rest reports p ran)
  after_call-Course past call rest good bad store (reports, ended none after) p ran ih reached =
      succeeds past good bad store after call rest reports _ p ran (
        ih (good + 1) bad after (passed past good bad store after call reached (ap (λ x. x.1) ran)))
  after_call-Course past call rest good bad store (reports, ended (some e) after) p ran ih reached =
      let at = w (length past) in
      let next = run_calls r w (suc (length past)) rest in
      elim (Bool-cases (is_context_err at.ctx_at_run e)) [
        | inl over ↦
            Course-at
              (ended_by reports _
                ∙ ap (reported_then reports)
                    (sym (after_call-stopped at call (length rest) good bad next after e over)))
              (stops past good bad store after call rest reports e _ p ran over
                (canceled_summary-cases at.ctx_at_run e good bad call.name (length rest) over))
        | inr alive ↦ elim (Bool-cases call.continue_on_failure) [
          | inl goes_on ↦
              Course-at
                (ap (reported_then reports) (
                  sym (
                    after_call-tolerated at call (length rest) good bad next after e alive
                      goes_on)))
                (tolerates past good bad store after call rest reports e _ p ran alive goes_on (
                  ih good (bad + 1) after (
                    went_on past good bad store after call e reached (ap (λ x. x.1) ran) alive
                      goes_on)))
          | inr halting ↦
              Course-at
                (ended_by reports _
                  ∙ ap (reported_then reports) (
                      sym (
                        after_call-halted at call (length rest) good bad next after e alive
                          halting)))
                (halts past good bad store after call rest reports e p ran alive halting)
        ]
      ]

  run_calls-Course :
      (total : List Call)
      → ((past : List Call) (call : Call) (rest : List Call) (good bad : ℕ) (store : Store)
          → total ≡ past ++ (call ∷ rest)
          → Reached r w past good bad store
          → P store call)
      → (past rest : List Call) (good bad : ℕ) (store : Store) → total ≡ past ++ rest
      → Reached r w past good bad store
      → Course P r w past rest good bad store (run_calls r w (length past) rest good bad store)
  unfolding run_calls
  run_calls-Course total holds past [] good bad store whole reached = all_done past good bad store
  run_calls-Course total holds past (call ∷ rest) good bad store whole reached =
      after_call-Course past call rest good bad store (run_call r (w (length past)) call store)
        (holds past call rest good bad store whole reached) refl
        (λ good2 bad2 after further.
          subst
            (λ i.
              Course P r w (past ++ (call ∷ [])) rest good2 bad2 after
                (run_calls r w i rest good2 bad2 after))
            (length-snoc past call)
            (run_calls-Course total holds (past ++ (call ∷ [])) rest good2 bad2 after
              (whole ∙ sym (append_assoc past (call ∷ []) rest)) further))
        reached

  -- What holds of every call in a state that is reached before it holds of every call of the run.
  pub run-Course_when :
      (calls : List Call)
      → ((past : List Call) (call : Call) (rest : List Call) (good bad : ℕ) (store : Store)
          → calls ≡ past ++ (call ∷ rest)
          → Reached r w past good bad store
          → P store call)
      → Course P r w [] calls 0 0 empty_store (run r w calls)
  unfolding run
  run-Course_when calls holds = run_calls-Course calls holds [] calls 0 0 empty_store refl start

-- A run that is completed has gone past all its calls.
pub completed-Reached :
    (P : Store → Call → Type 0) (r : Runner) (w : ℕ → CallWorld) (past rest : List Call)
    (good bad : ℕ) (store : Store) (out : Reported RunEnd) (g t : ℕ)
    → Course P r w past rest good bad store out
    → out.1 ≡ run_ended (completed g t) none
    → Reached r w past good bad store
    → (after : Store) × Reached r w (past ++ rest) g t after
completed-Reached P r w _ _ _ _ _ _ g t (all_done past good bad store) h reached = (
  store,
  subst (λ x. Reached r w (past ++ []) x t store) (cc)
      (subst (λ y. Reached r w (past ++ []) good y store) (cc)
        (subst (λ cs. Reached r w cs good bad store) (sym (append-nil past)) reached)),
)
completed-Reached P r w _ _ _ _ _ _ g t (waits past good bad store call rest reports p ran) h
      reached =
    absurd (cc)
completed-Reached P r w _ _ _ _ _ _ g t
      (succeeds past good bad store after call rest reports out p ran course) h reached =
    let (last, whole) =
      completed-Reached P r w (past ++ (call ∷ [])) rest (good + 1) bad after out g t course h
        (passed past good bad store after call reached (ap (λ x. x.1) ran)) in
    (last, subst (λ cs. Reached r w cs g t last) (append_assoc past (call ∷ []) rest) whole)
completed-Reached P r w _ _ _ _ _ _ g t
      (tolerates past good bad store after call rest reports e out p ran alive goes_on course) h
      reached =
    let (last, whole) =
      completed-Reached P r w (past ++ (call ∷ [])) rest good (bad + 1) after out g t course h
        (went_on past good bad store after call e reached (ap (λ x. x.1) ran) alive goes_on) in
    (last, subst (λ cs. Reached r w cs g t last) (append_assoc past (call ∷ []) rest) whole)
completed-Reached P r w _ _ _ _ _ _ g t
      (halts past good bad store after call rest reports e p ran alive halting) h reached =
    absurd (cc)
completed-Reached P r w _ _ _ _ _ _ g t
      (stops past good bad store after call rest reports e summary p ran over how) h reached =
    absurd (cc)

-- A run takes its calls in their order, each on the store that the one before it left. It goes on behind
-- a call that succeeded or whose failure is tolerated, counting the two apart; any other failure ends it
-- there, halted, or interrupted or timed out if it is a context error while the context is over.
pub run-Course :
    (r : Runner) (w : ℕ → CallWorld) (calls : List Call)
    → Course (λ store call. Unit {0}) r w [] calls 0 0 empty_store (run r w calls)
run-Course r w calls =
    run-Course_when (λ store call. Unit {0}) r w calls
      (λ past call rest good bad store whole reached. tt)
