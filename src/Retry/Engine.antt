-- ===== src/Retry/Engine.antt =====
-- internal/retry/retry.go, Engine.Do. What the world answers to one attempt is a `Round`; a run
-- takes the rounds in order, and gives its result with the events that others can see.
pub mod Trace
mod Quiet
pub mod Budget
pub mod Delays
pub mod Bodies
pub mod Results
use opensearch_api.Prelude.{
  Bool, Bytes, List, Option, [], codes, decimal, err, false, if◌then◌else◌, int_eqb, is_empty, ltb,
  map, negsuc, none, ok, pos, some, suc, ℕ, ℤ, ◌++◌, ◌∷◌,
}
use opensearch_api.Errors.{
  Err, ctx_error, join, rejected, retries_exhausted, sentinel, terminal_status, wrap,
}
use opensearch_api.Retry.Body.{Response}
use opensearch_api.Retry.Backoff.{FloatOps, backoff}
use opensearch_api.Config.Types.{RetryConfig}
use opensearch_api.Retry.Classify.{
  Engine, Outcome, Verdict, classify, context_error, retry, success, terminal,
}
use opensearch_api.Retry.Attempt.{
  Event, Received, RetryInfo, Round, Step, Traced, again, attempted, close_attempt, drain_status,
  finish, gives_response, notified, receive, slept, warned,
}

abbrev pub status_of : Option Response → ℕ
status_of none = 0
status_of (some r) = r.status

-- `MaxRetries >= 0 && n > MaxRetries`
unfoldable pub is_spent : ℤ → ℕ → Bool
is_spent (pos k) n = ltb k n
is_spent (negsuc k) n = false

abbrev pub with_reason : Bytes → Err → Bytes → Err
with_reason before e reason =
    if is_empty reason then wrap before e [] else wrap before e (codes ": " ++ reason)

-- The end of a run whose budget is spent.
unfoldable pub give_up : RetryConfig → ℕ → Received → Bytes → Traced Step
give_up cfg n got reason =
    if int_eqb cfg.max_retries (pos 0)
    then elim got.cause [
      | some why ↦ (drain_status n got.response, finish none (some why))
      | none ↦ (
        [],
        finish got.response (
            some (
              with_reason (codes "status " ++ decimal (status_of got.response) ++ codes " ")
                (sentinel rejected) reason)),
      )
    ]
    else (let prefix = codes "after " ++ decimal n ++ codes " attempts: " in
        elim got.cause [
          | some why ↦ (
            drain_status n got.response,
            finish none (some (join prefix (sentinel retries_exhausted) (codes ": ") why)),
          )
          | none ↦ (
            [],
            finish got.response (some (with_reason prefix (sentinel retries_exhausted) reason)),
          )
        ])

-- The hook is called, if there is one, and the loop sleeps.
unfoldable pub announce : Engine → RetryInfo → List Event
announce e info =
    if e.has_hook then notified info ∷ slept info.delay ∷ [] else slept info.delay ∷ []

unfoldable pub retry_info : FloatOps → Engine → ℕ → Round → Received → Bytes → RetryInfo
retry_info f e n round got reason = record {
  attempt = n;
  status = status_of got.response;
  cause = got.cause;
  delay = backoff f e.cfg (pos n) round.jitter_sample;
  reason = reason;
}

-- The backoff, which the body's close comes before.
unfoldable pub back_off : FloatOps → Engine → ℕ → Round → Received → Bytes → Traced Step
back_off f e n round got reason = (
  close_attempt n got ++ announce e (retry_info f e n round got reason),
  elim round.slept [ none ↦ again | some why ↦ finish none (some why) ],
)

-- What follows from the outcome.
unfoldable pub act : FloatOps → Engine → ℕ → Round → Received → Outcome × Bytes → Traced Step
act f e n round got (success, reason) = ([], finish got.response none)
act f e n round got (terminal, reason) = (
  [],
  finish got.response (
      some (
        wrap (codes "terminal status " ++ decimal (status_of got.response) ++ codes ": ")
          (sentinel terminal_status) [])),
)
act f e n round got (retry, reason) = elim round.ctx_before_retry [
  | some c ↦ (close_attempt n got, finish none (some (ctx_error c)))
  | none ↦
      if is_spent e.cfg.max_retries n
      then give_up e.cfg n got reason
      else back_off f e n round got reason
]

abbrev pub traced_then : {A : Type 0} → List Event → Traced A → Traced A
traced_then events (more, a) = (events ++ more, a)

-- What follows from the verdict: a context error is returned at once.
unfoldable pub decide : FloatOps → Engine → ℕ → Round → Received → Verdict → Traced Step
decide f e n round got (err c) = (close_attempt n got, finish none (some c))
decide f e n round got (ok outcome) = act f e n round got outcome

-- Classifying what was received, and acting on it.
unfoldable pub judge : FloatOps → Engine → ℕ → Round → Received → Traced Step
judge f e n round got =
    let (warnings, verdict) =
      classify e round.ctx_at_predicates (status_of got.response) got.buf got.overflowed
        got.cause in
    traced_then (map warned warnings) (decide f e n round got verdict)

-- The context error that an attempt's error means, if any.
unfoldable pub context_of : Round → Received → Option Err
context_of round got = elim got.cause [
  | none ↦ none
  | some why ↦ context_error round.ctx_at_error why
]

-- A context error ends the run before the classification.
unfoldable pub on_context : FloatOps → Engine → ℕ → Round → Received → Option Err → Traced Step
on_context f e n round got (some c) = (drain_status n got.response, finish none (some c))
on_context f e n round got none = judge f e n round got

-- One turn of the loop.
unfoldable pub turn : FloatOps → Engine → ℕ → Round → Traced Step
turn f e n round =
    let (events, got) = receive e n round.attempted in
    traced_then (attempted n (gives_response round.attempted) ∷ events)
      (on_context f e n round got (context_of round got))

-- A run has returned, at attempt `n`, or has used up the rounds at hand.
pub data Ending : Type 0 where
  returned : (n : ℕ) → Option Response → Option Err → Ending
  pending : Ending

-- What a turn's step makes of the rest of the run.
unfoldable pub proceed : ℕ → List Event → Step → Traced Ending → Traced Ending
proceed n events (finish response error) rest = (events, returned n response error)
proceed n events again rest = traced_then events rest

-- The loop from attempt `n` on.
unfoldable pub run_from : FloatOps → Engine → ℕ → List Round → Traced Ending
run_from f e n [] = ([], pending)
run_from f e n (round ∷ rounds) =
    let (events, step) = turn f e n round in proceed n events step (run_from f e (suc n) rounds)

-- `Do`
unfoldable pub do_attempts : FloatOps → Engine → List Round → Traced Ending
do_attempts f e rounds = run_from f e 1 rounds
