-- ===== src/Retry/Engine/Quiet.antt =====
-- Sums that only attempts contribute to: a turn adds what its attempt adds.
use opensearch_api.Prelude.{Bytes, Option, arith, err, none, ok, refl, some, ℕ, ◌≡◌}
use opensearch_api.Retry.Classify.{Engine, Outcome, Verdict, Warning, retry, success, terminal}
use opensearch_api.Retry.Engine.{
  act, announce, back_off, context_of, decide, give_up, judge, on_context, turn,
}
use opensearch_api.Retry.Attempt.{
  Attempted, Event, Received, RetryInfo, Round, attempted, close_attempt, drain_status, failed,
  failed_with, gives_response, receive, receive_response, responded,
}
use opensearch_api.Config.Types.{Duration}
use opensearch_api.Errors.{Err}
use opensearch_api.Retry.Body.{Response}
use opensearch_api.Retry.Backoff.{FloatOps}
use opensearch_api.Retry.Engine.Trace.{tally, tally-append, tally-warned}

pub record IsQuiet (weight : Event → ℕ) : Type 0 where
  pub warned : (w : Warning) → weight (Event.warned w) ≡ 0
  pub drained : (n : ℕ) → weight (Event.drained n) ≡ 0
  pub closed : (n : ℕ) → weight (Event.closed n) ≡ 0
  pub notified : (info : RetryInfo) → weight (Event.notified info) ≡ 0
  pub slept : (d : Duration) → weight (Event.slept d) ≡ 0

module _ (weight : Event → ℕ) (quiet : IsQuiet weight) where
  drain_tally : (n : ℕ) (response : Option Response) → tally weight (drain_status n response) ≡ 0
  unfolding drain_status
  drain_tally n none = refl
  drain_tally n (some r) = omega (arith, quiet.drained n, quiet.closed n)

  close_tally : (n : ℕ) (got : Received) → tally weight (close_attempt n got) ≡ 0
  unfolding close_attempt
  close_tally n got = ground (arith, drain_tally n got.response, quiet.closed n)

  tally-receive : (e : Engine) (n : ℕ) (a : Attempted) → tally weight (receive e n a).0 ≡ 0
  unfolding receive receive_response
  tally-receive e n (responded r) = ground (arith, quiet.closed n)
  tally-receive e n (failed why) = refl
  tally-receive e n (failed_with r why) = refl

  module _ (f : FloatOps) (e : Engine) (n : ℕ) (round : Round) (got : Received) where
    tally-give_up : (reason : Bytes) → tally weight (give_up e.cfg n got reason).0 ≡ 0
    unfolding give_up
    tally-give_up reason = ground (arith, drain_tally n got.response)

    tally-announce : (info : RetryInfo) → tally weight (announce e info) ≡ 0
    unfolding announce
    tally-announce info = ground (arith, quiet.notified info, quiet.slept info.delay)

    tally-back_off : (reason : Bytes) → tally weight (back_off f e n round got reason).0 ≡ 0
    unfolding back_off
    tally-back_off reason =
        rw (tally-append weight) (omega (arith, close_tally n got, tally-announce))

    tally-act : (o : Outcome × Bytes) → tally weight (act f e n round got o).0 ≡ 0
    unfolding act
    tally-act (success, reason) = refl
    tally-act (terminal, reason) = refl
    tally-act (retry, reason) =
        ground (arith, close_tally n got, tally-give_up reason, tally-back_off reason)

    tally-decide : (v : Verdict) → tally weight (decide f e n round got v).0 ≡ 0
    unfolding decide
    tally-decide (err c) = close_tally n got
    tally-decide (ok o) = tally-act o

    tally-on_context : (c : Option Err) → tally weight (on_context f e n round got c).0 ≡ 0
    unfolding on_context judge
    tally-on_context (some c) = drain_tally n got.response
    tally-on_context none =
        rw (tally-append weight, tally-warned weight quiet.warned) (omega (arith, tally-decide))

  pub tally-turn :
      (f : FloatOps) (e : Engine) (n : ℕ) (round : Round)
      → tally weight (turn f e n round).0 ≡ weight (attempted n (gives_response round.attempted))
  unfolding turn
  tally-turn f e n round =
      let (events, got) = receive e n round.attempted in
      rw (tally-append weight, tally-receive e n round.attempted)
        (omega (arith, tally-on_context f e n round got (context_of round got)))
