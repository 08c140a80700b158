-- ===== src/Retry/Engine/Delays.antt =====
-- How long a run sleeps.
use opensearch_api.Prelude.{
  All, All-append, Bool-cases, Bytes, List, Option, [], arith, err, false, inl, inr, int_ltb, map,
  none, ok, pos, some, suc, true, ℕ, ◌∷◌, ◌≡◌,
}
use opensearch_api.Retry.Backoff.Bounds.{backoff-le-max}
use opensearch_api.Retry.Classify.{Engine, Outcome, Verdict, Warning, retry, success, terminal}
use opensearch_api.Retry.Engine.{
  act, announce, back_off, decide, do_attempts, give_up, judge, on_context, proceed, retry_info,
  run_from, turn,
}
use opensearch_api.Retry.Attempt.{
  Attempted, Event, Received, Round, close_attempt, drain_status, failed, failed_with, receive,
  receive_response, responded, slept, warned,
}
use opensearch_api.Config.Types.{Duration}
use opensearch_api.Retry.Backoff.{FloatOps}
use opensearch_api.Errors.{Err}
use opensearch_api.Retry.Body.{Response}
use opensearch_api.Retry.Engine.Trace.{Step-cases}

-- A sleep is no longer than the cap.
abbrev pub IsCapped : Duration → Event → Type 0
IsCapped max_delay (slept d) = int_ltb max_delay d ≡ false
IsCapped max_delay _ = Unit

module _ (f : FloatOps) (e : Engine) (capped : int_ltb (pos 0) e.cfg.max ≡ true) where
  abbrev Capped : List Event → Type 0
  Capped = All (IsCapped e.cfg.max)

  drain-Capped : (n : ℕ) (response : Option Response) → Capped (drain_status n response)
  unfolding drain_status
  drain-Capped n none = tt
  drain-Capped n (some r) = (tt, (tt, tt))

  close-Capped : (n : ℕ) (got : Received) → Capped (close_attempt n got)
  unfolding close_attempt
  close-Capped n got = elim (Bool-cases got.buffered) [
    | inl b ↦ rw b (tt, tt)
    | inr b ↦ rw b (drain-Capped n got.response)
  ]

  receive-Capped : (n : ℕ) (a : Attempted) → Capped (receive e n a).0
  unfolding receive receive_response
  receive-Capped n (responded r) = ground arith
  receive-Capped n (failed why) = tt
  receive-Capped n (failed_with r why) = tt

  warned-Capped : (ws : List Warning) → Capped (map warned ws)
  warned-Capped [] = tt
  warned-Capped (w ∷ ws) = (tt, warned-Capped ws)

  module _ (n : ℕ) (round : Round) (got : Received) where
    give_up-Capped : (reason : Bytes) → Capped (give_up e.cfg n got reason).0
    unfolding give_up
    give_up-Capped reason = ground (arith, drain-Capped n got.response)

    announce-Capped : (reason : Bytes) → Capped (announce e (retry_info f e n round got reason))
    unfolding announce retry_info
    announce-Capped reason =
        let le = backoff-le-max f e.cfg (pos n) round.jitter_sample capped in
        elim (Bool-cases e.has_hook) [
          | inl hook ↦ rw hook (tt, (le, tt))
          | inr bare ↦ rw bare (le, tt)
        ]

    back_off-Capped : (reason : Bytes) → Capped (back_off f e n round got reason).0
    unfolding back_off
    back_off-Capped reason =
        All-append (IsCapped e.cfg.max) _ _ (close-Capped n got) (announce-Capped reason)

    act-Capped : (o : Outcome × Bytes) → Capped (act f e n round got o).0
    unfolding act
    act-Capped (success, reason) = tt
    act-Capped (terminal, reason) = tt
    act-Capped (retry, reason) =
        ground (arith, close-Capped n got, give_up-Capped reason, back_off-Capped reason)

    decide-Capped : (v : Verdict) → Capped (decide f e n round got v).0
    unfolding decide
    decide-Capped (err c) = close-Capped n got
    decide-Capped (ok o) = act-Capped o

    on_context-Capped : (c : Option Err) → Capped (on_context f e n round got c).0
    unfolding on_context judge
    on_context-Capped (some c) = drain-Capped n got.response
    on_context-Capped none = All-append (IsCapped e.cfg.max) _ _ (warned-Capped _) (decide-Capped _)

  turn-Capped : (n : ℕ) (round : Round) → Capped (turn f e n round).0
  unfolding turn
  turn-Capped n round = (
    tt,
    All-append (IsCapped e.cfg.max) _ _ (receive-Capped n round.attempted)
        (on_context-Capped n round _ _),
  )

  run_from-Capped : (n : ℕ) (rounds : List Round) → Capped (run_from f e n rounds).0
  unfolding run_from proceed
  run_from-Capped n [] = tt
  run_from-Capped n (round ∷ rounds) = elim (Step-cases (turn f e n round).1) [
    | inl more ↦
        rw more (
          All-append (IsCapped e.cfg.max) _ _ (turn-Capped n round)
            (run_from-Capped (suc n) rounds))
    | inr (r, x, done) ↦ rw done (turn-Capped n round)
  ]

  -- With a maximum backoff, no sleep of a run is longer, whatever the strategy, the number of the
  -- attempt, the jitter and the floating point.
  pub do_attempts-Capped :
      (rounds : List Round) → All (IsCapped e.cfg.max) (do_attempts f e rounds).0
  unfolding do_attempts
  do_attempts-Capped rounds = run_from-Capped 1 rounds
