-- ===== src/Retry/Engine/Bodies.antt =====
-- Every response body is closed once, but for the one that the caller gets.
use opensearch_api.Prelude.{
  Bool, Bool-cases, Bytes, List, Option, [], arith, err, false, if◌then◌else◌, inl, inr, is_some,
  none, ok, refl, some, suc, true, ℕ, ◌+◌, ◌<◌, ◌==◌, ◌∷◌, ◌≡◌, ◌≤◌,
}
use opensearch_api.Retry.Classify.{Engine, Outcome, Verdict, retry, success, terminal}
use opensearch_api.Retry.Engine.{
  Ending, act, announce, back_off, context_of, decide, do_attempts, give_up, judge, on_context,
  pending, proceed, returned, run_from, turn,
}
use opensearch_api.Retry.Attempt.{
  Attempted, Event, Received, RetryInfo, Round, Step, Traced, again, attempted, close_attempt,
  closed, drain_status, failed, failed_with, finish, gives_response, receive, receive_response,
  responded,
}
use opensearch_api.Errors.{Err}
use opensearch_api.Retry.Backoff.{FloatOps}
use opensearch_api.Retry.Body.{Response}
use opensearch_api.Retry.Engine.Quiet.{IsQuiet, tally-turn}
use opensearch_api.Retry.Engine.Trace.{Step-cases, tally, tally-append, tally-warned}

-- 1 if the flag is set and the attempt is `m`, else 0.
abbrev pub bill : ℕ → ℕ → Bool → ℕ
bill m n false = 0
bill m n true = if m == n then 1 else 0

-- How often the body of attempt `m` was closed, and how often it was there.
abbrev pub is_close : ℕ → Event → ℕ
is_close m (closed n) = bill m n true
is_close m _ = 0

abbrev pub is_open : ℕ → Event → ℕ
is_open m (attempted n b) = bill m n b
is_open m _ = 0

-- Whether a run or a step hands the body of attempt `m` to the caller.
abbrev kept_by : ℕ → ℕ → Step → ℕ
kept_by m n (finish response error) = bill m n (is_some response)
kept_by m n again = 0

abbrev pub kept : ℕ → Ending → ℕ
kept m (returned n response error) = bill m n (is_some response)
kept m pending = 0

-- Only a response that is there was buffered.
abbrev IsSound : Received → Type 0
IsSound got = got.buffered ≡ true → is_some got.response ≡ true

module _ (m n : ℕ) where
  drain_closes :
      (response : Option Response)
      → tally (is_close m) (drain_status n response) ≡ bill m n (is_some response)
  unfolding drain_status
  drain_closes none = refl
  drain_closes (some r) = omega arith

  close_closes :
      (got : Received)
      → IsSound got
      → tally (is_close m) (close_attempt n got) ≡ bill m n (is_some got.response)
  unfolding close_attempt
  close_closes got sound = elim (Bool-cases got.buffered) [
    | inl b ↦ rw (b, sound b) (omega arith)
    | inr b ↦ rw b (drain_closes got.response)
  ]

  module _ (f : FloatOps) (e : Engine) (round : Round) (got : Received) (sound : IsSound got) where
    abbrev Balances : Traced Step → Type 0
    Balances t = tally (is_close m) t.0 + kept_by m n t.1 ≡ bill m n (is_some got.response)

    give_up_closes : (reason : Bytes) → Balances (give_up e.cfg n got reason)
    unfolding give_up
    give_up_closes reason = ground (arith, drain_closes got.response)

    announce_closes : (info : RetryInfo) → tally (is_close m) (announce e info) ≡ 0
    unfolding announce
    announce_closes info = ground arith

    back_off_closes : (reason : Bytes) → Balances (back_off f e n round got reason)
    unfolding back_off
    back_off_closes reason =
        rw (tally-append (is_close m), close_closes got sound, announce_closes) (ground arith)

    act_closes : (o : Outcome × Bytes) → Balances (act f e n round got o)
    unfolding act
    act_closes (success, reason) = omega arith
    act_closes (terminal, reason) = omega arith
    act_closes (retry, reason) =
        ground (arith, close_closes got sound, give_up_closes reason, back_off_closes reason)

    decide_closes : (v : Verdict) → Balances (decide f e n round got v)
    unfolding decide
    decide_closes (err c) = rw (close_closes got sound) (omega arith)
    decide_closes (ok o) = act_closes o

    on_context_closes : (c : Option Err) → Balances (on_context f e n round got c)
    unfolding on_context judge
    on_context_closes (some c) = rw (drain_closes got.response) (omega arith)
    on_context_closes none =
        rw (tally-append (is_close m), tally-warned (is_close m) (λ w. refl))
          (omega (arith, decide_closes))

receive-IsSound : (e : Engine) (n : ℕ) (a : Attempted) → IsSound (receive e n a).1
unfolding receive receive_response
receive-IsSound e n (responded r) = ground arith
receive-IsSound e n (failed why) = λ h. cc
receive-IsSound e n (failed_with r why) = λ h. refl

receive_closes :
    (m n : ℕ) (e : Engine) (a : Attempted)
    → tally (is_close m) (receive e n a).0 + bill m n (is_some (receive e n a).1.response)
      ≡ bill m n (gives_response a)
unfolding receive receive_response
receive_closes m n e (responded r) = ground arith
receive_closes m n e (failed why) = omega arith
receive_closes m n e (failed_with r why) = omega arith

is_open-IsQuiet : (m : ℕ) → IsQuiet (is_open m)
is_open-IsQuiet m = record {
  warned = λ w. refl;
  drained = λ k. refl;
  closed = λ k. refl;
  notified = λ i. refl;
  slept = λ d. refl;
}

module _ (f : FloatOps) (e : Engine) (m : ℕ) where
  turn_opens :
      (n : ℕ) (round : Round)
      → tally (is_open m) (turn f e n round).0 ≡ bill m n (gives_response round.attempted)
  turn_opens n round = tally-turn (is_open m) (is_open-IsQuiet m) f e n round

  turn_closes :
      (n : ℕ) (round : Round)
      → tally (is_close m) (turn f e n round).0 + kept_by m n (turn f e n round).1
        ≡ bill m n (gives_response round.attempted)
  unfolding turn
  turn_closes n round =
      let (events, got) = receive e n round.attempted in
      rw (tally-append (is_close m)) (
        omega (
          arith,
          receive_closes m n e round.attempted,
          on_context_closes m n f e round got (receive-IsSound e n round.attempted)
              (context_of round got),
        ))

  run_from_balance :
      (n : ℕ) (rounds : List Round)
      → tally (is_close m) (run_from f e n rounds).0 + kept m (run_from f e n rounds).1
        ≡ tally (is_open m) (run_from f e n rounds).0
  unfolding run_from proceed
  run_from_balance n [] = omega arith
  run_from_balance n (round ∷ rounds) = elim (Step-cases (turn f e n round).1) [
    | inl more ↦
        let here = turn_closes n round in
        rw (more, tally-append (is_close m), tally-append (is_open m), turn_opens n round)
          (omega (arith, rw more at here, run_from_balance (suc n) rounds))
    | inr (r, x, done) ↦
        let here = turn_closes n round in rw (done, turn_opens n round) (rw done at here)
  ]

  bill-le : (n : ℕ) (b : Bool) → bill m n b ≤ 1
  bill-le n false = omega arith
  bill-le n true = ground arith

  bill_of_lt : (n : ℕ) (b : Bool) → m < n → bill m n b ≡ 0
  bill_of_lt n false h = refl
  bill_of_lt n true h = ground arith

  bill_ne : (n : ℕ) (b : Bool) → (m == n) ≡ false → bill m n b ≡ 0
  bill_ne n false h = refl
  bill_ne n true h = rw h

  -- Later attempts do not open an earlier body.
  run_from_opens-zero :
      (n : ℕ) (rounds : List Round) → m < n → tally (is_open m) (run_from f e n rounds).0 ≡ 0
  unfolding run_from proceed
  run_from_opens-zero n [] h = refl
  run_from_opens-zero n (round ∷ rounds) h = elim (Step-cases (turn f e n round).1) [
    | inl more ↦
        rw (more, tally-append (is_open m), turn_opens n round, bill_of_lt n _ h)
          (omega (arith, run_from_opens-zero (suc n) rounds (omega arith)))
    | inr (r, x, done) ↦ rw (done, turn_opens n round) (bill_of_lt n _ h)
  ]

  run_from_opens-le :
      (n : ℕ) (rounds : List Round) → tally (is_open m) (run_from f e n rounds).0 ≤ 1
  unfolding run_from proceed
  run_from_opens-le n [] = omega arith
  run_from_opens-le n (round ∷ rounds) = elim (Step-cases (turn f e n round).1) [
    | inl more ↦
        rw (more, tally-append (is_open m), turn_opens n round)
          (elim (Bool-cases (m == n)) [
            | inl same ↦ omega (
              arith,
              bill-le n (gives_response round.attempted),
              run_from_opens-zero (suc n) rounds (ground arith),
            )
            | inr apart ↦ omega (
              arith,
              bill_ne n (gives_response round.attempted) apart,
              run_from_opens-le (suc n) rounds,
            )
          ])
    | inr (r, x, done) ↦ rw (done, turn_opens n round) (bill-le n _)
  ]

  -- Each attempt's response body is there at most once; it is closed once if the caller does not
  -- get it, and never if the caller gets it; and no other body is closed.
  pub do_attempts_bodies :
      (rounds : List Round)
      → (tally (is_close m) (do_attempts f e rounds).0 + kept m (do_attempts f e rounds).1
          ≡ tally (is_open m) (do_attempts f e rounds).0)
        × (tally (is_open m) (do_attempts f e rounds).0 ≤ 1)
  unfolding do_attempts
  do_attempts_bodies rounds = (run_from_balance 1 rounds, run_from_opens-le 1 rounds)
