-- ===== src/Retry/Engine/Results.antt =====
-- What a run returns.
use opensearch_api.Prelude.{
  Bool, Bool-cases, Bytes, List, Option, Option-cases, Result-cases, [], ap, arith, err, false, inl,
  inr, int_eqb, none, ok, pos, refl, some, suc, sym, true, ℕ, ◌∙◌, ◌∷◌, ◌≡◌, ◌⊎◌,
}
use opensearch_api.Errors.{
  Err, Sentinel, is_err, rejected, retries_exhausted, sentinel, sentinel_eq, terminal_status,
}
use opensearch_api.Retry.Predicate.{Context, Predicate, match_predicate}
use opensearch_api.Retry.Classify.{
  Engine, Outcome, PredicateContexts, Verdict, classify, has_predicates, is_2xx, retry, success,
  terminal,
}
use opensearch_api.Retry.Backoff.{FloatOps}
use opensearch_api.Retry.Body.{Response, buffer_body}
use opensearch_api.Retry.Body.Laws.{buffer_body-IsFaithful}
use opensearch_api.Json.{Json}
use opensearch_api.Retry.Classify.Success.{AcceptedBy, IsSuccess, success_sound}
use opensearch_api.Retry.Engine.Trace.{Step-cases}
use opensearch_api.Retry.Engine.{
  Ending, act, back_off, decide, do_attempts, give_up, judge, on_context, pending, proceed,
  returned, run_from, status_of, turn, with_reason,
}
use opensearch_api.Retry.Attempt.{
  Attempted, Received, Round, Step, again, failed, failed_with, finish, receive, receive_response,
  responded,
}

-- What the caller may rely on in a response that comes with no error: without SuccessWhen a 2xx
-- status, and with it a whole body that is JSON and that the predicate matched, in some context.
abbrev pub IsGood : Engine → Option Predicate → Response → Type 0
IsGood e none r = is_2xx r.status ≡ true
IsGood e (some p) r =
    (v : Json) × (c : Context) × (e.unmarshal r.body.unread ≡ ok v)
    × (match_predicate p c v ≡ ok true)

-- A returned response and error that make sense together: no error comes with a good response, and
-- an error with a response is one of the three that the engine gives to a response that it judged.
abbrev pub IsVerdictError : Err → Type 0
IsVerdictError x =
    (is_err x terminal_status ≡ true)
    ⊎ ((is_err x retries_exhausted ≡ true) ⊎ (is_err x rejected ≡ true))

abbrev pub IsConsistent : Engine → Option Response → Option Err → Type 0
IsConsistent e none none = ⊥
IsConsistent e (some r) none = IsGood e e.success_when r
IsConsistent e none (some x) = Unit
IsConsistent e (some r) (some x) = IsVerdictError x

abbrev StepIsConsistent : Engine → Step → Type 0
StepIsConsistent e (finish response error) = IsConsistent e response error
StepIsConsistent e again = Unit

-- What is known of a received response: without an error there is one, and what was buffered of it
-- is its body, unless that overflowed.
record IsReceived (e : Engine) (got : Received) : Type 0 where
  there : got.cause ≡ none → (r : Response) × (got.response ≡ some r)
  whole :
      (r : Response)
      → got.response ≡ some r
      → has_predicates e ≡ true
      → got.cause ≡ none
      → got.overflowed ≡ false
      → got.buf ≡ r.body.unread

abbrev unread_of : Option Response → Bytes
unread_of none = []
unread_of (some r) = r.body.unread

receive_response-IsReceived :
    (e : Engine) (n : ℕ) (r : Response) → IsReceived e (receive_response e n r).1
unfolding receive_response
receive_response-IsReceived e n r = elim (Bool-cases (has_predicates e)) [
  | inl judged ↦ elim (Result-cases (buffer_body r.body e.cfg.max_body_buffer)) [
    | inl (b, read) ↦
        let faithful = buffer_body-IsFaithful r.body e.cfg.max_body_buffer b read in
        rw (judged, read)
          (record {
            there = λ _. (record r { body = b.body }, refl);
            whole = λ r' same p c fits.
                faithful.whole fits
                ∙ sym faithful.same_bytes
                ∙ ap (λ (x : Option Response). unread_of x) same;
          })
    | inr (why, broken) ↦
        rw (judged, broken) (record { there = λ h. absurd (cc); whole = λ r' h p c. absurd (cc) })
  ]
  | inr plain ↦
      rw plain
        (record { there = λ _. (r, refl); whole = λ r' same p c fits. absurd (cc (plain, p)) })
]

receive-IsReceived : (e : Engine) (n : ℕ) (a : Attempted) → IsReceived e (receive e n a).1
unfolding receive
receive-IsReceived e n (responded r) = receive_response-IsReceived e n r
receive-IsReceived e n (failed why) = record {
  there = λ h. absurd (cc);
  whole = λ r h. absurd (cc);
}
receive-IsReceived e n (failed_with r why) = record {
  there = λ h. absurd (cc);
  whole = λ r h p c. absurd (cc);
}

error-IsConsistent :
    (e : Engine) (o : Option Response) (x : Err) → IsVerdictError x → IsConsistent e o (some x)
error-IsConsistent e none x h = tt
error-IsConsistent e (some r) x h = h

with_reason-is_err :
    (before : Bytes) (s : Sentinel) (reason : Bytes)
    → is_err (with_reason before (sentinel s) reason) s ≡ sentinel_eq s s
with_reason-is_err before s [] = refl
with_reason-is_err before s (c ∷ reason) = refl

classify_broken :
    (e : Engine) (at : PredicateContexts) (status : ℕ) (body : Bytes) (overflowed : Bool)
    (why : Err)
    → IsSuccess (classify e at status body overflowed (some why)).1
    → ⊥
unfolding classify
classify_broken e at status body overflowed why h = h

module _ (f : FloatOps) (e : Engine) (n : ℕ) (round : Round) (got : Received) where
  give_up-IsConsistent : (reason : Bytes) → StepIsConsistent e (give_up e.cfg n got reason).1
  unfolding give_up
  give_up-IsConsistent reason = elim (Option-cases got.cause) [
    | inl calm ↦ elim (Bool-cases (int_eqb e.cfg.max_retries (pos 0))) [
      | inl single ↦
          rw (calm, single)
            (error-IsConsistent e got.response _ (inr (inr (with_reason-is_err _ rejected reason))))
      | inr several ↦
          rw (calm, several)
            (error-IsConsistent e got.response _
              (inr (inl (with_reason-is_err _ retries_exhausted reason))))
    ]
    | inr (why, broken) ↦ elim (Bool-cases (int_eqb e.cfg.max_retries (pos 0))) [
      | inl single ↦ rw (broken, single) tt
      | inr several ↦ rw (broken, several) tt
    ]
  ]

  back_off-IsConsistent : (reason : Bytes) → StepIsConsistent e (back_off f e n round got reason).1
  unfolding back_off
  back_off-IsConsistent reason = ground arith

  -- A verdict of success is about a good response that is there.
  abbrev IsSure : Verdict → Type 0
  IsSure v = IsSuccess v → (r : Response) × (got.response ≡ some r) × IsGood e e.success_when r

  act-IsConsistent :
      (o : Outcome × Bytes) → IsSure (ok o) → StepIsConsistent e (act f e n round got o).1
  unfolding act
  act-IsConsistent (success, reason) sure = let (r, is, good) = sure tt in rw is good
  act-IsConsistent (terminal, reason) sure = error-IsConsistent e got.response _ (inl refl)
  act-IsConsistent (retry, reason) sure =
      ground (arith, give_up-IsConsistent reason, back_off-IsConsistent reason)

  decide-IsConsistent : (v : Verdict) → IsSure v → StepIsConsistent e (decide f e n round got v).1
  unfolding decide
  decide-IsConsistent (err c) sure = tt
  decide-IsConsistent (ok o) sure = act-IsConsistent o sure

  module _ (known : IsReceived e got) where
    accepted-IsGood :
        (p : Option Predicate) (r : Response)
        → e.success_when ≡ p
        → got.cause ≡ none
        → got.response ≡ some r
        → AcceptedBy e round.ctx_at_predicates (status_of got.response) got.buf got.overflowed p
        → IsGood e p r
    accepted-IsGood none r set calm is h = rw is at h
    accepted-IsGood (some p) r set calm is (v, fits, parsed, matched) =
        let guarded : has_predicates e ≡ true = unfold has_predicates in ground arith in
        let same = known.whole r is guarded calm fits in
        (v, round.ctx_at_predicates.at_success_when, rw (← same) parsed, matched)

    classify-IsSure :
        IsSure
          (classify e round.ctx_at_predicates
            (status_of got.response)
            got.buf
            got.overflowed
            got.cause).1
    classify-IsSure h = elim (Option-cases got.cause) [
      | inl calm ↦
          let (r, is) = known.there calm in
          let accepted =
            success_sound e round.ctx_at_predicates (status_of got.response) got.buf got.overflowed
              (rw calm at h) in
          (r, is, accepted-IsGood e.success_when r refl calm is accepted.accepted)
      | inr (why, broken) ↦
          absurd (classify_broken e round.ctx_at_predicates _ _ _ why (rw broken at h))
    ]

    on_context-IsConsistent : (c : Option Err) → StepIsConsistent e (on_context f e n round got c).1
    unfolding on_context judge
    on_context-IsConsistent (some c) = tt
    on_context-IsConsistent none = decide-IsConsistent _ classify-IsSure

turn-IsConsistent :
    (f : FloatOps) (e : Engine) (n : ℕ) (round : Round) → StepIsConsistent e (turn f e n round).1
unfolding turn
turn-IsConsistent f e n round =
    on_context-IsConsistent f e n round _ (receive-IsReceived e n round.attempted) _

abbrev pub EndingIsConsistent : Engine → Ending → Type 0
EndingIsConsistent e (returned n response error) = IsConsistent e response error
EndingIsConsistent e pending = Unit

run_from-IsConsistent :
    (f : FloatOps) (e : Engine) (n : ℕ) (rounds : List Round)
    → EndingIsConsistent e (run_from f e n rounds).1
unfolding run_from proceed
run_from-IsConsistent f e n [] = tt
run_from-IsConsistent f e n (round ∷ rounds) = elim (Step-cases (turn f e n round).1) [
  | inl more ↦ rw more (run_from-IsConsistent f e (suc n) rounds)
  | inr (r, x, done) ↦ rw done (rw done at (turn-IsConsistent f e n round))
]

-- Whatever the world answers, a run that returns no error returns a response, which without
-- SuccessWhen has a 2xx status and with it a body that is JSON as a whole and that the predicate
-- matched; and an error that comes with a response is a terminal status, exhausted retries or a
-- rejected single attempt.
pub do_attempts-IsConsistent :
    (f : FloatOps) (e : Engine) (rounds : List Round)
    → EndingIsConsistent e (do_attempts f e rounds).1
unfolding do_attempts
do_attempts-IsConsistent f e rounds = run_from-IsConsistent f e 1 rounds
