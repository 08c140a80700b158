-- ===== src/Retry/Classify/Success.antt =====
-- When a response counts as a success.
use opensearch_api.Prelude.{
  Bool, Bool-cases, Bytes, Option, Option-cases, Result, arith, err, false, inl, inr, is_empty,
  none, not, ok, refl, some, true, ℕ, ◌&&◌, ◌≡◌,
}
use opensearch_api.Retry.Predicate.{Context, Predicate, match_predicate}
use opensearch_api.Json.{Json}
use opensearch_api.Errors.{Err}
use opensearch_api.Retry.Classify.{
  Engine, PredicateContexts, Verdict, by_predicates, by_status, by_success, classify,
  contains_status, decode_body, evaluate, has_predicates, is_2xx, matches, settle, success,
}

abbrev pub IsSuccess : Verdict → Type 0
IsSuccess (ok (success, reason)) = Unit
IsSuccess _ = ⊥

module _ (e : Engine) (at : PredicateContexts) (status : ℕ) where
  -- What decides success on a decoded body: SuccessWhen if it is set, else the status.
  abbrev pub AcceptedOn : Option Predicate → Option Json → Type 0
  AcceptedOn none input = is_2xx status ≡ true
  AcceptedOn (some p) input =
      (v : Json) × (input ≡ some v) × (match_predicate p at.at_success_when v ≡ ok true)

  by_status_sound : IsSuccess (by_status status) → is_2xx status ≡ true
  unfolding by_status
  by_status_sound h = ground arith

  by_success_sound : (m : Result Err Bool) → IsSuccess (by_success m) → m ≡ ok true
  unfolding by_success
  by_success_sound (ok true) h = refl
  by_success_sound (ok false) h = absurd h
  by_success_sound (err c) h = absurd h

  settle_sound :
      (p : Predicate) (c : Context) (r : Result Err Bool) → (settle p c r).1 ≡ ok true → r ≡ ok true
  unfolding settle
  settle_sound p c (ok b) h = h
  settle_sound p c (err why) h = ground arith

  matches_sound :
      (c : Context) (p : Predicate) (input : Option Json)
      → (matches c (some p) input).1 ≡ ok true
      → (v : Json) × (input ≡ some v) × (match_predicate p c v ≡ ok true)
  unfolding matches
  matches_sound c p none h = cc
  matches_sound c p (some v) h = (v, refl, settle_sound p c _ h)

  by_predicates_sound :
      (input : Option Json) (m : Result Err Bool)
      → IsSuccess (by_predicates e at status input m).1
      → (m ≡ ok false) × AcceptedOn e.success_when input
  unfolding by_predicates
  by_predicates_sound input (err c) h = absurd h
  by_predicates_sound input (ok true) h = absurd h
  by_predicates_sound input (ok false) h = elim (Option-cases e.success_when) [
    | inl unset ↦ (refl, rw unset (by_status_sound (rw unset at h)))
    | inr (p, set) ↦
        (refl, rw set (matches_sound at.at_success_when p input (by_success_sound _ (rw set at h))))
  ]

decode_body_sound :
    (e : Engine) (body : Bytes) (overflowed : Bool) (v : Json)
    → (decode_body e body overflowed).1 ≡ some v
    → (overflowed ≡ false) × (e.unmarshal body ≡ ok v)
unfolding decode_body
decode_body_sound e body true v h = cc
decode_body_sound e body false v h = ground arith

-- What success asks of the response where SuccessWhen is not set, and where it is.
abbrev pub AcceptedBy : Engine → PredicateContexts → ℕ → Bytes → Bool → Option Predicate → Type 0
AcceptedBy e at status body overflowed none = is_2xx status ≡ true
AcceptedBy e at status body overflowed (some p) =
    (v : Json) × (overflowed ≡ false)
    × (e.unmarshal body ≡ ok v)
    × (match_predicate p at.at_success_when v ≡ ok true)

module _ (e : Engine) (at : PredicateContexts) (status : ℕ) (body : Bytes) (overflowed : Bool) where
  pub record Accepted : Type 0 where
    pub not_retried :
        (matches at.at_retry_when e.retry_when (decode_body e body overflowed).1).1 ≡ ok false
    pub accepted : AcceptedBy e at status body overflowed e.success_when

  AcceptedOn-AcceptedBy :
      (p : Option Predicate)
      → AcceptedOn e at status p (decode_body e body overflowed).1
      → AcceptedBy e at status body overflowed p
  AcceptedOn-AcceptedBy none h = h
  AcceptedOn-AcceptedBy (some p) (v, decoded, matched) =
      let (fits, parsed) = decode_body_sound e body overflowed v decoded in
      (v, fits, parsed, matched)

  evaluate_sound : IsSuccess (evaluate e at status body overflowed).1 → Accepted
  unfolding evaluate
  evaluate_sound h =
      let (calm, accepted) = by_predicates_sound e at status _ _ h in
      record { not_retried = calm; accepted = AcceptedOn-AcceptedBy e.success_when accepted }

  plain_sound : has_predicates e ≡ false → IsSuccess (by_status status) → Accepted
  unfolding has_predicates matches
  plain_sound plain h =
      let no_retry : e.retry_when ≡ none = ground arith in
      let no_success : e.success_when ≡ none = ground arith in
      record {
        not_retried = rw no_retry refl;
        accepted = rw no_success (by_status_sound e at status h);
      }

  -- A response that counts as a success was not asked to be retried by RetryWhen; and where
  -- SuccessWhen is set it matched the response's body, which was no larger than the buffer and was
  -- JSON, while without SuccessWhen the status is a 2xx.
  pub success_sound : IsSuccess (classify e at status body overflowed none).1 → Accepted
  unfolding classify
  success_sound h =
      elim (Bool-cases (not (is_2xx status) && contains_status e.cfg.abort_on status)) [
        | inl denied ↦ absurd (rw denied at h)
        | inr allowed ↦
            elim (Bool-cases (
              not (is_2xx status)
              && not (is_empty e.cfg.retry_on)
              && not (contains_status e.cfg.retry_on status))) [
                | inl unlisted ↦ absurd (rw (allowed, unlisted) at h)
                | inr listed ↦ elim (Bool-cases (has_predicates e)) [
                  | inl guarded ↦ evaluate_sound (rw (allowed, listed, guarded) at h)
                  | inr plain ↦ plain_sound plain (rw (allowed, listed, plain) at h)
                ]
              ]
      ]
