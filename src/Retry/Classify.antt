-- ===== src/Retry/Classify.antt =====
-- internal/retry/classify.go: what one attempt amounts to. `fmt.Fprintf` to the warning writer is a
-- list of warnings beside the result.
pub mod Status
pub mod Success
use opensearch_api.Prelude.{
  Bool, Bytes, List, Option, Result, [], any, codes, err, false, if◌then◌else◌, int_eqb, is_empty,
  is_some, leb, ltb, none, not, ok, pos, some, true, ℕ, ℤ, ◌&&◌, ◌++◌, ◌||◌, ◌∷◌,
}
use opensearch_api.Errors.{Err, canceled, ctx, ctx_error, deadline_exceeded, is_err}
use opensearch_api.Json.{Json}
use opensearch_api.Config.Types.{RetryConfig}
use opensearch_api.Retry.Predicate.{Context, Predicate, match_predicate}

pub data Outcome : Type 0 where
  success retry terminal : Outcome

pub data Warning : Type 0 where
  body_exceeds : ℤ → Warning
  empty_body : Warning
  invalid_json : Err → Warning
  predicate_failed : Bytes → Err → Warning

-- The part of the engine that does not change: its configuration, the compiled predicates, whether
-- there is an OnRetry hook, and `json.Unmarshal`.
pub record Engine : Type 0 where
  pub cfg : RetryConfig
  pub retry_when : Option Predicate
  pub success_when : Option Predicate
  pub has_hook : Bool
  pub unmarshal : Bytes → Result Err Json

-- The context when each predicate is run.
pub record PredicateContexts : Type 0 where
  pub at_retry_when : Context
  pub at_success_when : Context

-- A result with the warnings that came before it.
abbrev pub Warned : Type 0 → Type 0
Warned A = List Warning × A

unfoldable pub has_predicates : Engine → Bool
has_predicates e = is_some e.retry_when || is_some e.success_when

-- The context's own error if it is done, else `err` if that is a context error.
unfoldable pub context_error : Context → Err → Option Err
context_error (some c) e = some (ctx_error c)
context_error none e =
    if is_err e (ctx canceled) || is_err e (ctx deadline_exceeded) then some e else none

-- `slices.Contains(codes, status)`
unfoldable pub contains_status : List ℤ → ℕ → Bool
contains_status list status = any (λ code. int_eqb code (pos status)) list

unfoldable pub is_2xx : ℕ → Bool
is_2xx status = leb 200 status && ltb status 300

unfoldable pub decode_body : Engine → Bytes → Bool → Warned (Option Json)
decode_body e body true = (body_exceeds e.cfg.max_body_buffer ∷ [], none)
decode_body e body false =
    if is_empty body then (empty_body ∷ [], none) else elim (e.unmarshal body) [
      | ok input ↦ ([], some input)
      | err why ↦ (invalid_json why ∷ [], none)
    ]

-- `matches` behind its evaluation.
settle : Predicate → Context → Result Err Bool → Warned (Result Err Bool)
settle p c (ok matched) = ([], ok matched)
settle p c (err why) = elim (context_error c why) [
  | some ctx_err ↦ ([], err ctx_err)
  | none ↦ (predicate_failed p.expr why ∷ [], ok false)
]

unfoldable pub matches : Context → Option Predicate → Option Json → Warned (Result Err Bool)
unfolding settle
matches c none input = ([], ok false)
matches c (some p) none = ([], ok false)
matches c (some p) (some input) = settle p c (match_predicate p c input)

abbrev pub retry_when_matched : Bytes
retry_when_matched = codes "--retry-when matched"

abbrev pub success_when_unsatisfied : Bytes
success_when_unsatisfied = codes "--success-when not satisfied"

-- The outcome and the reason, or the context error that the loop must return.
abbrev pub Verdict : Type 0
Verdict = Result Err (Outcome × Bytes)

-- The end of `classify`, by the status alone.
unfoldable pub by_status : ℕ → Verdict
by_status status = if is_2xx status then ok (success, []) else ok (retry, [])

-- What follows from the match of SuccessWhen.
by_success : Result Err Bool → Verdict
by_success (err c) = err c
by_success (ok true) = ok (success, [])
by_success (ok false) = ok (retry, success_when_unsatisfied)

-- What follows from the match of RetryWhen.
by_predicates : Engine → PredicateContexts → ℕ → Option Json → Result Err Bool → Warned Verdict
by_predicates e at status input (err c) = ([], err c)
by_predicates e at status input (ok true) = ([], ok (retry, retry_when_matched))
by_predicates e at status input (ok false) = elim e.success_when [
  | none ↦ ([], by_status status)
  | some p ↦
      let (warnings, matched) = matches at.at_success_when (some p) input in
      (warnings, by_success matched)
]

evaluate : Engine → PredicateContexts → ℕ → Bytes → Bool → Warned Verdict
evaluate e at status body overflowed =
    let (w1, input) = decode_body e body overflowed in
    let (w2, matched) = matches at.at_retry_when e.retry_when input in
    let (w3, verdict) = by_predicates e at status input matched in (w1 ++ w2 ++ w3, verdict)

unfoldable pub classify :
    Engine → PredicateContexts → ℕ → Bytes → Bool → Option Err → Warned Verdict
unfolding by_predicates by_success evaluate
classify e at status body overflowed (some transport) = ([], ok (retry, []))
classify e at status body overflowed none =
    if not (is_2xx status) && contains_status e.cfg.abort_on status
    then ([], ok (terminal, []))
    else if not (is_2xx status)
        && not (is_empty e.cfg.retry_on)
        && not (contains_status e.cfg.retry_on status)
    then ([], ok (terminal, []))
    else if has_predicates e
    then evaluate e at status body overflowed
    else ([], by_status status)
