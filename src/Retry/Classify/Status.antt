-- ===== src/Retry/Classify/Status.antt =====
-- The statuses that end the retries, whatever the body says.
use opensearch_api.Prelude.{
  Bool, Bytes, Option, Option-cases, Result, arith, err, false, inl, inr, is_empty, none, ok, true,
  ℕ, ◌↔◌, ◌≡◌, ◌⊎◌,
}
use opensearch_api.Config.Types.{RetryConfig}
use opensearch_api.Errors.{Err}
use opensearch_api.Json.{Json}
use opensearch_api.Retry.Classify.{
  Engine, PredicateContexts, Verdict, by_predicates, by_status, by_success, classify,
  contains_status, evaluate, is_2xx, terminal,
}

-- The deny-list and the allow-list of the documentation: a status is refused by the first if it is
-- on it, and by the second if there is one and it is not on it.
abbrev pub IsRefused : RetryConfig → ℕ → Type 0
IsRefused cfg status =
    (is_2xx status ≡ false)
    × ((contains_status cfg.abort_on status ≡ true)
        ⊎ ((is_empty cfg.retry_on ≡ false) × (contains_status cfg.retry_on status ≡ false)))

abbrev pub IsTerminal : Verdict → Type 0
IsTerminal (ok (terminal, reason)) = Unit
IsTerminal _ = ⊥

by_status-ne-terminal : (status : ℕ) → IsTerminal (by_status status) → ⊥
unfolding by_status
by_status-ne-terminal status h = ground arith

by_success-ne-terminal : (m : Result Err Bool) → IsTerminal (by_success m) → ⊥
unfolding by_success
by_success-ne-terminal (ok true) h = h
by_success-ne-terminal (ok false) h = h
by_success-ne-terminal (err c) h = h

module _ (e : Engine) (at : PredicateContexts) (status : ℕ) where
  by_predicates-ne-terminal :
      (input : Option Json) (m : Result Err Bool)
      → IsTerminal (by_predicates e at status input m).1
      → ⊥
  unfolding by_predicates
  by_predicates-ne-terminal input (err c) h = h
  by_predicates-ne-terminal input (ok true) h = h
  by_predicates-ne-terminal input (ok false) h = elim (Option-cases e.success_when) [
    | inl unset ↦ by_status-ne-terminal status (rw unset at h)
    | inr (p, set) ↦ by_success-ne-terminal _ (rw set at h)
  ]

  -- Predicates alone end nothing for good.
  evaluate-ne-terminal :
      (body : Bytes) (overflowed : Bool) → IsTerminal (evaluate e at status body overflowed).1 → ⊥
  unfolding evaluate
  evaluate-ne-terminal body overflowed = by_predicates-ne-terminal _ _

  terminal_sound :
      (body : Bytes) (overflowed : Bool)
      → IsTerminal (classify e at status body overflowed none).1
      → IsRefused e.cfg status
  unfolding classify
  terminal_sound body overflowed h =
      ground (arith, by_status-ne-terminal status, evaluate-ne-terminal body overflowed)

  IsTerminal-complete :
      (body : Bytes) (overflowed : Bool)
      → IsRefused e.cfg status
      → IsTerminal (classify e at status body overflowed none).1
  unfolding classify
  IsTerminal-complete body overflowed h = ground arith

  -- A response is terminal exactly when its status is refused: by --abort-on or by not being on a
  -- --retry-on list, and only if it is no 2xx. No predicate and no body can change that.
  pub IsTerminal-iff :
      (body : Bytes) (overflowed : Bool)
      → IsTerminal (classify e at status body overflowed none).1 ↔ IsRefused e.cfg status
  IsTerminal-iff body overflowed =
      (terminal_sound body overflowed, IsTerminal-complete body overflowed)
