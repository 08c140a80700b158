-- ===== src/Retry/Predicate.antt =====
-- internal/retry/predicate.go. A compiled jq program is a third-party package's: here it is a
-- function, which gives the values and errors that the iterator emits on a document, in order,
-- while the context is in a given state. A program that runs on without end is cut short by its
-- context, which shows as an emitted context error. `json.Unmarshal` is an argument.
use opensearch_api.Prelude.{
  Bool, Bytes, List, Option, Result, [], codes, err, false, if◌then◌else◌, is_empty, map_err, none,
  ok, some, true, ◌>>=◌, ◌∷◌,
}
use opensearch_api.Errors.{CtxErr, Err, wrap}
use opensearch_api.Json.{Json, bool, null}

pub data Emission : Type 0 where
  emitted : Json → Emission
  failed : Err → Emission

-- The state of a context when it is looked at: `none` while it is alive.
abbrev pub Context : Type 0
Context = Option CtxErr

pub record Predicate : Type 0 where
  pub expr : Bytes
  pub code : Context → Json → List Emission

-- `v != nil && v != false`
unfoldable pub is_truthy : Json → Bool
is_truthy null = false
is_truthy (bool b) = b
is_truthy _ = true

-- The loop over the iterator.
unfoldable pub first_truthy : List Emission → Result Err Bool
first_truthy [] = ok false
first_truthy (failed e ∷ rest) = err e
first_truthy (emitted v ∷ rest) = if is_truthy v then ok true else first_truthy rest

unfoldable pub match_predicate : Predicate → Context → Json → Result Err Bool
match_predicate p c input = first_truthy (p.code c input)

-- CompilePredicate, over the third-party parser and compiler.
unfoldable pub compile_predicate :
    (Bytes → Result Err (Context → Json → List Emission)) → Bytes → Result Err (Option Predicate)
compile_predicate compile expr =
    if is_empty expr
    then ok none
    else do code ← compile expr; ok (some (record { expr = expr; code = code }))

-- Predicate.Match, over `json.Unmarshal`.
unfoldable pub match_body :
    (Bytes → Result Err Json) → Predicate → Context → Bytes → Result Err Bool
match_body unmarshal p c body =
    map_err (λ e. wrap (codes "decoding body for predicate: ") e []) (unmarshal body)
    >>= match_predicate p c
