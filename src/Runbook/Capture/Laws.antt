-- ===== src/Runbook/Capture/Laws.antt =====
-- What a run's store holds after an extraction.
use opensearch_api.Prelude.{
  All, Bool, Bytes, List, Result, [], all, arith, bytes_eq_refl, err, is_some, ok, refl, suc, true,
  ℕ, ℤ, ◌∷◌, ◌≡◌,
}
use opensearch_api.Errors.{Err}
use opensearch_api.Json.{Json}
use opensearch_api.Retry.Predicate.{Context}
use opensearch_api.Runbook.Template.{Store}
use opensearch_api.Runbook.Capture.{
  Capture, Extracted, FloatText, extract_captures, extract_decoded, extract_each, store_set,
  store_then,
}

abbrev pub HasName : Store → Bytes → Type 0
HasName store name = is_some (store name) ≡ true

-- Every name that is set before is set after.
abbrev pub IsGrown : Store → Store → Type 0
IsGrown before after = (name : Bytes) → HasName before name → HasName after name

IsGrown-store_set :
    (store : Store) (name value : Bytes) → IsGrown store (store_set name value store)
IsGrown-store_set store name value name2 h = ground arith

HasName-store_set : (store : Store) (name value : Bytes) → HasName (store_set name value store) name
HasName-store_set store name value = rw (bytes_eq_refl name) refl

abbrev pub IsCaptured : Store → List Capture → Type 0
IsCaptured store captures = All (λ c. HasName store c.name) captures

-- What an extraction promises: what was set stays set, and if it succeeds every capture is set.
abbrev pub IsExtraction : Store → List Capture → Extracted → Type 0
IsExtraction store captures out = IsGrown store out.1 × (out.0 ≡ ok tt → IsCaptured out.1 captures)

store_then-IsExtraction :
    (c : Capture) (cs : List Capture) (store : Store) (r : Result Err Bytes)
    (rest : Store → Extracted)
    → ((after : Store) → IsExtraction after cs (rest after))
    → IsExtraction store (c ∷ cs) (store_then c store r rest)
store_then-IsExtraction c cs store (err e) rest same = (λ name h. h, λ fine. cc)
store_then-IsExtraction c cs store (ok value) rest same =
    let (grown, all) = same (store_set c.name value store) in
    (
      λ name h. grown name (IsGrown-store_set store c.name value name h),
      λ fine. (grown c.name (HasName-store_set store c.name value), all fine),
    )

extract_each-IsExtraction :
    (floats : FloatText) (at : ℕ → Context) (input : Json) (i : ℕ) (captures : List Capture)
    (store : Store)
    → IsExtraction store captures (extract_each floats at input i captures store)
unfolding extract_each
extract_each-IsExtraction floats at input i [] store = (λ name h. h, λ _. tt)
extract_each-IsExtraction floats at input i (c ∷ cs) store =
    store_then-IsExtraction c cs store _ _ (extract_each-IsExtraction floats at input (suc i) cs)

extract_decoded-IsExtraction :
    (floats : FloatText) (at : ℕ → Context) (c : Capture) (cs : List Capture) (store : Store)
    (decoded : Result Err Json)
    → IsExtraction store (c ∷ cs) (extract_decoded floats at c cs store decoded)
unfolding extract_decoded
extract_decoded-IsExtraction floats at c cs store (err e) = (λ name h. h, λ fine. cc)
extract_decoded-IsExtraction floats at c cs store (ok input) =
    extract_each-IsExtraction floats at input 0 (c ∷ cs) store

-- An extraction unsets nothing that the store holds, also when it fails, and one that succeeds sets
-- the name of every capture.
pub extract_captures-IsExtraction :
    (floats : FloatText) (decode : Bytes → Result Err Json) (at : ℕ → Context)
    (captures : List Capture) (body : Bytes) (truncated : Bool) (max_buffer : ℤ) (store : Store)
    → IsExtraction store captures
        (extract_captures floats decode at captures body truncated max_buffer store)
unfolding extract_captures
extract_captures-IsExtraction floats decode at [] body truncated max_buffer store =
    (λ name h. h, λ _. tt)
extract_captures-IsExtraction floats decode at (c ∷ cs) body truncated max_buffer store =
    extract_decoded-IsExtraction floats at c cs store _
