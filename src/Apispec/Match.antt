-- ===== src/Apispec/Match.antt =====
-- internal/apispec/apispec.go, MatchTemplate, MethodsFor and BodySkeleton. The generated tables
-- `Paths` and `Bodies` are arguments, and so is the JSON encoding of a key.
pub mod Best
use opensearch_api.Prelude.{
  Bool, Bytes, List, Option, [], bytes_eq, codes, false, has_prefix, if◌then◌else◌, is_empty,
  length, ltb, none, some, split_on, suc, to_upper, ℕ, ◌&&◌, ◌++◌, ◌==◌, ◌||◌, ◌∷◌,
}

pub record Endpoint : Type 0 where
  pub template : Bytes
  pub methods : List Bytes

pub record BodyField : Type 0 where
  pub name : Bytes
  pub type_name : Bytes

-- `strings.TrimPrefix(s, "/")`
unfoldable pub trim_slash : Bytes → Bytes
trim_slash [] = []
trim_slash (c ∷ s) = if c == b'/' then s else c ∷ s

abbrev pub ends_with : ℕ → Bytes → Bool
ends_with last [] = false
ends_with last (c ∷ s) = if is_empty s then c == last else ends_with last s

unfoldable pub is_param : Bytes → Bool
is_param seg = has_prefix seg (codes "{") && ends_with b'}' seg

abbrev pub count_one : Option ℕ → Option ℕ
count_one none = none
count_one (some n) = some (suc n)

-- The loop over the segments of a template: how many of them are parameters, if it matches.
unfoldable pub match_segments : List Bytes → List Bytes → Option ℕ
match_segments [] segs = some 0
match_segments (t ∷ ts) [] = none
match_segments (t ∷ ts) (seg ∷ segs) =
    let rest = match_segments ts segs in
    if is_param t then count_one rest else if bytes_eq t seg then rest else none

abbrev pub segments : Bytes → List Bytes
segments template = split_on b'/' (trim_slash template)

unfoldable pub match_endpoint : List Bytes → Endpoint → Option ℕ
match_endpoint segs ep =
    if length (segments ep.template) == length segs
    then match_segments (segments ep.template) segs
    else none

-- The best template so far with its number of parameters; `bestParams == -1` is `none`.
abbrev pub Best : Type 0
Best = Option (Bytes × ℕ)

unfoldable pub take_better : Best → Endpoint → Option ℕ → Best
take_better best ep none = best
take_better none ep (some params) = some (ep.template, params)
take_better (some (template, least)) ep (some params) =
    if ltb params least then some (ep.template, params) else some (template, least)

unfoldable pub best_of : List Bytes → Best → List Endpoint → Best
best_of segs best [] = best
best_of segs best (ep ∷ eps) = best_of segs (take_better best ep (match_endpoint segs ep)) eps

abbrev pub template_of : Best → Option Bytes
template_of none = none
template_of (some (template, params)) = some template

unfoldable pub match_template : List Endpoint → Bytes → Option Bytes
match_template paths path =
    if is_empty (trim_slash path) then none else template_of (best_of (segments path) none paths)

-- `MethodsFor`
unfoldable pub methods_for : List Endpoint → Bytes → Option (List Bytes)
methods_for [] typed = none
methods_for (ep ∷ eps) typed =
    let rest = methods_for eps typed in
    if bytes_eq (trim_slash ep.template) (trim_slash typed) then some ep.methods else rest

unfoldable pub placeholder : Bytes → Bytes
placeholder typ =
    if bytes_eq typ (codes "string")
    then b'"' ∷ b'"' ∷ []
    else if bytes_eq typ (codes "integer") || bytes_eq typ (codes "number")
    then codes "0"
    else if bytes_eq typ (codes "boolean")
    then codes "false"
    else if bytes_eq typ (codes "object")
    then codes "{}"
    else if bytes_eq typ (codes "array")
    then codes "[]"
    else codes "null"

-- The lines of the loop of BodySkeleton.
unfoldable pub skeleton_lines : (Bytes → Bytes) → List BodyField → Bytes
skeleton_lines marshal [] = []
skeleton_lines marshal (f ∷ fields) =
    codes "  "
    ++ marshal f.name
    ++ codes ": "
    ++ placeholder f.type_name
    ++ (if is_empty fields then [] else codes ",")
    ++ (10 ∷ [])
    ++ skeleton_lines marshal fields

abbrev pub skeleton_of : (Bytes → Bytes) → Option (List BodyField) → Option Bytes
skeleton_of marshal none = none
skeleton_of marshal (some fields) = some (b'{' ∷ 10 ∷ skeleton_lines marshal fields ++ codes "}")

unfoldable pub body_skeleton :
    List Endpoint
    → (Bytes → Option (List BodyField))
    → (Bytes → Bytes)
    → Bytes
    → Bytes
    → Option Bytes
body_skeleton paths bodies marshal path method = elim (match_template paths path) [
  | none ↦ none
  | some template ↦ skeleton_of marshal (bodies (to_upper method ++ codes " " ++ template))
]
