-- ===== src/Cli/Ism/Value/Shape.antt =====
-- What stands at each place of a document: a view of Go values that does not know the order of a map.
use opensearch_api.Prelude.{Bool, Bytes, List, Option, [], none, refl, some, suc, zero, ℕ, ◌∷◌, ◌≡◌}
use opensearch_api.Json.{Items, Json, Members, arr, bool, cons, nil, null, num, obj, str}
use opensearch_api.Cli.Ism.Value.{get_member, items_length}

-- A step into a document, and what stands at a place of one.
pub data Step : Type 0 where
  at_key : Bytes → Step
  at_index : ℕ → Step

pub data Shape : Type 0 where
  is_null is_obj : Shape
  is_bool : Bool → Shape
  is_num is_str : Bytes → Shape
  is_arr : ℕ → Shape

abbrev pub shape_of : Json → Shape
shape_of null = is_null
shape_of (bool b) = is_bool b
shape_of (num s) = is_num s
shape_of (str s) = is_str s
shape_of (arr xs) = is_arr (items_length xs)
shape_of (obj members) = is_obj

abbrev pub get_item : ℕ → Items → Option Json
get_item i nil = none
get_item zero (cons x xs) = some x
get_item (suc i) (cons x xs) = get_item i xs

abbrev pub shape_at : List Step → Json → Option Shape
shape_at [] v = some (shape_of v)
shape_at (at_key key ∷ p) (obj members) = elim (get_member key members) [
  | none ↦ none
  | some v ↦ shape_at p v
]
shape_at (at_key key ∷ p) _ = none
shape_at (at_index i ∷ p) (arr xs) = elim (get_item i xs) [ none ↦ none | some v ↦ shape_at p v ]
shape_at (at_index i ∷ p) _ = none

abbrev pub shape_in : List Step → Option Json → Option Shape
shape_in p o = elim o [ none ↦ none | some v ↦ shape_at p v ]

pub shape_at-obj :
    (key : Bytes) (p : List Step) (members : Members)
    → shape_at (at_key key ∷ p) (obj members) ≡ shape_in p (get_member key members)
shape_at-obj key p members = refl

-- Two documents have the same at every place.
abbrev pub SameJson : Json → Json → Type 0
SameJson a b = (p : List Step) → shape_at p a ≡ shape_at p b
