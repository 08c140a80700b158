-- ===== src/Cli/Ism/Value.antt =====
-- Decoded JSON as Go values, for internal/cli/ism_policy.go: maps from names to values and what
-- `reflect.DeepEqual` sees of them. The members of an object stand for a map: each name has one.
pub mod Shape
pub mod Same
pub mod Refl
pub mod Complete
use opensearch_api.Prelude.{
  AreDistinct, Bool, Bytes, List, Option, [], bytes_eq, false, if◌then◌else◌, none, not, some, suc,
  true, ℕ, ◌&&◌, ◌==◌, ◌∷◌,
}
use opensearch_api.Json.{
  Items, Json, Members, arr, bool, cons, end, member, nil, null, num, obj, str,
}

unfoldable pub get_member : Bytes → Members → Option Json
get_member key end = none
get_member key (member name value rest) =
    let found = get_member key rest in if bytes_eq name key then some value else found

-- `delete(m, key)`
unfoldable pub delete_member : Bytes → Members → Members
delete_member key end = end
delete_member key (member name value rest) =
    let others = delete_member key rest in
    if bytes_eq name key then others else member name value others

-- `m[key] = value`
unfoldable pub set_member : Bytes → Json → Members → Members
set_member key value members = member key value (delete_member key members)

abbrev pub names_of : Members → List Bytes
names_of end = []
names_of (member name value rest) = name ∷ names_of rest

abbrev pub items_length : Items → ℕ
items_length nil = 0
items_length (cons x xs) = suc (items_length xs)

abbrev pub members_length : Members → ℕ
members_length end = 0
members_length (member name value rest) = suc (members_length rest)

abbrev pub bool_eq : Bool → Bool → Bool
bool_eq true b = b
bool_eq false b = not b

-- `reflect.DeepEqual`: two maps are equal if they have as many names and each name of the one has an
-- equal value in the other. A json.Number is compared as text.
unfoldable mutual
  pub deep_equal : Json → Json → Bool
  deep_equal null null = true
  deep_equal (bool b) (bool c) = bool_eq b c
  deep_equal (num s) (num t) = bytes_eq s t
  deep_equal (str s) (str t) = bytes_eq s t
  deep_equal (arr xs) (arr ys) = items_equal xs ys
  deep_equal (obj a) (obj b) = (members_length a == members_length b) && members_equal a b
  deep_equal _ _ = false

  pub items_equal : Items → Items → Bool
  items_equal nil nil = true
  items_equal (cons x xs) (cons y ys) = deep_equal x y && items_equal xs ys
  items_equal _ _ = false

  pub members_equal : Members → Members → Bool
  members_equal end b = true
  members_equal (member name value rest) b =
      (elim (get_member name b) [ none ↦ false | some other ↦ deep_equal value other ])
      && members_equal rest b

-- Each object of a document has no name twice, as in a Go map.
abbrev mutual
  pub IsMaps : Json → Type 0
  IsMaps (arr xs) = AreMaps xs
  IsMaps (obj members) = AreDistinct (names_of members) × HaveMaps members
  IsMaps _ = Unit

  pub AreMaps : Items → Type 0
  AreMaps nil = Unit
  AreMaps (cons x xs) = IsMaps x × AreMaps xs

  pub HaveMaps : Members → Type 0
  HaveMaps end = Unit
  HaveMaps (member name value rest) = IsMaps value × HaveMaps rest
