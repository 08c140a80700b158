-- ===== src/Cli/Ism/Value/Refl.antt =====
-- That `reflect.DeepEqual` finds a decoded document equal to itself, for internal/cli/ism_policy.go.
use opensearch_api.Prelude.{
  ==_refl, AreDistinct, Bool, Bool-cases, Bytes, ap, bytes_eq, bytes_eq_refl, bytes_eq_sound, false,
  inl, inr, is_listed, is_some, refl, some, sym, true, ◌∙◌, ◌≡◌,
}
use opensearch_api.Json.{
  Items, Json, Members, arr, bool, cons, end, member, nil, null, num, obj, str,
}
use opensearch_api.Cli.Ism.Value.{
  AreMaps, HaveMaps, IsMaps, bool_eq, deep_equal, get_member, items_equal, members_equal,
  members_length, names_of,
}
use opensearch_api.Cli.Ism.Value.Same.{is_listed-names_of}

pub bool_eq_refl : (b : Bool) → bool_eq b b ≡ true
bool_eq_refl true = refl
bool_eq_refl false = refl

abbrev IsWithin : Members → Members → Type 0
IsWithin m n =
    (key : Bytes) (value : Json) → get_member key m ≡ some value → get_member key n ≡ some value

IsWithin-rest :
    (name : Bytes) (first : Json) (rest n : Members)
    → is_listed (names_of rest) name ≡ false
    → IsWithin (member name first rest) n
    → IsWithin rest n
unfolding get_member
IsWithin-rest name first rest n fresh within key value there =
    within key value (elim (Bool-cases (bytes_eq name key)) [
      | inr apart ↦ rw apart there
      | inl same ↦ absurd (
          cc (
            sym fresh
            ∙ is_listed-names_of name rest
            ∙ ap (λ k. is_some (get_member k rest)) (bytes_eq_sound name key same)
            ∙ ap is_some there))
    ])

pub get_member-first :
    (name : Bytes) (first : Json) (rest : Members)
    → get_member name (member name first rest) ≡ some first
unfolding get_member
get_member-first name first rest = rw (bytes_eq_refl name) refl

mutual
  unfolding deep_equal

  -- DeepEqual finds every document equal to itself.
  pub deep_equal_refl : (a : Json) → IsMaps a → deep_equal a a ≡ true
  deep_equal_refl null h = refl
  deep_equal_refl (bool b) h = bool_eq_refl b
  deep_equal_refl (num s) h = bytes_eq_refl s
  deep_equal_refl (str s) h = bytes_eq_refl s
  deep_equal_refl (arr xs) h = items_equal_refl xs h
  deep_equal_refl (obj m) h =
      rw (==_refl (members_length m), members_equal_refl m m h.0 h.1 (λ key value there. there))
        refl

  items_equal_refl : (xs : Items) → AreMaps xs → items_equal xs xs ≡ true
  items_equal_refl nil h = refl
  items_equal_refl (cons x xs) h = rw (deep_equal_refl x h.0, items_equal_refl xs h.1) refl

  members_equal_refl :
      (m n : Members)
      → AreDistinct (names_of m)
      → HaveMaps m
      → IsWithin m n
      → members_equal m n ≡ true
  members_equal_refl end n distinct h within = refl
  members_equal_refl (member name first rest) n distinct h within =
      rw
        (
          within name first (get_member-first name first rest),
          deep_equal_refl first h.0,
          members_equal_refl rest n distinct.1 h.1
              (IsWithin-rest name first rest n distinct.0 within),
        )
        refl
