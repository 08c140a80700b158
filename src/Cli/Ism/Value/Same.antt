-- ===== src/Cli/Ism/Value/Same.antt =====
-- What two values have in common that `reflect.DeepEqual` finds equal, for internal/cli/ism_policy.go.
use opensearch_api.Prelude.{
  ==_iff, AreDistinct, Bool, Bool-cases, Bytes, List, Option-cases, [], ap, arith, bytes_eq,
  bytes_eq_sound, false, inl, inr, is_listed, is_some, length, none, pigeonhole, refl, some, subst,
  suc, sym, true, zero, ℕ, ◌&&◌, ◌==◌, ◌∙◌, ◌∷◌, ◌≡◌, ◌≢◌,
}
use opensearch_api.Json.{
  Items, Json, Members, arr, bool, cons, end, member, nil, null, num, obj, str,
}
use opensearch_api.Cli.Ism.Value.Shape.{
  SameJson, Step, at_index, at_key, is_arr, shape_at, shape_at-obj, shape_in,
}
use opensearch_api.Cli.Ism.Value.{
  AreMaps, HaveMaps, IsMaps, bool_eq, deep_equal, get_member, items_equal, items_length,
  members_equal, members_length, names_of,
}

both-left : (a b : Bool) → (a && b) ≡ true → a ≡ true
both-left true b h = refl
both-left false b h = absurd (cc)

both-right : (a b : Bool) → (a && b) ≡ true → b ≡ true
both-right true b h = h
both-right false b h = absurd (cc)

bool_eq_sound : (b c : Bool) → bool_eq b c ≡ true → b ≡ c
bool_eq_sound true c h = sym h
bool_eq_sound false true h = absurd (cc)
bool_eq_sound false false h = refl

pub is_listed-names_of :
    (key : Bytes) (members : Members)
    → is_listed (names_of members) key ≡ is_some (get_member key members)
unfolding get_member
is_listed-names_of key end = refl
is_listed-names_of key (member name value rest) = ground (arith, is_listed-names_of key rest)

pub length-names_of : (m : Members) → length (names_of m) ≡ members_length m
length-names_of end = refl
length-names_of (member name value rest) = ap suc (length-names_of rest)

members_equal-is_listed :
    (m n : Members)
    → members_equal m n ≡ true
    → (key : Bytes) → is_listed (names_of m) key ≡ true
    → is_listed (names_of n) key ≡ true
unfolding deep_equal
members_equal-is_listed end n h key listed = absurd (cc)
members_equal-is_listed (member name value rest) n h key listed =
    elim (Option-cases (get_member name n)) [
      | inl missing ↦ absurd (cc (rw missing at h))
      | inr (other, found) ↦ elim (Bool-cases (bytes_eq name key)) [
        | inl same ↦
            ap (is_listed (names_of n)) (sym (bytes_eq_sound name key same))
            ∙ is_listed-names_of name n
            ∙ ap is_some found
        | inr apart ↦
            members_equal-is_listed rest n (both-right _ _ (rw found at h)) key (rw apart at listed)
      ]
    ]

no_more :
    (m n : Members)
    → AreDistinct (names_of m)
    → ((key : Bytes) → is_listed (names_of m) key ≡ true → is_listed (names_of n) key ≡ true)
    → (members_length m == members_length n) ≡ true
    → (key : Bytes) → get_member key m ≡ none
    → get_member key n ≡ none
no_more m n distinct among size key missing =
    let gone =
      pigeonhole (names_of m) (names_of n) distinct among
        (omega (
          arith,
          length-names_of m,
          length-names_of n,
          (==_iff (members_length m) (members_length n)).0 size,
        ))
        key (is_listed-names_of key m ∙ ap is_some missing) in
    elim (Option-cases (get_member key n)) [
      | inl none? ↦ none?
      | inr (value, there) ↦ absurd (cc (sym gone ∙ is_listed-names_of key n ∙ ap is_some there))
    ]

pub HaveMaps-get_member :
    (m : Members) (key : Bytes) (value : Json)
    → HaveMaps m
    → get_member key m ≡ some value
    → IsMaps value
unfolding get_member
HaveMaps-get_member end key value maps there = absurd (cc)
HaveMaps-get_member (member name first rest) key value (h, hs) there =
    elim (Bool-cases (bytes_eq name key)) [
      | inl same ↦
          let e : some first ≡ some value = rw same at there in
          let e' : first ≡ value = cc in subst IsMaps e' h
      | inr apart ↦ HaveMaps-get_member rest key value hs (rw apart at there)
    ]

value_of_first :
    (name key : Bytes) (first value : Json) (rest : Members)
    → bytes_eq name key ≡ true
    → get_member key (member name first rest) ≡ some value
    → first ≡ value
unfolding get_member
value_of_first name key first value rest same there =
    let e : some first ≡ some value = rw same at there in cc

get_member-end : (key : Bytes) (value : Json) → get_member key end ≢ some value
unfolding get_member
get_member-end key value there = cc

later_value :
    (name key : Bytes) (first value : Json) (rest : Members)
    → bytes_eq name key ≡ false
    → get_member key (member name first rest) ≡ some value
    → get_member key rest ≡ some value
unfolding get_member
later_value name key first value rest apart there = rw apart at there

mutual
  unfolding deep_equal

  -- DeepEqual finds two documents equal only if they have the same at every place.
  pub deep_equal-SameJson :
      (a b : Json) → IsMaps a → IsMaps b → deep_equal a b ≡ true → SameJson a b
  deep_equal-SameJson null null ma mb h p = refl
  deep_equal-SameJson null (bool c) ma mb h p = absurd (cc)
  deep_equal-SameJson null (num t) ma mb h p = absurd (cc)
  deep_equal-SameJson null (str t) ma mb h p = absurd (cc)
  deep_equal-SameJson null (arr ys) ma mb h p = absurd (cc)
  deep_equal-SameJson null (obj n) ma mb h p = absurd (cc)
  deep_equal-SameJson (bool b) null ma mb h p = absurd (cc)
  deep_equal-SameJson (bool b) (bool c) ma mb h p = ap (shape_at p) (ap bool (bool_eq_sound b c h))
  deep_equal-SameJson (bool b) (num t) ma mb h p = absurd (cc)
  deep_equal-SameJson (bool b) (str t) ma mb h p = absurd (cc)
  deep_equal-SameJson (bool b) (arr ys) ma mb h p = absurd (cc)
  deep_equal-SameJson (bool b) (obj n) ma mb h p = absurd (cc)
  deep_equal-SameJson (num s) null ma mb h p = absurd (cc)
  deep_equal-SameJson (num s) (bool c) ma mb h p = absurd (cc)
  deep_equal-SameJson (num s) (num t) ma mb h p = ap (shape_at p) (ap num (bytes_eq_sound s t h))
  deep_equal-SameJson (num s) (str t) ma mb h p = absurd (cc)
  deep_equal-SameJson (num s) (arr ys) ma mb h p = absurd (cc)
  deep_equal-SameJson (num s) (obj n) ma mb h p = absurd (cc)
  deep_equal-SameJson (str s) null ma mb h p = absurd (cc)
  deep_equal-SameJson (str s) (bool c) ma mb h p = absurd (cc)
  deep_equal-SameJson (str s) (num t) ma mb h p = absurd (cc)
  deep_equal-SameJson (str s) (str t) ma mb h p = ap (shape_at p) (ap str (bytes_eq_sound s t h))
  deep_equal-SameJson (str s) (arr ys) ma mb h p = absurd (cc)
  deep_equal-SameJson (str s) (obj n) ma mb h p = absurd (cc)
  deep_equal-SameJson (arr xs) null ma mb h p = absurd (cc)
  deep_equal-SameJson (arr xs) (bool c) ma mb h p = absurd (cc)
  deep_equal-SameJson (arr xs) (num t) ma mb h p = absurd (cc)
  deep_equal-SameJson (arr xs) (str t) ma mb h p = absurd (cc)
  deep_equal-SameJson (arr xs) (arr ys) ma mb h [] =
      ap (λ n. some (is_arr n)) (items_equal-items_length xs ys h)
  deep_equal-SameJson (arr xs) (arr ys) ma mb h (at_key key ∷ p) = refl
  deep_equal-SameJson (arr xs) (arr ys) ma mb h (at_index i ∷ p) =
      items_equal-shape xs ys ma mb h i p
  deep_equal-SameJson (arr xs) (obj n) ma mb h p = absurd (cc)
  deep_equal-SameJson (obj m) null ma mb h p = absurd (cc)
  deep_equal-SameJson (obj m) (bool c) ma mb h p = absurd (cc)
  deep_equal-SameJson (obj m) (num t) ma mb h p = absurd (cc)
  deep_equal-SameJson (obj m) (str t) ma mb h p = absurd (cc)
  deep_equal-SameJson (obj m) (arr ys) ma mb h p = absurd (cc)
  deep_equal-SameJson (obj m) (obj n) ma mb h [] = refl
  deep_equal-SameJson (obj m) (obj n) ma mb h (at_index i ∷ p) = refl
  deep_equal-SameJson (obj m) (obj n) ma mb h (at_key key ∷ p) =
      elim (Option-cases (get_member key m)) [
        | inr (value, there) ↦
            let (other, found, same) =
              members_equal-get_member m n ma.1 mb.1 (both-right _ _ h) key value there in
            shape_at-obj key p m
            ∙ ap (shape_in p) there
            ∙ same p
            ∙ sym (ap (shape_in p) found)
            ∙ sym (shape_at-obj key p n)
        | inl missing ↦
            shape_at-obj key p m
            ∙ ap (shape_in p) (
                missing
                ∙ sym (
                    no_more m n ma.0 (members_equal-is_listed m n (both-right _ _ h))
                      (both-left _ _ h) key missing))
            ∙ sym (shape_at-obj key p n)
      ]

  items_equal-items_length :
      (xs ys : Items) → items_equal xs ys ≡ true → items_length xs ≡ items_length ys
  items_equal-items_length nil nil h = refl
  items_equal-items_length nil (cons y ys) h = absurd (cc)
  items_equal-items_length (cons x xs) nil h = absurd (cc)
  items_equal-items_length (cons x xs) (cons y ys) h =
      ap suc (items_equal-items_length xs ys (both-right _ _ h))

  items_equal-shape :
      (xs ys : Items)
      → AreMaps xs
      → AreMaps ys
      → items_equal xs ys ≡ true
      → (i : ℕ) (p : List Step)
      → shape_at (at_index i ∷ p) (arr xs) ≡ shape_at (at_index i ∷ p) (arr ys)
  items_equal-shape nil nil ma mb h i p = refl
  items_equal-shape nil (cons y ys) ma mb h i p = absurd (cc)
  items_equal-shape (cons x xs) nil ma mb h i p = absurd (cc)
  items_equal-shape (cons x xs) (cons y ys) ma mb h zero p =
      deep_equal-SameJson x y ma.0 mb.0 (both-left _ _ h) p
  items_equal-shape (cons x xs) (cons y ys) ma mb h (suc i) p =
      items_equal-shape xs ys ma.1 mb.1 (both-right _ _ h) i p

  members_equal-get_member :
      (m n : Members)
      → HaveMaps m
      → HaveMaps n
      → members_equal m n ≡ true
      → (key : Bytes) (value : Json) → get_member key m ≡ some value
      → (other : Json) × (get_member key n ≡ some other) × SameJson value other
  members_equal-get_member end n ma mb h key value there = absurd (get_member-end key value there)
  members_equal-get_member (member name first rest) n ma mb h key value there =
      elim (Option-cases (get_member name n)) [
        | inl missing ↦ absurd (cc (rw missing at h))
        | inr (other, found) ↦
            let split : (deep_equal first other && members_equal rest n) ≡ true = rw found at h in
            elim (Bool-cases (bytes_eq name key)) [
              | inl same ↦
                  let e = value_of_first name key first value rest same there in
                  (
                    other,
                    ap (λ k. get_member k n) (sym (bytes_eq_sound name key same)) ∙ found,
                    subst (λ v. SameJson v other) e
                        (deep_equal-SameJson first other ma.0
                          (HaveMaps-get_member n name other mb found) (both-left _ _ split)),
                  )
              | inr apart ↦
                  members_equal-get_member rest n ma.1 mb (both-right _ _ split) key value
                    (later_value name key first value rest apart there)
            ]
      ]
