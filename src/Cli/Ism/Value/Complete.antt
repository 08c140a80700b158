-- ===== src/Cli/Ism/Value/Complete.antt =====
-- That `reflect.DeepEqual` finds two decoded documents equal which have the same at every place,
-- whatever the order of their members, for internal/cli/ism_policy.go.
use opensearch_api.Prelude.{
  ==_iff, AreDistinct, Bool, Bool-cases, Bytes, List, Option, Option-cases, [], ap, arith, bytes_eq,
  bytes_eq_refl, bytes_eq_sound, false, inl, inr, is_listed, is_some, length, none, pigeonhole,
  refl, some, subst, suc, sym, true, ◌==◌, ◌∙◌, ◌∷◌, ◌≡◌, ◌≤◌,
}
use opensearch_api.Json.{
  Items, Json, Members, arr, bool, cons, end, member, nil, null, num, obj, str,
}
use opensearch_api.Cli.Ism.Value.{
  AreMaps, HaveMaps, IsMaps, bool_eq, deep_equal, get_member, items_equal, items_length,
  members_equal, members_length, names_of,
}
use opensearch_api.Cli.Ism.Value.Shape.{
  SameJson, Step, at_index, at_key, is_arr, shape_at, shape_in,
}
use opensearch_api.Cli.Ism.Value.Same.{HaveMaps-get_member, is_listed-names_of, length-names_of}
use opensearch_api.Cli.Ism.Value.Refl.{bool_eq_refl, get_member-first}

bool_same : (b c : Bool) → b ≡ c → bool_eq b c ≡ true
bool_same b c same = subst (λ d. bool_eq b d ≡ true) same (bool_eq_refl b)

bytes_same : (s t : Bytes) → s ≡ t → bytes_eq s t ≡ true
bytes_same s t same = subst (λ r. bytes_eq s r ≡ true) same (bytes_eq_refl s)

-- What has the same at every place is there in both or in neither.
is_some-shape : (a b : Option Json) → shape_in [] a ≡ shape_in [] b → is_some a ≡ is_some b
is_some-shape none none h = refl
is_some-shape none (some b) h = absurd (cc)
is_some-shape (some a) none h = absurd (cc)
is_some-shape (some a) (some b) h = refl

distinct_le :
    (xs ys : List Bytes)
    → AreDistinct xs
    → ((key : Bytes) → is_listed xs key ≡ true → is_listed ys key ≡ true)
    → length xs ≤ length ys
distinct_le [] ys distinct among = omega arith
distinct_le (x ∷ xs) ys (fresh, distinct) among =
    let within : (key : Bytes) → is_listed xs key ≡ true → is_listed ys key ≡ true =
      λ key listed. among key (ground arith) in
    let fewer = distinct_le xs ys distinct within in
    elim (Bool-cases (length xs == length ys)) [
      | inl same ↦ absurd (
          cc (
            sym (
              pigeonhole xs ys distinct within
                (omega (arith, (==_iff (length xs) (length ys)).0 same)) x fresh)
            ∙ among x (rw (bytes_eq_refl x) refl)))
      | inr apart ↦ ground (arith, fewer, ==_iff (length xs) (length ys))
    ]

module _ (m n : Members) (h : SameJson (obj m) (obj n)) where
  listed_same : (key : Bytes) → is_listed (names_of m) key ≡ is_listed (names_of n) key
  listed_same key =
      is_listed-names_of key m
      ∙ is_some-shape (get_member key m) (get_member key n) (h (at_key key ∷ []))
      ∙ sym (is_listed-names_of key n)

  same_length :
      AreDistinct (names_of m)
      → AreDistinct (names_of n)
      → (members_length m == members_length n) ≡ true
  same_length dm dn =
      let le =
        distinct_le (names_of m) (names_of n) dm (λ key listed. sym (listed_same key) ∙ listed) in
      let ge = distinct_le (names_of n) (names_of m) dn (λ key listed. listed_same key ∙ listed) in
      (==_iff (members_length m) (members_length n)).1
        (omega (arith, le, ge, length-names_of m, length-names_of n))

-- Each member of the one has the same as the other's at every place.
abbrev pub IsIn : Members → Members → Type 0
IsIn m n =
    (key : Bytes) (value : Json)
    → get_member key m ≡ some value
    → (p : List Step) → shape_at p value ≡ shape_in p (get_member key n)

IsIn-rest :
    (name : Bytes) (first : Json) (rest n : Members)
    → is_listed (names_of rest) name ≡ false
    → IsIn (member name first rest) n
    → IsIn rest n
unfolding get_member
IsIn-rest name first rest n fresh within key value there =
    within key value (elim (Bool-cases (bytes_eq name key)) [
      | inr apart ↦ rw apart there
      | inl same ↦ absurd (
          cc (
            sym fresh
            ∙ is_listed-names_of name rest
            ∙ ap (λ k. is_some (get_member k rest)) (bytes_eq_sound name key same)
            ∙ ap is_some there))
    ])

pub same_rest :
    (x y : Json) (xs ys : Items)
    → SameJson (arr (cons x xs)) (arr (cons y ys))
    → SameJson (arr xs) (arr ys)
same_rest x y xs ys h [] =
    let e : some (is_arr (suc (items_length xs))) ≡ some (is_arr (suc (items_length ys))) = h [] in
    ap (λ k. some (is_arr k)) (cc e)
same_rest x y xs ys h (at_key key ∷ p) = refl
same_rest x y xs ys h (at_index i ∷ p) = h (at_index (suc i) ∷ p)

mutual
  unfolding deep_equal

  pub SameJson-deep_equal :
      (a b : Json) → IsMaps a → IsMaps b → SameJson a b → deep_equal a b ≡ true
  SameJson-deep_equal null null ma mb h = refl
  SameJson-deep_equal null (bool c) ma mb h = absurd (cc (h []))
  SameJson-deep_equal null (num t) ma mb h = absurd (cc (h []))
  SameJson-deep_equal null (str t) ma mb h = absurd (cc (h []))
  SameJson-deep_equal null (arr ys) ma mb h = absurd (cc (h []))
  SameJson-deep_equal null (obj n) ma mb h = absurd (cc (h []))
  SameJson-deep_equal (bool b) null ma mb h = absurd (cc (h []))
  SameJson-deep_equal (bool b) (bool c) ma mb h = bool_same b c (cc (h []))
  SameJson-deep_equal (bool b) (num t) ma mb h = absurd (cc (h []))
  SameJson-deep_equal (bool b) (str t) ma mb h = absurd (cc (h []))
  SameJson-deep_equal (bool b) (arr ys) ma mb h = absurd (cc (h []))
  SameJson-deep_equal (bool b) (obj n) ma mb h = absurd (cc (h []))
  SameJson-deep_equal (num s) null ma mb h = absurd (cc (h []))
  SameJson-deep_equal (num s) (bool c) ma mb h = absurd (cc (h []))
  SameJson-deep_equal (num s) (num t) ma mb h = bytes_same s t (cc (h []))
  SameJson-deep_equal (num s) (str t) ma mb h = absurd (cc (h []))
  SameJson-deep_equal (num s) (arr ys) ma mb h = absurd (cc (h []))
  SameJson-deep_equal (num s) (obj n) ma mb h = absurd (cc (h []))
  SameJson-deep_equal (str s) null ma mb h = absurd (cc (h []))
  SameJson-deep_equal (str s) (bool c) ma mb h = absurd (cc (h []))
  SameJson-deep_equal (str s) (num t) ma mb h = absurd (cc (h []))
  SameJson-deep_equal (str s) (str t) ma mb h = bytes_same s t (cc (h []))
  SameJson-deep_equal (str s) (arr ys) ma mb h = absurd (cc (h []))
  SameJson-deep_equal (str s) (obj n) ma mb h = absurd (cc (h []))
  SameJson-deep_equal (arr xs) null ma mb h = absurd (cc (h []))
  SameJson-deep_equal (arr xs) (bool c) ma mb h = absurd (cc (h []))
  SameJson-deep_equal (arr xs) (num t) ma mb h = absurd (cc (h []))
  SameJson-deep_equal (arr xs) (str t) ma mb h = absurd (cc (h []))
  SameJson-deep_equal (arr xs) (arr ys) ma mb h = SameJson-items_equal xs ys ma mb h
  SameJson-deep_equal (arr xs) (obj n) ma mb h = absurd (cc (h []))
  SameJson-deep_equal (obj m) null ma mb h = absurd (cc (h []))
  SameJson-deep_equal (obj m) (bool c) ma mb h = absurd (cc (h []))
  SameJson-deep_equal (obj m) (num t) ma mb h = absurd (cc (h []))
  SameJson-deep_equal (obj m) (str t) ma mb h = absurd (cc (h []))
  SameJson-deep_equal (obj m) (arr ys) ma mb h = absurd (cc (h []))
  SameJson-deep_equal (obj m) (obj n) ma mb h =
      rw
        (
          same_length m n h ma.0 mb.0,
          SameJson-members_equal m n ma.0 ma.1 mb.1
              (λ key value there p. sym (ap (shape_in p) there) ∙ h (at_key key ∷ p)),
        )
        refl

  SameJson-items_equal :
      (xs ys : Items)
      → AreMaps xs
      → AreMaps ys
      → SameJson (arr xs) (arr ys)
      → items_equal xs ys ≡ true
  SameJson-items_equal nil nil ma mb h = refl
  SameJson-items_equal nil (cons y ys) ma mb h = absurd (cc (h []))
  SameJson-items_equal (cons x xs) nil ma mb h = absurd (cc (h []))
  SameJson-items_equal (cons x xs) (cons y ys) ma mb h =
      rw
        (
          SameJson-deep_equal x y ma.0 mb.0 (λ p. h (at_index 0 ∷ p)),
          SameJson-items_equal xs ys ma.1 mb.1 (same_rest x y xs ys h),
        )
        refl

  SameJson-members_equal :
      (m n : Members)
      → AreDistinct (names_of m)
      → HaveMaps m
      → HaveMaps n
      → IsIn m n
      → members_equal m n ≡ true
  SameJson-members_equal end n distinct ma mb within = refl
  SameJson-members_equal (member name first rest) n distinct ma mb within =
      let here = within name first (get_member-first name first rest) in
      let later =
        SameJson-members_equal rest n distinct.1 ma.1 mb
          (IsIn-rest name first rest n distinct.0 within) in
      elim (Option-cases (get_member name n)) [
        | inl missing ↦ absurd (cc (here [] ∙ ap (shape_in []) missing))
        | inr (other, found) ↦
            let same =
              SameJson-deep_equal first other ma.0 (HaveMaps-get_member n name other mb found)
                (λ p. here p ∙ ap (shape_in p) found) in
            rw (found, same, later) refl
      ]
