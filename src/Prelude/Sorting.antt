-- ===== src/Prelude/Sorting.antt =====
-- `slices.Sort` on strings, which compares byte by byte, and what it keeps. Strings that compare equal
-- are the same, so the way of sorting does not show.
use mathlib.Core.Path.{◌≡◌, refl, ap, ◌∙◌}
use mathlib.Core.Bool.{Bool, true, false, ◌||◌}
use mathlib.Core.Logic.{inl, inr}
use mathlib.Core.List.{List, [], ◌∷◌, ◌++◌}
use native.Mathlib.Omega.{arith}
use opensearch_api.Prelude.Tests.{Bool-cases, if◌then◌else◌, ltb, ◌==◌}
use opensearch_api.Prelude.Lists.{All}
use opensearch_api.Prelude.Text.{Bytes, bytes_eq, bytes_eq_iff}

abbrev pub bytes_leb : Bytes → Bytes → Bool
bytes_leb [] t = true
bytes_leb (c ∷ s) [] = false
bytes_leb (c ∷ s) (d ∷ t) = if c == d then bytes_leb s t else ltb c d

abbrev pub is_listed : List Bytes → Bytes → Bool
is_listed [] key = false
is_listed (name ∷ rest) key = bytes_eq name key || is_listed rest key

-- No text stands twice in a list.
abbrev pub AreDistinct : List Bytes → Type 0
AreDistinct [] = Unit
AreDistinct (x ∷ xs) = (is_listed xs x ≡ false) × AreDistinct xs

module _ {A : Type 0} (key : A → Bytes) where
  unfoldable pub insert_by : A → List A → List A
  insert_by x [] = x ∷ []
  insert_by x (y ∷ ys) = if bytes_leb (key x) (key y) then x ∷ (y ∷ ys) else y ∷ insert_by x ys

  unfoldable pub sort_by : List A → List A
  sort_by [] = []
  sort_by (x ∷ xs) = insert_by x (sort_by xs)

  -- Each key comes no later than the next.
  abbrev pub IsSorted : List A → Type 0
  IsSorted [] = Unit
  IsSorted (x ∷ xs) = All (λ y. bytes_leb (key x) (key y) ≡ true) xs × IsSorted xs

unfoldable pub insert_text : Bytes → List Bytes → List Bytes
insert_text = insert_by (λ s. s)

unfoldable pub sort_texts : List Bytes → List Bytes
sort_texts = sort_by (λ s. s)

bytes_leb_total : (s t : Bytes) → bytes_leb s t ≡ false → bytes_leb t s ≡ true
bytes_leb_total [] t h = cc
bytes_leb_total (c ∷ s) [] h = refl
bytes_leb_total (c ∷ s) (d ∷ t) h = ground (arith, bytes_leb_total s t)

bytes_leb_trans :
    (s t u : Bytes) → bytes_leb s t ≡ true → bytes_leb t u ≡ true → bytes_leb s u ≡ true
bytes_leb_trans [] t u h k = refl
bytes_leb_trans (c ∷ s) [] u h k = cc
bytes_leb_trans (c ∷ s) (d ∷ t) [] h k = cc
bytes_leb_trans (c ∷ s) (d ∷ t) (e ∷ u) h k = ground (arith, bytes_leb_trans s t u)

bytes_leb_antisym : (s t : Bytes) → bytes_leb s t ≡ true → bytes_leb t s ≡ true → s ≡ t
bytes_leb_antisym [] [] h k = refl
bytes_leb_antisym [] (d ∷ t) h k = cc
bytes_leb_antisym (c ∷ s) [] h k = cc
bytes_leb_antisym (c ∷ s) (d ∷ t) h k = ground (arith, bytes_leb_antisym s t)

module _ {A : Type 0} (key : A → Bytes) where
  module _ {ℓ} (P : A → Type ℓ) where
    All-insert_by : (x : A) (xs : List A) → P x → All P xs → All P (insert_by key x xs)
    unfolding insert_by
    All-insert_by x [] h hs = (h, tt)
    All-insert_by x (y ∷ ys) h (k, ks) = elim (Bool-cases (bytes_leb (key x) (key y))) [
      | inl before ↦ rw before (h, (k, ks))
      | inr behind ↦ rw behind (k, All-insert_by x ys h ks)
    ]

    insert_by-All : (x : A) (xs : List A) → All P (insert_by key x xs) → P x × All P xs
    unfolding insert_by
    insert_by-All x [] (h, hs) = (h, tt)
    insert_by-All x (y ∷ ys) h = elim (Bool-cases (bytes_leb (key x) (key y))) [
      | inl before ↦ rw before at h
      | inr behind ↦
          let split : P y × All P (insert_by key x ys) = rw behind at h in
          let rest = insert_by-All x ys split.1 in (rest.0, (split.0, rest.1))
    ]

    -- What holds of all the values holds of them in order, and the other way.
    pub All-sort_by : (xs : List A) → All P xs → All P (sort_by key xs)
    unfolding sort_by
    All-sort_by [] h = tt
    All-sort_by (x ∷ xs) (h, hs) = All-insert_by x (sort_by key xs) h (All-sort_by xs hs)

    pub sort_by-All : (xs : List A) → All P (sort_by key xs) → All P xs
    unfolding sort_by
    sort_by-All [] h = tt
    sort_by-All (x ∷ xs) h =
        let split = insert_by-All x (sort_by key xs) h in (split.0, sort_by-All xs split.1)

  below-All :
      (x y : A) (zs : List A)
      → bytes_leb (key x) (key y) ≡ true
      → All (λ z. bytes_leb (key y) (key z) ≡ true) zs
      → All (λ z. bytes_leb (key x) (key z) ≡ true) zs
  below-All x y [] le _ = tt
  below-All x y (z ∷ zs) le (k, ks) =
      (bytes_leb_trans (key x) (key y) (key z) le k, below-All x y zs le ks)

  insert_by-IsSorted : (x : A) (xs : List A) → IsSorted key xs → IsSorted key (insert_by key x xs)
  unfolding insert_by
  insert_by-IsSorted x [] h = (tt, tt)
  insert_by-IsSorted x (y ∷ ys) (h, hs) = elim (Bool-cases (bytes_leb (key x) (key y))) [
    | inl before ↦ rw before ((before, below-All x y ys before h), (h, hs))
    | inr behind ↦ rw behind (
      All-insert_by (λ z. bytes_leb (key y) (key z) ≡ true) x ys
          (bytes_leb_total (key x) (key y) behind) h,
      insert_by-IsSorted x ys hs,
    )
  ]

  pub sort_by-IsSorted : (xs : List A) → IsSorted key (sort_by key xs)
  unfolding sort_by
  sort_by-IsSorted [] = tt
  sort_by-IsSorted (x ∷ xs) = insert_by-IsSorted x (sort_by key xs) (sort_by-IsSorted xs)

insert_text_comm :
    (x y : Bytes) (zs : List Bytes)
    → insert_text x (insert_text y zs) ≡ insert_text y (insert_text x zs)
unfolding insert_text insert_by
insert_text_comm x y [] = ground (arith, bytes_leb_total x y, bytes_leb_antisym x y)
insert_text_comm x y (z ∷ zs) = ground (
  arith,
  insert_text_comm x y zs,
  bytes_leb_total x y,
  bytes_leb_antisym x y,
  bytes_leb_total x z,
  bytes_leb_total y z,
  bytes_leb_trans x y z,
  bytes_leb_trans y x z,
  bytes_leb_trans x z y,
  bytes_leb_trans y z x,
)

-- The order in which the texts came does not show.
pub sort_texts-middle :
    (xs : List Bytes) (y : Bytes) (zs : List Bytes)
    → sort_texts (xs ++ (y ∷ zs)) ≡ insert_text y (sort_texts (xs ++ zs))
unfolding sort_texts sort_by insert_text
sort_texts-middle [] y zs = refl
sort_texts-middle (x ∷ xs) y zs =
    ap (insert_text x) (sort_texts-middle xs y zs) ∙ insert_text_comm x y (sort_texts (xs ++ zs))

is_listed-insert_text :
    (x key : Bytes) (xs : List Bytes)
    → is_listed (insert_text x xs) key ≡ (bytes_eq x key || is_listed xs key)
unfolding insert_text insert_by
is_listed-insert_text x key [] = refl
is_listed-insert_text x key (y ∷ ys) = ground (arith, is_listed-insert_text x key ys)

pub is_listed-sort_texts :
    (xs : List Bytes) (key : Bytes) → is_listed (sort_texts xs) key ≡ is_listed xs key
unfolding sort_texts sort_by insert_text
is_listed-sort_texts [] key = refl
is_listed-sort_texts (x ∷ xs) key =
    is_listed-insert_text x key (sort_texts xs)
    ∙ ap (λ b. bytes_eq x key || b) (is_listed-sort_texts xs key)

insert_text-AreDistinct :
    (x : Bytes) (xs : List Bytes)
    → is_listed xs x ≡ false
    → AreDistinct xs
    → AreDistinct (insert_text x xs)
unfolding insert_text insert_by
insert_text-AreDistinct x [] h _ = (refl, tt)
insert_text-AreDistinct x (y ∷ ys) h (k, ks) =
    let differ : bytes_eq x y ≡ false = ground (arith, bytes_eq_iff x y, bytes_eq_iff y x) in
    elim (Bool-cases (bytes_leb x y)) [
      | inl before ↦ rw before (h, (k, ks))
      | inr behind ↦ rw behind (
        is_listed-insert_text x y ys ∙ ground (arith),
        insert_text-AreDistinct x ys (ground arith) ks,
      )
    ]

pub sort_texts-AreDistinct : (xs : List Bytes) → AreDistinct xs → AreDistinct (sort_texts xs)
unfolding sort_texts sort_by insert_text
sort_texts-AreDistinct [] h = tt
sort_texts-AreDistinct (x ∷ xs) (h, hs) =
    insert_text-AreDistinct x (sort_texts xs) (is_listed-sort_texts xs x ∙ h)
      (sort_texts-AreDistinct xs hs)

pub sort_texts-IsSorted : (xs : List Bytes) → IsSorted (λ s. s) (sort_texts xs)
unfolding sort_texts
sort_texts-IsSorted xs = sort_by-IsSorted (λ s. s) xs
