-- ===== src/Prelude/Pigeonhole.antt =====
-- Lists of texts without repetition: as many as there are places.
use Prim.Native.Nat.{◌≤◌, suc}
use mathlib.Core.Path.{◌≡◌, refl, sym, ap, ◌∙◌}
use mathlib.Core.Bool.{true, false}
use mathlib.Core.Logic.{inl, inr}
use mathlib.Core.List.{List, [], ◌∷◌}
use native.Mathlib.Omega.{arith}
use opensearch_api.Prelude.Tests.{Bool-cases, if◌then◌else◌}
use opensearch_api.Prelude.Lists.{length}
use opensearch_api.Prelude.Text.{Bytes, bytes_eq, bytes_eq_iff, bytes_eq_refl, bytes_eq_sound}
use opensearch_api.Prelude.Sorting.{AreDistinct, is_listed}

-- A list less one text.
abbrev without : Bytes → List Bytes → List Bytes
without x [] = []
without x (y ∷ ys) = if bytes_eq y x then ys else y ∷ without x ys

length-without :
    (x : Bytes) (ys : List Bytes) → is_listed ys x ≡ true → suc (length (without x ys)) ≡ length ys
length-without x [] h = absurd (cc)
length-without x (y ∷ ys) h = ground (arith, length-without x ys)

is_listed-without :
    (x key : Bytes) (ys : List Bytes)
    → bytes_eq x key ≡ false
    → is_listed (without x ys) key ≡ is_listed ys key
is_listed-without x key [] h = refl
is_listed-without x key (y ∷ ys) h =
    ground (
      arith,
      is_listed-without x key ys h,
      bytes_eq_iff y x,
      bytes_eq_iff x key,
      bytes_eq_iff y key,
    )

-- Texts that are all among others which are no more of them: then these have no further one.
pub pigeonhole :
    (xs ys : List Bytes)
    → AreDistinct xs
    → ((key : Bytes) → is_listed xs key ≡ true → is_listed ys key ≡ true)
    → length ys ≤ length xs
    → (key : Bytes) → is_listed xs key ≡ false
    → is_listed ys key ≡ false
pigeonhole [] [] distinct among few key h = refl
pigeonhole [] (y ∷ ys) distinct among few key h = absurd (omega arith)
pigeonhole (x ∷ xs) ys (fresh, distinct) among few key h =
    let here = among x (rw (bytes_eq_refl x) refl) in
    let apart : bytes_eq x key ≡ false = ground arith in
    sym (is_listed-without x key ys apart)
    ∙ pigeonhole xs (without x ys) distinct
        (λ other listed.
          let differs = differ x other xs fresh listed in
          is_listed-without x other ys differs ∙ among other (rw differs listed))
        (omega (arith, length-without x ys here)) key (ground arith)
  where
    differ :
        (a b : Bytes) (zs : List Bytes)
        → is_listed zs a ≡ false
        → is_listed zs b ≡ true
        → bytes_eq a b ≡ false
    differ a b zs no_a has_b = elim (Bool-cases (bytes_eq a b)) [
      | inr apart ↦ apart
      | inl same ↦ absurd (cc (sym no_a ∙ ap (is_listed zs) (bytes_eq_sound a b same) ∙ has_b))
    ]
