-- ===== src/Prelude/Decimal.antt =====
-- The decimal print: what reading it back gives.
use Prim.Native.Nat.{ℕ, zero, suc, ◌+◌, ◌/◌, ◌%◌, ◌<◌}
use mathlib.Core.Path.{◌≡◌, refl}
use mathlib.Core.Bool.{true, false}
use mathlib.Core.Logic.{inl, inr}
use mathlib.Core.List.{[], ◌∷◌, ◌++◌}
use native.Mathlib.Omega.{arith}
use opensearch_api.Prelude.Tests.{Bool-cases, ◌==◌}
use opensearch_api.Prelude.Lists.{All, is_empty}
use opensearch_api.Prelude.Text.{Bytes, decimal, digits_from, is_digit, span_digits, value_from}

abbrev pub IsDigit : ℕ → Type 0
IsDigit c = is_digit c ≡ true

value_from-digits_from :
    (fuel n : ℕ) (out : Bytes) → n < fuel → value_from 0 (digits_from fuel n out) ≡ value_from n out
unfolding digits_from
value_from-digits_from zero n out h = elim h [ ]
value_from-digits_from (suc fuel) n out h = elim (Bool-cases (n == 0)) [
  | inl zero? ↦ let e : n ≡ 0 = ground arith in rw zero? (rw e refl)
  | inr more ↦
      rw more (
        ground (arith, value_from-digits_from fuel (n / 10) ((b'0' + n % 10) ∷ out) (ground arith)))
]

digits_from-All :
    (fuel n : ℕ) (out : Bytes) → All IsDigit out → All IsDigit (digits_from fuel n out)
unfolding digits_from
digits_from-All zero n out h = h
digits_from-All (suc fuel) n out h = elim (Bool-cases (n == 0)) [
  | inl done ↦ rw done h
  | inr more ↦ rw more (digits_from-All fuel (n / 10) ((b'0' + n % 10) ∷ out) (ground arith, h))
]

digits_from-is_empty :
    (fuel n : ℕ) (out : Bytes) → is_empty out ≡ false → is_empty (digits_from fuel n out) ≡ false
unfolding digits_from
digits_from-is_empty zero n out h = h
digits_from-is_empty (suc fuel) n out h =
    ground (arith, digits_from-is_empty fuel (n / 10) ((b'0' + n % 10) ∷ out))

digits_from_pos : (n : ℕ) → (n == 0) ≡ false → is_empty (digits_from (suc n) n []) ≡ false
unfolding digits_from
digits_from_pos n more = rw more (digits_from-is_empty n (n / 10) ((b'0' + n % 10) ∷ []) refl)

pub value_from-decimal : (n : ℕ) → value_from 0 (decimal n) ≡ n
unfolding decimal
value_from-decimal n = elim (Bool-cases (n == 0)) [
  | inl done ↦ rw done (ground arith)
  | inr more ↦ rw more (value_from-digits_from (suc n) n [] (omega arith))
]

pub decimal-All : (n : ℕ) → All IsDigit (decimal n)
unfolding decimal
decimal-All n = elim (Bool-cases (n == 0)) [
  | inl done ↦ rw done (refl, tt)
  | inr more ↦ rw more (digits_from-All (suc n) n [] tt)
]

pub decimal-is_empty : (n : ℕ) → is_empty (decimal n) ≡ false
unfolding decimal
decimal-is_empty n = elim (Bool-cases (n == 0)) [
  | inl done ↦ rw done
  | inr more ↦ rw more (digits_from_pos n more)
]

-- Reading stops at the first byte that is no digit.
pub span_digits-append :
    (s rest : Bytes)
    → All IsDigit s
    → span_digits rest ≡ ([], rest)
    → span_digits (s ++ rest) ≡ (s, rest)
span_digits-append [] rest _ stop = stop
span_digits-append (c ∷ s) rest (h, hs) stop = rw (span_digits-append s rest hs stop, h)
