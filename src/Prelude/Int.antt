-- ===== src/Prelude/Int.antt =====
-- Signed integers over the native numbers: `negsuc n` is -(n + 1). Go's `int` and `int64` are such
-- an integer, with the wrap-around of 64-bit arithmetic written out as `int64`.
use Prim.Native.Nat.{ℕ, ◌-◌, ◌%◌, ◌^◌, ◌≤◌}
use mathlib.Core.Path.{◌≡◌}
use mathlib.Core.Bool.{Bool, true, false}
use native.Mathlib.Omega.{arith}
use Prim.Native.Nat.{suc}
use mathlib.Core.List.{◌∷◌}
use opensearch_api.Prelude.Text.{Bytes, decimal}
use opensearch_api.Prelude.Tests.{if◌then◌else◌, leb, ltb, ◌==◌}

pub data ℤ : Type 0 where
  pos : ℕ → ℤ
  negsuc : ℕ → ℤ

abbrev pub int_ltb : ℤ → ℤ → Bool
int_ltb (pos a) (pos b) = ltb a b
int_ltb (pos a) (negsuc b) = false
int_ltb (negsuc a) (pos b) = true
int_ltb (negsuc a) (negsuc b) = ltb b a

abbrev pub int_eqb : ℤ → ℤ → Bool
int_eqb (pos a) (pos b) = a == b
int_eqb (pos a) (negsuc b) = false
int_eqb (negsuc a) (pos b) = false
int_eqb (negsuc a) (negsuc b) = a == b

-- math.MaxInt64
abbrev pub max_int64 : ℕ
max_int64 = 2 ^ 63 - 1

-- The int64 with the bit pattern of `n` modulo 2^64.
abbrev pub int64 : ℕ → ℤ
int64 n = let r = n % 2 ^ 64 in if leb r (2 ^ 63 - 1) then pos r else negsuc (2 ^ 64 - 1 - r)

pub int64_of_le : (n : ℕ) → n ≤ max_int64 → int64 n ≡ pos n
int64_of_le n h = ground arith

-- `strconv.Itoa`, `strconv.FormatInt` and `big.Int.String`.
unfoldable pub format_int : ℤ → Bytes
format_int (pos n) = decimal n
format_int (negsuc n) = b'-' ∷ decimal (suc n)
