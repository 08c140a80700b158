-- ===== src/Prelude/Text.antt =====
-- Go strings are lists of bytes. Here are the operations of `strings` and `bytes` that the program
-- uses, and the decimal print of `strconv`.
use Prim.Native.Nat.{ℕ, zero, suc, ◌+◌, ◌-◌, ◌*◌, ◌/◌, ◌%◌}
use Prim.Native.Char.{code}
use Prim.Native.String.{String}
use mathlib.Core.Path.{◌≡◌, refl}
use mathlib.Core.Bool.{Bool, true, false, ◌&&◌, ◌||◌}
use mathlib.Core.Logic.{◌↔◌}
use mathlib.Core.Option.{Option, none, some}
use mathlib.Core.List.{◌++◌, List, [], ◌∷◌}
use native.Mathlib.Omega.{arith}
use opensearch_api.Prelude.Tests.{if◌then◌else◌, leb, ◌==◌}

abbrev pub Bytes : Type 0
Bytes = List ℕ

-- The bytes of a literal, which is ASCII.
abbrev pub codes : String → Bytes
codes String.[] = []
codes (String.◌∷◌ c s) = code c ∷ codes s

abbrev pub bytes_eq : Bytes → Bytes → Bool
bytes_eq [] [] = true
bytes_eq [] (d ∷ t) = false
bytes_eq (c ∷ s) [] = false
bytes_eq (c ∷ s) (d ∷ t) = (c == d) && bytes_eq s t

pub bytes_eq_sound : (s t : Bytes) → bytes_eq s t ≡ true → s ≡ t
bytes_eq_sound [] [] h = refl
bytes_eq_sound [] (d ∷ t) h = cc
bytes_eq_sound (c ∷ s) [] h = cc
bytes_eq_sound (c ∷ s) (d ∷ t) h = ground (arith, bytes_eq_sound s t)

pub bytes_eq_refl : (s : Bytes) → bytes_eq s s ≡ true
bytes_eq_refl [] = refl
bytes_eq_refl (c ∷ s) = ground (arith, bytes_eq_refl s)

pub bytes_eq_iff : (s t : Bytes) → (bytes_eq s t ≡ true) ↔ (s ≡ t)
bytes_eq_iff s t = (bytes_eq_sound s t, λ e. rw e (bytes_eq_refl t))

abbrev pub has_prefix : Bytes → Bytes → Bool
has_prefix s [] = true
has_prefix [] (d ∷ p) = false
has_prefix (c ∷ s) (d ∷ p) = (c == d) && has_prefix s p

abbrev pub contains_text : Bytes → Bytes → Bool
contains_text [] p = has_prefix [] p
contains_text (c ∷ s) p = has_prefix (c ∷ s) p || contains_text s p

-- strings.ContainsAny with an ASCII set, and a single byte of it.
abbrev pub is_one_of : Bytes → ℕ → Bool
is_one_of [] c = false
is_one_of (d ∷ set) c = (c == d) || is_one_of set c

abbrev pub is_digit : ℕ → Bool
is_digit c = leb b'0' c && leb c b'9'

-- The longest prefix of digits, and the rest.
abbrev pub span_digits : Bytes → Bytes × Bytes
span_digits [] = ([], [])
span_digits (c ∷ s) =
    let (digits, rest) = span_digits s in if is_digit c then (c ∷ digits, rest) else ([], c ∷ s)

-- The number that digits spell behind `n`.
abbrev pub value_from : ℕ → Bytes → ℕ
value_from n [] = n
value_from n (c ∷ s) = value_from (n * 10 + (c - b'0')) s

-- `strconv.FormatInt(n, 10)` for a number that is not negative: the digits of `n` go before `out`,
-- one in each round.
unfoldable pub digits_from : ℕ → ℕ → Bytes → Bytes
digits_from zero n out = out
digits_from (suc fuel) n out =
    let rest = digits_from fuel (n / 10) ((b'0' + n % 10) ∷ out) in if n == 0 then out else rest

unfoldable pub decimal : ℕ → Bytes
decimal n = if n == 0 then b'0' ∷ [] else digits_from (suc n) n []

-- `strings.ToUpper`, up to letters whose capital is not ASCII either: those stay as they are, which
-- no comparison with an ASCII literal sees. U+0131 and U+017F have ASCII capitals.
abbrev upper : ℕ → ℕ
upper c = if leb b'a' c && leb c b'z' then c - 32 else c

unfoldable pub to_upper : Bytes → Bytes
to_upper [] = []
to_upper (c ∷ []) = upper c ∷ []
to_upper (c ∷ d ∷ s) =
    let skip = to_upper s in
    let step = to_upper (d ∷ s) in
    if (c == 0xc4) && (d == 0xb1)
    then b'I' ∷ skip
    else if (c == 0xc5) && (d == 0xbf)
    then b'S' ∷ skip
    else upper c ∷ step

-- `strings.ToLower`, with the same proviso: U+0130 and U+212A have ASCII small letters.
abbrev lower : ℕ → ℕ
lower c = if leb b'A' c && leb c b'Z' then c + 32 else c

unfoldable pub to_lower : Bytes → Bytes
to_lower [] = []
to_lower (c ∷ []) = lower c ∷ []
to_lower (c ∷ d ∷ []) = if (c == 0xc4) && (d == 0xb0) then b'i' ∷ [] else lower c ∷ lower d ∷ []
to_lower (c ∷ d ∷ e ∷ s) =
    let skip_two = to_lower (e ∷ s) in
    let skip_three = to_lower s in
    let step = to_lower (d ∷ e ∷ s) in
    if (c == 0xc4) && (d == 0xb0)
    then b'i' ∷ skip_two
    else if (c == 0xe2) && (d == 0x84) && (e == 0xaa)
    then b'k' ∷ skip_three
    else lower c ∷ step

-- `strings.EqualFold`, with the same proviso.
unfoldable pub equal_fold : Bytes → Bytes → Bool
equal_fold s t = bytes_eq (to_lower (to_upper s)) (to_lower (to_upper t))

-- `%q` of a text without characters that it escapes.
abbrev pub quoted : Bytes → Bytes
quoted name = b'"' ∷ name ++ (b'"' ∷ [])

-- `strings.IndexByte` and the two slices round the byte that it finds.
unfoldable pub cut_at : ℕ → Bytes → Option (Bytes × Bytes)
cut_at sep [] = none
cut_at sep (c ∷ s) =
    let rest = cut_at sep s in
    if c == sep
    then some ([], s)
    else elim rest [ none ↦ none | some (before, after) ↦ some (c ∷ before, after) ]

push_head : ℕ → List Bytes → List Bytes
push_head c [] = (c ∷ []) ∷ []
push_head c (p ∷ ps) = (c ∷ p) ∷ ps

-- `strings.Split` by one byte.
unfoldable pub split_on : ℕ → Bytes → List Bytes
unfolding push_head
split_on sep [] = [] ∷ []
split_on sep (c ∷ s) =
    let parts = split_on sep s in if c == sep then [] ∷ parts else push_head c parts
