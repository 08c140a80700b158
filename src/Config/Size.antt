-- ===== src/Config/Size.antt =====
-- internal/config/config.go, ParseSize and FormatSize: byte sizes such as 10MiB.
pub mod RoundTrip
pub mod Sound
use opensearch_api.Prelude.{
  Bytes, Option, Result, bytes_eq, codes, decimal, digits_from, err, from_option, if◌then◌else◌,
  int64, is_empty, leb, ltb, max_int64, negsuc, none, ok, pos, refl, some, span_digits, suc,
  to_upper, value_from, ℕ, ℤ, ◌%◌, ◌&&◌, ◌*◌, ◌++◌, ◌/◌, ◌==◌, ◌>>=◌, ◌>>◌, ◌^◌, ◌||◌, ◌∷◌, ◌≡◌,
}

abbrev pub bytes_per_kib : ℕ
bytes_per_kib = 2 ^ 10

abbrev pub bytes_per_mib : ℕ
bytes_per_mib = 2 ^ 20

abbrev pub bytes_per_gib : ℕ
bytes_per_gib = 2 ^ 30

pub data SizeError : Type 0 where
  invalid_size out_of_range : Bytes → SizeError

-- `strconv.ParseInt(digits, 10, 64)` on one or more digits.
unfoldable pub parse_int : Bytes → Option ℕ
parse_int digits = let v = value_from 0 digits in if leb v max_int64 then some v else none

-- The switch on the unit: the multiplier, if there is such a unit.
unfoldable pub unit_bytes : Bytes → Option ℕ
unit_bytes unit =
    let u = to_upper unit in
    if bytes_eq u (codes "") || bytes_eq u (codes "B")
    then some 1
    else if bytes_eq u (codes "KB") || bytes_eq u (codes "KIB")
    then some bytes_per_kib
    else if bytes_eq u (codes "MB") || bytes_eq u (codes "MIB")
    then some bytes_per_mib
    else if bytes_eq u (codes "GB") || bytes_eq u (codes "GIB")
    then some bytes_per_gib
    else none

-- The range test and the multiplication, which is in int64.
unfoldable pub scale : Bytes → ℕ → ℕ → Result SizeError ℤ
scale s n mult = if ltb (max_int64 / mult) n then err (out_of_range s) else ok (int64 (n * mult))

unfoldable pub parse_size : Bytes → Result SizeError ℤ
parse_size s =
    let (digits, unit) = span_digits s in
    if is_empty digits then err (invalid_size s) else do
      n ← from_option (out_of_range s) (parse_int digits)
      mult ← from_option (invalid_size s) (unit_bytes unit)
      scale s n mult

unfoldable pub format_size : ℤ → Bytes
format_size (pos n) =
    if leb bytes_per_gib n && (n % bytes_per_gib == 0)
    then decimal (n / bytes_per_gib) ++ codes "GiB"
    else if leb bytes_per_mib n && (n % bytes_per_mib == 0)
    then decimal (n / bytes_per_mib) ++ codes "MiB"
    else if leb bytes_per_kib n && (n % bytes_per_kib == 0)
    then decimal (n / bytes_per_kib) ++ codes "KiB"
    else decimal n ++ codes "B"
format_size (negsuc n) = b'-' ∷ decimal (suc n) ++ codes "B"

ten_mib : parse_size (codes "10MiB") ≡ ok (pos 10485760)
unfolding parse_size parse_int unit_bytes scale to_upper
ten_mib = refl

sizes : (format_size (pos 10485760) ≡ codes "10MiB") × (format_size (pos 1025) ≡ codes "1025B")
unfolding format_size decimal digits_from
sizes = (refl, refl)

too_large :
    parse_size (codes "9007199254740992KiB") ≡ err (out_of_range (codes "9007199254740992KiB"))
unfolding parse_size parse_int unit_bytes scale to_upper
too_large = refl
