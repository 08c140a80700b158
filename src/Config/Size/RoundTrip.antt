-- ===== src/Config/Size/RoundTrip.antt =====
-- ParseSize on printed sizes, and the two ways to read FormatSize.
use native.Mathlib.Nat.{div-add-mod'}
use opensearch_api.Config.Size.{
  bytes_per_gib, bytes_per_kib, bytes_per_mib, format_size, parse_int, parse_size, scale,
  unit_bytes,
}
use opensearch_api.Prelude.{
  Bytes, [], ap, arith, codes, decimal, decimal-All, decimal-is_empty, int64_of_le, le→leb,
  max_int64, ok, pos, refl, some, span_digits, span_digits-append, to_upper, value_from-decimal, ℕ,
  ◌%◌, ◌*◌, ◌++◌, ◌/◌, ◌<◌, ◌∙◌, ◌≡◌, ◌≤◌,
}

parse_int-decimal : (n : ℕ) → n ≤ max_int64 → parse_int (decimal n) ≡ some n
unfolding parse_int
parse_int-decimal n h = rw (value_from-decimal n, le→leb n _ h)

scale_of_le :
    (s : Bytes) (n mult : ℕ)
    → n * mult ≤ max_int64
    → 0 < mult
    → scale s n mult ≡ ok (pos (n * mult))
unfolding scale
scale_of_le s n mult h p = grind (arith, int64_of_le)

-- A number followed by one of the units is read as their product, if that fits an int64.
parse_size-append :
    (n mult : ℕ) (unit : Bytes)
    → unit_bytes unit ≡ some mult
    → span_digits unit ≡ ([], unit)
    → 0 < mult
    → n * mult ≤ max_int64
    → parse_size (decimal n ++ unit) ≡ ok (pos (n * mult))
unfolding parse_size
parse_size-append n mult unit hu stop p fits =
    rw (span_digits-append (decimal n) unit (decimal-All n) stop, decimal-is_empty n)
      (rw (parse_int-decimal n (grind arith), hu) (scale_of_le (decimal n ++ unit) n mult fits p))

-- The units that FormatSize writes.
unit_rows :
    (unit_bytes (codes "B") ≡ some 1)
    × (unit_bytes (codes "KiB") ≡ some bytes_per_kib)
    × (unit_bytes (codes "MiB") ≡ some bytes_per_mib)
    × (unit_bytes (codes "GiB") ≡ some bytes_per_gib)
unfolding unit_bytes to_upper
unit_rows = (refl, refl, refl, refl)

parse_size-exact :
    (n mult : ℕ) (unit : Bytes)
    → unit_bytes unit ≡ some mult
    → span_digits unit ≡ ([], unit)
    → 0 < mult
    → n ≤ max_int64
    → n % mult ≡ 0
    → parse_size (decimal (n / mult) ++ unit) ≡ ok (pos n)
parse_size-exact n mult unit hu stop p fits divides =
    let e : n / mult * mult ≡ n = omega (arith, div-add-mod' n mult) in
    parse_size-append (n / mult) mult unit hu stop p (omega (arith, e)) ∙ ap (λ m. ok (pos m)) e

-- Every size that fits an int64 is printed as text that ParseSize reads back as the same size.
pub parse_size-format_size : (n : ℕ) → n ≤ max_int64 → parse_size (format_size (pos n)) ≡ ok (pos n)
unfolding format_size
parse_size-format_size n fits =
    let (b, k, m, g) = unit_rows in
    ground (
      arith,
      parse_size-exact n bytes_per_gib (codes "GiB") g refl (omega arith) fits,
      parse_size-exact n bytes_per_mib (codes "MiB") m refl (omega arith) fits,
      parse_size-exact n bytes_per_kib (codes "KiB") k refl (omega arith) fits,
      parse_size-append n 1 (codes "B") b refl (omega arith),
    )
