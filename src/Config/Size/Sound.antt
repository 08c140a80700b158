-- ===== src/Config/Size/Sound.antt =====
-- What ParseSize accepts.
use opensearch_api.Prelude.{
  >>=-eq-ok, Bool-cases, Bytes, arith, false, from_option, from_option-eq-ok, inl, inr, int64_of_le,
  is_empty, ltb, max_int64, ok, pos, some, span_digits, suc, value_from, zero, ℕ, ℤ, ◌*◌, ◌/◌, ◌≡◌,
  ◌≤◌,
}
use native.Mathlib.Nat.{le-div_iff_mul-le}
use opensearch_api.Config.Size.{
  invalid_size, out_of_range, parse_int, parse_size, scale, unit_bytes,
}

mul-le_of_div : (n mult : ℕ) → ltb (max_int64 / mult) n ≡ false → n * mult ≤ max_int64
mul-le_of_div n zero h = grind arith
mul-le_of_div n (suc k) h =
    (le-div_iff_mul-le {k = suc k} {x = n} {y = max_int64} (omega arith)).0 (ground arith)

scale_sound :
    (s : Bytes) (n mult : ℕ) (z : ℤ)
    → scale s n mult ≡ ok z
    → (z ≡ pos (n * mult)) × (n * mult ≤ max_int64)
unfolding scale
scale_sound s n mult z h = elim (Bool-cases (ltb (max_int64 / mult) n)) [
  | inl big ↦ let bad = rw big at h in (cc, cc)
  | inr fits ↦
      let le = mul-le_of_div n mult fits in
      let e = rw (fits, int64_of_le (n * mult) le) at h in (cc, le)
]

parse_int_sound : (digits : Bytes) (n : ℕ) → parse_int digits ≡ some n → value_from 0 digits ≡ n
unfolding parse_int
parse_int_sound digits n h = ground arith

-- A text is accepted only as digits and a unit, and the result is their true product: it lies
-- within int64, so the multiplication did not wrap.
pub parse_size_sound :
    (s : Bytes) (z : ℤ)
    → parse_size s ≡ ok z
    → (mult : ℕ) × (is_empty (span_digits s).0 ≡ false)
      × (unit_bytes (span_digits s).1 ≡ some mult)
      × (z ≡ pos (value_from 0 (span_digits s).0 * mult))
      × (value_from 0 (span_digits s).0 * mult ≤ max_int64)
unfolding parse_size
parse_size_sound s z h = elim (Bool-cases (is_empty (span_digits s).0)) [
  | inl e ↦ let bad = rw e at h in absurd (cc)
  | inr e ↦
      let (n, hn, h2) =
        >>=-eq-ok (from_option (out_of_range s) (parse_int (span_digits s).0)) _ (rw e at h) in
      let (mult, hm, h3) =
        >>=-eq-ok (from_option (invalid_size s) (unit_bytes (span_digits s).1)) _ h2 in
      let same = parse_int_sound _ n (from_option-eq-ok _ _ hn) in
      let (ez, le) = scale_sound s n mult z h3 in
      (mult, e, from_option-eq-ok _ _ hm, rw same ez, rw same le)
]
