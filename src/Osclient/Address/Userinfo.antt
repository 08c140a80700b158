-- ===== src/Osclient/Address/Userinfo.antt =====
-- Which part of an address stripUserinfo removes.
use opensearch_api.Prelude.{
  All, Bool-cases, Bytes, Option-cases, [], all, ap, append_assoc, codes, cut_at, cut_at-none,
  cut_at-some, false, inl, inr, is_one_of, refl, subst, true, ℕ, ◌++◌, ◌==◌, ◌∙◌, ◌∷◌, ◌≡◌,
}
use opensearch_api.Osclient.Address.{authority_ends, drop_userinfo, span_until}

-- The byte stands in an authority: it is none of those that end one.
abbrev pub IsInside : ℕ → Type 0
IsInside c = is_one_of (codes "/?#") c ≡ false

-- Text that can stand behind an authority.
abbrev pub EndsAuthority : Bytes → Type 0
EndsAuthority [] = Unit
EndsAuthority (c ∷ s) = is_one_of (codes "/?#") c ≡ true

-- No byte of the text is an `@`.
abbrev pub HasNoAt : Bytes → Type 0
HasNoAt s = All (λ c. (c == b'@') ≡ false) s

-- What an address without its scheme is when its userinfo up to the first `@` is gone.
pub data IsStripped (rest out : Bytes) : Type 0 where
  kept :
      (authority after : Bytes)
      → rest ≡ authority ++ after
      → All IsInside authority
      → EndsAuthority after
      → HasNoAt authority
      → out ≡ rest
      → IsStripped rest out
  stripped :
      (userinfo host after : Bytes)
      → rest ≡ userinfo ++ (b'@' ∷ host ++ after)
      → All IsInside userinfo
      → All IsInside host
      → EndsAuthority after
      → HasNoAt userinfo
      → out ≡ host ++ after
      → IsStripped rest out

span_until_lem :
    (s : Bytes)
    → (s ≡ (span_until authority_ends s).0 ++ (span_until authority_ends s).1)
      × All IsInside (span_until authority_ends s).0
      × EndsAuthority (span_until authority_ends s).1
unfolding span_until
span_until_lem [] = (refl, tt, tt)
span_until_lem (c ∷ s) = elim (Bool-cases (is_one_of authority_ends c)) [
  | inl stop ↦ rw stop (refl, tt, stop)
  | inr inside ↦
      let (split, all, rest) = span_until_lem s in
      rw inside (ap (λ t. c ∷ t) split, (inside, all), rest)
]

All-append-both : (P : ℕ → Type 0) (s t : Bytes) → All P (s ++ t) → All P s × All P t
All-append-both P [] t h = (tt, h)
All-append-both P (c ∷ s) t (h, hs) =
    let (left, right) = All-append-both P s t hs in ((h, left), right)

-- Of an address behind its scheme, stripUserinfo keeps all if its authority, the text up to the first
-- `/`, `?` or `#`, has no `@`. Else it takes away the authority's text up to its first `@` and that
-- `@`, and keeps all that follows, further `@` of the authority included.
pub drop_userinfo-IsStripped : (rest : Bytes) → IsStripped rest (drop_userinfo rest)
unfolding drop_userinfo
drop_userinfo-IsStripped rest =
    let authority = (span_until authority_ends rest).0 in
    let after = (span_until authority_ends rest).1 in
    let (split, inside, stop) = span_until_lem rest in
    elim (Option-cases (cut_at b'@' authority)) [
      | inl missing ↦
          rw missing
            (kept authority after split inside stop (cut_at-none b'@' authority missing) refl)
      | inr ((userinfo, host), there) ↦
          let (parts, free) = cut_at-some b'@' authority userinfo host there in
          let (left, right) =
            All-append-both IsInside userinfo (b'@' ∷ host) (subst (All IsInside) parts inside) in
          let whole : rest ≡ userinfo ++ (b'@' ∷ host ++ after) =
            split ∙ ap (λ t. t ++ after) parts ∙ append_assoc userinfo (b'@' ∷ host) after in
          rw there (stripped userinfo host after whole left right.1 stop free refl)
    ]
