-- ===== src/Runbook/Load/Names.antt =====
-- The names in a runbook that Load accepts: rejectDuplicateNames, and the names of captures.
use opensearch_api.Prelude.{
  All, AreDistinct, Bool-cases, Bytes, List, Option, Option-cases, [], arith, bytes_eq, false,
  if◌then◌else◌, inl, inr, is_empty, is_listed, none, ok, refl, some, ℕ, ◌↔◌, ◌∷◌, ◌≡◌,
}
use opensearch_api.Runbook.Load.Node.{Node, line_of}
use opensearch_api.Runbook.Load.Doc.{
  Seen, raw_name, reject_duplicate_names, reject_duplicates_from, see,
}

-- The names that the calls of a file give; a call without one has its own error.
abbrev pub given_names : List Node → List Bytes
given_names [] = []
given_names (item ∷ rest) =
    if is_empty (raw_name item) then given_names rest else raw_name item ∷ given_names rest

-- A name is new to a map.
abbrev pub AreNew {ℓ} : {A : Type ℓ} → (Bytes → Option A) → List Bytes → Type ℓ
AreNew known = All (λ name. known name ≡ none)

-- Setting a name in a map keeps new the names that differ from it, and no others.
module _ {A : Type 0} (known : Bytes → Option A) (name : Bytes) (value : A) where
  abbrev pub extended : Bytes → Option A
  extended other = if bytes_eq other name then some value else known other

  AreNew-extended :
      (names : List Bytes)
      → is_listed names name ≡ false
      → AreNew known names
      → AreNew extended names
  AreNew-extended [] fresh h = tt
  AreNew-extended (other ∷ names) fresh (h, hs) =
      (ground arith, AreNew-extended names (ground arith) hs)

  pub extended-AreNew :
      (names : List Bytes)
      → AreNew extended names
      → (is_listed names name ≡ false) × AreNew known names
  extended-AreNew [] h = (refl, tt)
  extended-AreNew (other ∷ names) (h, hs) =
      let (fresh, rest) = extended-AreNew names hs in (ground arith, (ground arith, rest))

reject_duplicates_from-AreDistinct :
    (seen : Seen) (items : List Node) {u : Unit {0}}
    → reject_duplicates_from seen items ≡ ok u
    → AreNew seen (given_names items) × AreDistinct (given_names items)
unfolding reject_duplicates_from
reject_duplicates_from-AreDistinct seen [] h = (tt, tt)
reject_duplicates_from-AreDistinct seen (item ∷ items) h =
    elim (Bool-cases (is_empty (raw_name item))) [
      | inl unnamed ↦ rw unnamed (reject_duplicates_from-AreDistinct seen items (rw unnamed at h))
      | inr named ↦ elim (Option-cases (seen (raw_name item))) [
        | inr (line, again) ↦ absurd (cc (rw (named, again) at h))
        | inl new ↦
            let (news, distinct) =
              reject_duplicates_from-AreDistinct (see (raw_name item) (line_of item) seen) items
                (rw (named, new) at h) in
            let (fresh, known) =
              extended-AreNew seen (raw_name item) (line_of item) (given_names items) news in
            rw named ((new, known), (fresh, distinct))
      ]
    ]

AreDistinct-reject_duplicates_from :
    (seen : Seen) (items : List Node)
    → AreNew seen (given_names items)
    → AreDistinct (given_names items)
    → reject_duplicates_from seen items ≡ ok tt
unfolding reject_duplicates_from
AreDistinct-reject_duplicates_from seen [] news distinct = refl
AreDistinct-reject_duplicates_from seen (item ∷ items) news distinct =
    elim (Bool-cases (is_empty (raw_name item))) [
      | inl unnamed ↦ rw unnamed (
          AreDistinct-reject_duplicates_from seen items (rw unnamed at news)
            (rw unnamed at distinct))
      | inr named ↦
          let both : ((seen (raw_name item) ≡ none) × AreNew seen (given_names items)) =
            rw named at news in
          let apart : ((is_listed (given_names items) (raw_name item) ≡ false)
              × AreDistinct (given_names items)) =
            rw named at distinct in
          rw (named, both.0)
            (AreDistinct-reject_duplicates_from (see (raw_name item) (line_of item) seen) items
              (AreNew-extended seen (raw_name item) (line_of item) (given_names items) apart.0
                both.1)
              apart.1)
    ]

-- The check for duplicate names accepts the calls of a file exactly when no two of them give the same
-- name; calls that give none do not count.
pub reject_duplicate_names_iff :
    (items : List Node) → (reject_duplicate_names items ≡ ok tt) ↔ AreDistinct (given_names items)
unfolding reject_duplicate_names
reject_duplicate_names_iff items = (
  λ h. (reject_duplicates_from-AreDistinct (λ name. none) items h).1,
  AreDistinct-reject_duplicates_from (λ name. none) items (all_new (given_names items)),
)
  where
    all_new : (names : List Bytes) → AreNew {A = ℕ} (λ name. none) names
    all_new [] = tt
    all_new (name ∷ names) = (refl, all_new names)
