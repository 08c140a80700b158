-- ===== src/Runbook/Load/Checked.antt =====
-- The texts that loader.call of internal/runbook/runbook.go checks for references.

use opensearch_api.Prelude.{
  >>=-eq-ok, All, Bool, Bool-cases, Bytes, Option-cases, [], bytes_eq, bytes_eq_sound, false,
  if◌then◌else◌, inl, inr, none, ok, refl, some, subst, unless_some-eq-ok, ◌∷◌, ◌≡◌,
}
use opensearch_api.Osclient.Header.{canonical_key}
use opensearch_api.Runbook.Template.{Declared, check_refs}
use opensearch_api.Runbook.Load.Headers.{TextMap, last_value}
use opensearch_api.Runbook.Load.Checks.{
  MapField, Ref, bad_refs, check_map, check_value, reject_ref_in_key,
}

-- Every value of a map was checked, but for those that were skipped.
abbrev pub IsChecked : Declared → (Bytes → Bool) → TextMap → Type 0
IsChecked declared skips pairs =
    All (λ entry. skips entry.0 ≡ false → check_refs entry.1 declared ≡ none) pairs

pub check_value-eq-ok :
    (ref : Ref) (inherited : Bool) (declared : Declared) (s : Bytes) {u : Unit {0}}
    → check_value ref inherited declared s ≡ ok u
    → check_refs s declared ≡ none
unfolding check_value
check_value-eq-ok ref inherited declared s h = unless_some-eq-ok (bad_refs ref inherited) _ h

pub check_map-IsChecked :
    (ref : Ref) (field : MapField) (inherited skips : Bytes → Bool) (declared : Declared)
    (pairs : TextMap) {u : Unit {0}}
    → check_map ref field inherited skips declared pairs ≡ ok u
    → IsChecked declared skips pairs
unfolding check_map
check_map-IsChecked ref field inherited skips declared [] h = tt
check_map-IsChecked ref field inherited skips declared ((key, value) ∷ rest) h =
    let (_, _, r1) = >>=-eq-ok (reject_ref_in_key ref field key) _ h in
    let (_, h2, r2) =
      >>=-eq-ok (if skips key then ok tt else check_value ref (inherited key) declared value) _
        r1 in
    (
      λ kept. check_value-eq-ok ref (inherited key) declared value (rw kept at h2),
      check_map-IsChecked ref field inherited skips declared rest r2,
    )

-- A header that is the last of its canonical name was checked, if none of that name is skipped.
pub last_value-check_refs :
    (declared : Declared) (skips : Bytes → Bool) (pairs : TextMap) (key value : Bytes)
    → IsChecked declared skips pairs
    → ((name : Bytes) → canonical_key name ≡ key → skips name ≡ false)
    → last_value pairs key ≡ some value
    → check_refs value declared ≡ none
last_value-check_refs declared skips [] key value checked kept found = cc
last_value-check_refs declared skips ((name, first) ∷ rest) key value (h, hs) kept found =
    elim (Option-cases (last_value rest key)) [
      | inr (later, again) ↦
          last_value-check_refs declared skips rest key value hs kept (rw again (rw again at found))
      | inl once ↦ elim (Bool-cases (bytes_eq (canonical_key name) key)) [
        | inl same ↦
            let e : some first ≡ some value = rw (once, same) at found in
            let e' : first ≡ value = cc in
            subst (λ v. check_refs v declared ≡ none) e'
              (h (kept name (bytes_eq_sound (canonical_key name) key same)))
        | inr differ ↦ let e : none ≡ some value = rw (once, differ) at found in absurd (cc)
      ]
    ]

pub All-IsChecked :
    (declared : Declared) (pairs : TextMap)
    → IsChecked declared (λ key. false) pairs
    → All (λ entry. check_refs entry.1 declared ≡ none) pairs
All-IsChecked declared [] h = tt
All-IsChecked declared (entry ∷ pairs) (h, hs) = (h refl, All-IsChecked declared pairs hs)
