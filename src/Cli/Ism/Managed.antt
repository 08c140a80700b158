-- ===== src/Cli/Ism/Managed.antt =====
-- internal/cli/ism_reapply.go, managedBy: the indices that an explain body reports as managed by a
-- policy. The JSON parser is an argument; what `json.Unmarshal` makes of a document is written out.
pub mod Entries
use opensearch_api.Prelude.{
  >>=-eq-ok, AreDistinct, Bool, Bool-cases, Bytes, IsSorted, List, Option, Option-cases, Result, [],
  all, ap, bytes_eq, bytes_eq_sound, codes, equal_fold, err, false, if◌then◌else◌, inl, inr,
  is_listed, is_listed-sort_texts, is_some, map_err, map_err-eq-ok, none, ok, ok-injective, refl,
  some, sort_texts, sort_texts-AreDistinct, sort_texts-IsSorted, subst, sym, true, ◌>>=◌, ◌∙◌, ◌∷◌,
  ◌≡◌,
}
use opensearch_api.Errors.{Err, wrap}
use opensearch_api.Json.{Json, Members, arr, bool, end, member, null, num, obj, str}
use opensearch_api.Cli.Ism.Value.{get_member, names_of, set_member}
use opensearch_api.Cli.Ism.Value.Same.{is_listed-names_of}
use opensearch_api.Cli.Ism.Policy.Maps.{set_member-AreDistinct}

-- A JSON object read into a map: of two members with one name the later counts.
unfoldable pub to_map : Members → Members → Members
to_map all end = all
to_map all (member name value rest) = to_map (set_member name value all) rest

-- `json.Unmarshal` into a `map[string]json.RawMessage`.
unfoldable pub read_map : Err → Json → Result Err Members
read_map mismatch (obj members) = ok (to_map end members)
read_map mismatch null = ok end
read_map mismatch _ = err mismatch

-- The members of an object read into the field of `policy_id`, whatever the case of their names; a
-- value that is no text is an error.
unfoldable pub read_policy_id : Bytes → Members → Option Bytes
read_policy_id id end = some id
read_policy_id id (member name (str s) rest) =
    read_policy_id (if equal_fold name (codes "policy_id") then s else id) rest
read_policy_id id (member name null rest) = read_policy_id id rest
read_policy_id id (member name value rest) =
    let later = read_policy_id id rest in
    if equal_fold name (codes "policy_id") then none else later

-- `json.Unmarshal` of an entry.
unfoldable pub entry_policy_id : Json → Option Bytes
entry_policy_id (obj members) = read_policy_id [] members
entry_policy_id null = some []
entry_policy_id _ = none

abbrev pub is_id : Bytes → Option Bytes → Bool
is_id id none = false
is_id id (some policy_id) = bytes_eq policy_id id

unfoldable pub is_managed : Bytes → Json → Bool
is_managed id value = is_id id (entry_policy_id value)

-- The loop over the map.
unfoldable pub managed_names : Bytes → Members → List Bytes
managed_names id end = []
managed_names id (member name value rest) =
    let later = managed_names id rest in if is_managed id value then name ∷ later else later

abbrev pub sorted_names : Bytes → Members → List Bytes
sorted_names id all = sort_texts (managed_names id all)

unfoldable pub managed_by :
    (Bytes → Result Err Json) → Err → Bytes → Bytes → Result Err (List Bytes)
managed_by parse mismatch explain id = do
  all ←
      map_err (λ e. wrap (codes "decoding explain response: ") e [])
        (parse explain >>= read_map mismatch)
  ok (sorted_names id all)

-- What the explain body says of an index.
abbrev pub managed_in : Bytes → Option Json → Bool
managed_in id none = false
managed_in id (some value) = is_managed id value

to_map-AreDistinct :
    (all members : Members)
    → AreDistinct (names_of all)
    → AreDistinct (names_of (to_map all members))
unfolding to_map
to_map-AreDistinct all end h = h
to_map-AreDistinct all (member name value rest) h =
    to_map-AreDistinct (set_member name value all) rest (set_member-AreDistinct name value all h)

is_listed-managed_names :
    (id name : Bytes) (all : Members)
    → AreDistinct (names_of all)
    → is_listed (managed_names id all) name ≡ managed_in id (get_member name all)
unfolding managed_names get_member
is_listed-managed_names id name end h = refl
is_listed-managed_names id name (member first value rest) (fresh, h) =
    let later = is_listed-managed_names id name rest h in
    elim (Bool-cases (bytes_eq first name)) [
      | inr apart ↦ elim (Bool-cases (is_managed id value)) [
        | inl managed ↦ rw (managed, apart) later
        | inr other ↦ rw (other, apart) later
      ]
      | inl same ↦ elim (Bool-cases (is_managed id value)) [
        | inl managed ↦ rw (managed, same, managed) refl
        | inr other ↦ rw (other, same, other) (later ∙ ap (managed_in id) (no_other same))
      ]
    ]
  where
    no_other : bytes_eq first name ≡ true → get_member name rest ≡ none
    no_other same = elim (Option-cases (get_member name rest)) [
      | inl none? ↦ none?
      | inr (v, there) ↦ absurd (
          cc (
            sym fresh
            ∙ is_listed-names_of first rest
            ∙ ap (λ k. is_some (get_member k rest)) (bytes_eq_sound first name same)
            ∙ ap is_some there))
    ]

managed_names-AreDistinct :
    (id : Bytes) (all : Members) → AreDistinct (names_of all) → AreDistinct (managed_names id all)
unfolding managed_names
managed_names-AreDistinct id end h = tt
managed_names-AreDistinct id (member name value rest) (fresh, h) =
    elim (Bool-cases (is_managed id value)) [
      | inr other ↦ rw other (managed_names-AreDistinct id rest h)
      | inl managed ↦ rw managed (
        is_listed-managed_names id name rest h ∙ ap (managed_in id) (absent name rest fresh),
        managed_names-AreDistinct id rest h,
      )
    ]
  where
    absent :
        (key : Bytes) (m : Members) → is_listed (names_of m) key ≡ false → get_member key m ≡ none
    absent key m gone = elim (Option-cases (get_member key m)) [
      | inl none? ↦ none?
      | inr (v, there) ↦ absurd (cc (sym gone ∙ is_listed-names_of key m ∙ ap is_some there))
    ]

-- The names in order, each once, and just those whose entry counts as managed by the policy.
pub record IsSelection (id : Bytes) (all : Members) (out : List Bytes) : Type 0 where
  pub sorted : IsSorted (λ s. s) out
  pub distinct : AreDistinct out
  pub listed : (name : Bytes) → is_listed out name ≡ managed_in id (get_member name all)

read_map-AreDistinct :
    (mismatch : Err) (explain : Json) (all : Members)
    → read_map mismatch explain ≡ ok all
    → AreDistinct (names_of all)
unfolding read_map
read_map-AreDistinct mismatch (obj m) all h =
    subst (λ a. AreDistinct (names_of a)) (ok-injective h) (to_map-AreDistinct end m tt)
read_map-AreDistinct mismatch null all h = subst (λ a. AreDistinct (names_of a)) (ok-injective h) tt
read_map-AreDistinct mismatch (bool b) all h = absurd (cc)
read_map-AreDistinct mismatch (num s) all h = absurd (cc)
read_map-AreDistinct mismatch (str s) all h = absurd (cc)
read_map-AreDistinct mismatch (arr xs) all h = absurd (cc)

pub managed_by-IsSelection :
    (parse : Bytes → Result Err Json) (mismatch : Err) (explain id : Bytes) (out : List Bytes)
    → managed_by parse mismatch explain id ≡ ok out
    → (all : Members) × ((parse explain >>= read_map mismatch) ≡ ok all) × IsSelection id all out
unfolding managed_by
managed_by-IsSelection parse mismatch explain id out h =
    let (all, h1, r1) =
      >>=-eq-ok
        (map_err (λ e. wrap (codes "decoding explain response: ") e [])
          (parse explain >>= read_map mismatch))
        _ h in
    let read = map_err-eq-ok _ (parse explain >>= read_map mismatch) h1 in
    let (doc, h2, r2) = >>=-eq-ok (parse explain) (read_map mismatch) read in
    let distinct = read_map-AreDistinct mismatch doc all r2 in
    (
      all,
      read,
      subst (IsSelection id all) (ok-injective r1) (record {
        sorted = sort_texts-IsSorted (managed_names id all);
        distinct =
            sort_texts-AreDistinct (managed_names id all)
              (managed_names-AreDistinct id all distinct);
        listed = λ name.
            is_listed-sort_texts (managed_names id all) name
            ∙ is_listed-managed_names id name all distinct;
      }),
    )
