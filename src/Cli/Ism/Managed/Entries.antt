-- ===== src/Cli/Ism/Managed/Entries.antt =====
-- Which entries of an explain body give a policy's id, for managedBy of internal/cli/ism_reapply.go.
use opensearch_api.Cli.Ism.Managed.{
  IsSelection, entry_policy_id, get_member, is_id, is_managed, managed_by, managed_by-IsSelection,
  managed_in, read_map, read_policy_id,
}
use opensearch_api.Prelude.{
  AreDistinct, Bool, Bool-cases, Bytes, IsSorted, List, Option, Option-cases, Result, [], all, ap,
  bytes_eq_refl, bytes_eq_sound, codes, equal_fold, false, if◌then◌else◌, inl, inr, is_empty,
  is_listed, none, ok, refl, some, subst, sym, true, ◌>>=◌, ◌↔◌, ◌∙◌, ◌≡◌, ◌⊎◌,
}
use opensearch_api.Json.{Json, Members, arr, bool, end, member, null, num, obj, str}
use opensearch_api.Errors.{Err}

-- A name that Go's decoder takes for the field of `policy_id`.
abbrev pub names_policy : Bytes → Bool
names_policy name = equal_fold name (codes "policy_id")

-- Members that give no id: each that has the field's name is null.
abbrev pub GivesNone : Members → Type 0
GivesNone end = Unit
GivesNone (member name value rest) = ((names_policy name ≡ false) ⊎ (value ≡ null)) × GivesNone rest

-- The last member of an object that has the field's name, but for nulls, is the id, and none before it
-- that has the name is anything but a text or null.
pub data Gives (id : Bytes) : Members → Type 0 where
  last :
      (name : Bytes) (rest : Members)
      → names_policy name ≡ true
      → GivesNone rest
      → Gives id (member name (str id) rest)
  later :
      (name : Bytes) (value : Json) (rest : Members)
      → (names_policy name ≡ false) ⊎ ((value ≡ null) ⊎ ((s : Bytes) × (value ≡ str s)))
      → Gives id rest
      → Gives id (member name value rest)

-- An entry of the explain body that is an object which gives the id.
abbrev pub GivesId : Bytes → Option Json → Type 0
GivesId id entry = (members : Members) × (entry ≡ some (obj members)) × Gives id members

-- A value that is neither null nor a text.
abbrev IsOther : Json → Type 0
IsOther null = ⊥
IsOther (str s) = ⊥
IsOther _ = Unit

value-cases : (v : Json) → (v ≡ null) ⊎ (((s : Bytes) × (v ≡ str s)) ⊎ IsOther v)
value-cases null = inl refl
value-cases (str s) = inr (inl (s, refl))
value-cases (bool b) = inr (inr tt)
value-cases (num s) = inr (inr tt)
value-cases (arr xs) = inr (inr tt)
value-cases (obj m) = inr (inr tt)

read_other :
    (id name : Bytes) (value : Json) (rest : Members)
    → IsOther value
    → read_policy_id id (member name value rest)
      ≡ (if names_policy name then none else read_policy_id id rest)
unfolding read_policy_id
read_other id name null rest other = absurd other
read_other id name (str s) rest other = absurd other
read_other id name (bool b) rest other = refl
read_other id name (num s) rest other = refl
read_other id name (arr xs) rest other = refl
read_other id name (obj m) rest other = refl

read_unnamed :
    (id name : Bytes) (value : Json) (rest : Members)
    → names_policy name ≡ false
    → read_policy_id id (member name value rest) ≡ read_policy_id id rest
unfolding read_policy_id
read_unnamed id name null rest h = refl
read_unnamed id name (str s) rest h = rw h refl
read_unnamed id name (bool b) rest h = read_other id name (bool b) rest tt ∙ rw h refl
read_unnamed id name (num s) rest h = read_other id name (num s) rest tt ∙ rw h refl
read_unnamed id name (arr xs) rest h = read_other id name (arr xs) rest tt ∙ rw h refl
read_unnamed id name (obj m) rest h = read_other id name (obj m) rest tt ∙ rw h refl

-- A member whose value is known.
read_as :
    (id name : Bytes) {value to : Json} (rest : Members)
    → value ≡ to
    → read_policy_id id (member name value rest) ≡ read_policy_id id (member name to rest)
read_as id name rest same = ap (λ v. read_policy_id id (member name v rest)) same

read_policy_id-GivesNone : (id : Bytes) (m : Members) → GivesNone m → read_policy_id id m ≡ some id
unfolding read_policy_id
read_policy_id-GivesNone id end h = refl
read_policy_id-GivesNone id (member name value rest) (h, hs) =
    let later = read_policy_id-GivesNone id rest hs in
    elim h [
      | inl unnamed ↦ read_unnamed id name value rest unnamed ∙ later
      | inr is_null ↦ read_as id name rest is_null ∙ later
    ]

read_policy_id-Gives :
    (id first : Bytes) (m : Members) → Gives id m → read_policy_id first m ≡ some id
unfolding read_policy_id
read_policy_id-Gives id first _ (last name rest named none_left) =
    rw named (read_policy_id-GivesNone id rest none_left)
read_policy_id-Gives id first _ (later name value rest may gives) = elim may [
  | inl unnamed ↦
      read_unnamed first name value rest unnamed ∙ read_policy_id-Gives id first rest gives
  | inr (inl is_null) ↦ read_as first name rest is_null ∙ read_policy_id-Gives id first rest gives
  | inr (inr (s, is_text)) ↦
      read_as first name rest is_text
      ∙ read_policy_id-Gives id (if names_policy name then s else first) rest gives
]

Gives-read_policy_id :
    (first id : Bytes) (m : Members)
    → read_policy_id first m ≡ some id
    → Gives id m ⊎ (GivesNone m × (first ≡ id))
unfolding read_policy_id
Gives-read_policy_id first id end h = inr (tt, cc)
Gives-read_policy_id first id (member name value rest) h = elim (Bool-cases (names_policy name)) [
  | inr unnamed ↦
      elim (Gives-read_policy_id first id rest
        (sym (read_unnamed first name value rest unnamed) ∙ h)) [
          | inl gives ↦ inl (later name value rest (inl unnamed) gives)
          | inr (none_left, same) ↦ inr ((inl unnamed, none_left), same)
        ]
  | inl named ↦ elim (value-cases value) [
    | inl is_null ↦
        elim (Gives-read_policy_id first id rest (sym (read_as first name rest is_null) ∙ h)) [
          | inl gives ↦ inl (later name value rest (inr (inl is_null)) gives)
          | inr (none_left, same) ↦ inr ((inr is_null, none_left), same)
        ]
    | inr (inl (s, is_text)) ↦
        elim (Gives-read_policy_id s id rest
          (rw named at (sym (read_as first name rest is_text) ∙ h))) [
            | inl gives ↦ inl (later name value rest (inr (inr (s, is_text))) gives)
            | inr (none_left, same) ↦ inl (
                subst (λ v. Gives id (member name v rest)) (sym (is_text ∙ ap str same))
                  (last name rest named none_left))
          ]
    | inr (inr strange) ↦
        let failed : none ≡ some id =
          rw named at (sym (read_other first name value rest strange) ∙ h) in
        absurd (cc failed)
  ]
]

is_id-eq-true : (id : Bytes) (o : Option Bytes) → is_id id o ≡ true → o ≡ some id
is_id-eq-true id none h = absurd (cc)
is_id-eq-true id (some policy_id) h = ap some (bytes_eq_sound policy_id id h)

-- An entry counts as managed by a policy just when it is an object that gives the policy's id.
pub is_managed-GivesId :
    (id : Bytes) (value : Json)
    → is_empty id ≡ false
    → (is_managed id value ≡ true) ↔ GivesId id (some value)
unfolding is_managed entry_policy_id
is_managed-GivesId id (obj members) nonempty = (
  λ h. elim (Gives-read_policy_id [] id members (is_id-eq-true id (read_policy_id [] members) h)) [
    | inl gives ↦ (members, refl, gives)
    | inr (none_left, same) ↦ absurd (cc (sym nonempty ∙ ap is_empty (sym same)))
  ],
  λ (found, same, gives).
      let e : members ≡ found = cc in
      ap (is_id id) (ap (read_policy_id []) e ∙ read_policy_id-Gives id [] found gives)
      ∙ bytes_eq_refl id,
)
is_managed-GivesId id null nonempty = (
  λ h. absurd (cc (sym nonempty ∙ ap is_empty (sym (bytes_eq_sound [] id h)))),
  λ (found, same, gives). absurd (cc),
)
is_managed-GivesId id (bool b) nonempty = (λ h. absurd (cc), λ (found, same, gives). absurd (cc))
is_managed-GivesId id (num s) nonempty = (λ h. absurd (cc), λ (found, same, gives). absurd (cc))
is_managed-GivesId id (str s) nonempty = (λ h. absurd (cc), λ (found, same, gives). absurd (cc))
is_managed-GivesId id (arr xs) nonempty = (λ h. absurd (cc), λ (found, same, gives). absurd (cc))

-- What managedBy gives: the names in order, each once, and just those whose entry gives the id.
pub record IsManagement (id : Bytes) (all : Members) (out : List Bytes) : Type 0 where
  pub sorted : IsSorted (λ s. s) out
  pub distinct : AreDistinct out
  pub listed : (name : Bytes) → (is_listed out name ≡ true) ↔ GivesId id (get_member name all)

-- The indices that managedBy gives for an id that is not empty are the names, in order and each once,
-- of just those members of the explain body whose value is an object that gives the id: its last
-- member with the name `policy_id`, in any case of letters and but for nulls, is the id, and none of
-- those before it is anything but a text or null.
pub managed_by-IsManagement :
    (parse : Bytes → Result Err Json) (mismatch : Err) (explain id : Bytes) (out : List Bytes)
    → is_empty id ≡ false
    → managed_by parse mismatch explain id ≡ ok out
    → (all : Members) × ((parse explain >>= read_map mismatch) ≡ ok all) × IsManagement id all out
managed_by-IsManagement parse mismatch explain id out nonempty h =
    let (all, read, found) = managed_by-IsSelection parse mismatch explain id out h in
    (
      all,
      read,
      record {
        sorted = found.sorted;
        distinct = found.distinct;
        listed = λ name. listed_iff name all found;
      },
    )
  where
    listed_iff :
        (name : Bytes) (all : Members)
        → IsSelection id all out
        → (is_listed out name ≡ true) ↔ GivesId id (get_member name all)
    listed_iff name all found = elim (Option-cases (get_member name all)) [
      | inl missing ↦ (
        λ listed. absurd (cc (sym listed ∙ found.listed name ∙ ap (managed_in id) missing)),
        λ (members, same, gives). absurd (cc (sym missing ∙ same)),
      )
      | inr (value, there) ↦
          let (forth, back) = is_managed-GivesId id value nonempty in
          (
            λ listed.
                subst (GivesId id) (sym there)
                  (forth (sym (ap (managed_in id) there) ∙ (sym (found.listed name) ∙ listed))),
            λ gives.
                found.listed name
                ∙ ap (managed_in id) there
                ∙ back (subst (GivesId id) there gives),
          )
    ]
