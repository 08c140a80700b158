-- ===== src/Cli/Ism/Policy/Written.antt =====
-- What a policy that buildPolicy of internal/cli/ism_policy.go accepts looks like.
use opensearch_api.Prelude.{
  >>=-eq-ok, Bool, Bool-cases, Bytes, List, Option, Option-cases, [], ap, arith, bytes_eq,
  bytes_eq_refl, bytes_eq_sound, codes, false, inl, inr, is_listed, is_some, none, not, ok,
  ok-injective, refl, some, subst, sym, true, ℤ, ◌&&◌, ◌||◌, ◌∙◌, ◌∷◌, ◌≡◌,
}
use opensearch_api.Json.{
  Items, Json, Members, arr, bool, cons, end, member, nil, null, num, obj, str,
}
use opensearch_api.Cli.Ism.Value.{delete_member, get_member, names_of, set_member}
use opensearch_api.Cli.Ism.Value.Same.{is_listed-names_of}
use opensearch_api.Cli.Ism.Policy.{
  apply_targets, delete_members, ism_server_fields, normalize_members, normalize_policy,
  strip_entries, target_template, template_entries, with_template,
}
use opensearch_api.Cli.Ism.Policy.Maps.{and_false, is_listed-delete_member}

abbrev pub template_key : Bytes
template_key = codes "ism_template"

-- None of the fields that the server owns.
abbrev pub IsFree : Members → Type 0
IsFree m =
    (key : Bytes) → is_listed ism_server_fields key ≡ true → is_listed (names_of m) key ≡ false

-- A policy without the fields of the server, whose template, if it has one, stands first and is
-- stripped.
pub data IsWritten : Members → Type 0 where
  plain : (m : Members) → IsFree m → is_listed (names_of m) template_key ≡ false → IsWritten m
  templated :
      (entries : Items) (m : Members)
      → IsFree m
      → is_listed (names_of m) template_key ≡ false
      → strip_entries entries ≡ ok entries
      → IsWritten (member template_key (arr entries) m)

pub delete_member-absent :
    (key : Bytes) (m : Members) → is_listed (names_of m) key ≡ false → delete_member key m ≡ m
unfolding delete_member
delete_member-absent key end h = refl
delete_member-absent key (member name value rest) h = ground (arith, delete_member-absent key rest)

delete_member-absent_self :
    (key : Bytes) (m : Members) → is_listed (names_of (delete_member key m)) key ≡ false
delete_member-absent_self key m =
    is_listed-delete_member key key m
    ∙ ap (λ b. is_listed (names_of m) key && not b) (bytes_eq_refl key)
    ∙ and_false (is_listed (names_of m) key)

-- Entries that were stripped stay as they are.
pub strip_entries-strip_entries :
    (xs ys : Items) → strip_entries xs ≡ ok ys → strip_entries ys ≡ ok ys
unfolding strip_entries
strip_entries-strip_entries nil ys e = subst (λ zs. strip_entries zs ≡ ok zs) (ok-injective e) refl
strip_entries-strip_entries (cons (obj m) rest) ys e =
    let (stripped, e1, r1) = >>=-eq-ok (strip_entries rest) _ e in
    subst (λ zs. strip_entries zs ≡ ok zs) (ok-injective r1)
      (rw
        (
          strip_entries-strip_entries rest stripped e1,
          delete_member-absent (codes "last_updated_time")
              (delete_member (codes "last_updated_time") m)
              (delete_member-absent_self (codes "last_updated_time") m),
        )
        refl)
strip_entries-strip_entries (cons null rest) ys e = absurd (cc)
strip_entries-strip_entries (cons (bool b) rest) ys e = absurd (cc)
strip_entries-strip_entries (cons (num s) rest) ys e = absurd (cc)
strip_entries-strip_entries (cons (str s) rest) ys e = absurd (cc)
strip_entries-strip_entries (cons (arr xs) rest) ys e = absurd (cc)

and_assoc : (a b c : Bool) → ((a && b) && c) ≡ (a && (b && c))
and_assoc true b c = refl
and_assoc false b c = refl

not_or : (a b : Bool) → (not a && not b) ≡ not (a || b)
not_or true b = refl
not_or false b = refl

pub is_listed-delete_members :
    (keys : List Bytes) (m : Members) (name : Bytes)
    → is_listed (names_of (delete_members keys m)) name
      ≡ (is_listed (names_of m) name && not (is_listed keys name))
unfolding delete_members
is_listed-delete_members [] m name = and_true (is_listed (names_of m) name)
  where
    and_true : (b : Bool) → b ≡ (b && true)
    and_true true = refl
    and_true false = refl
is_listed-delete_members (key ∷ keys) m name =
    is_listed-delete_members keys (delete_member key m) name
    ∙ ap (λ b. b && not (is_listed keys name)) (is_listed-delete_member key name m)
    ∙ and_assoc (is_listed (names_of m) name) (not (bytes_eq key name)) (not (is_listed keys name))
    ∙ ap (λ b. is_listed (names_of m) name && b) (not_or (bytes_eq key name) (is_listed keys name))

delete_members-IsFree : (m : Members) → IsFree (delete_members ism_server_fields m)
delete_members-IsFree m key owned =
    is_listed-delete_members ism_server_fields m key
    ∙ ap (λ b. is_listed (names_of m) key && not b) owned
    ∙ and_false (is_listed (names_of m) key)

-- Setting a stripped template on a policy without the server's fields.
pub set_member-IsWritten :
    (entries : Items) (m : Members)
    → IsFree m
    → strip_entries entries ≡ ok entries
    → IsWritten (set_member template_key (arr entries) m)
unfolding set_member
set_member-IsWritten entries m free stripped =
    templated entries (delete_member template_key m)
      (λ key owned.
        is_listed-delete_member template_key key m
        ∙ ap (λ b. b && not (bytes_eq template_key key)) (free key owned))
      (delete_member-absent_self template_key m) stripped

pub IsWritten-IsFree : (m : Members) → IsWritten m → IsFree m
unfolding ism_server_fields
IsWritten-IsFree _ (plain m free absent) = free
IsWritten-IsFree _ (templated entries m free absent stripped) = λ key owned.
    let other : bytes_eq template_key key ≡ false = not_owned key owned in rw other (free key owned)
  where
    not_owned :
        (key : Bytes) → is_listed ism_server_fields key ≡ true → bytes_eq template_key key ≡ false
    not_owned key owned = elim (Bool-cases (bytes_eq template_key key)) [
      | inr apart ↦ apart
      | inl same ↦ absurd (
          cc (
            sym owned
            ∙ ap (is_listed ism_server_fields) (sym (bytes_eq_sound template_key key same))))
    ]

with_template-IsWritten :
    (m out : Members)
    → IsFree m
    → with_template m (get_member template_key m) ≡ ok out
    → IsWritten out
unfolding with_template
with_template-IsWritten m out free h = elim (Option-cases (get_member template_key m)) [
  | inl none? ↦
      let e : m ≡ out = ok-injective (rw none? at h) in
      subst IsWritten e (plain m free (is_listed-names_of template_key m ∙ ap is_some none?))
  | inr (t, there) ↦
      let (entries, e1, r1) = >>=-eq-ok (template_entries t) _ (rw there at h) in
      let (stripped, e2, r2) = >>=-eq-ok (strip_entries entries) _ r1 in
      subst IsWritten (ok-injective r2)
        (set_member-IsWritten stripped m free (strip_entries-strip_entries entries stripped e2))
]

pub normalize_policy-IsWritten :
    (p : Option Json) (out : Members) → normalize_policy p ≡ ok out → IsWritten out
unfolding normalize_policy normalize_members
normalize_policy-IsWritten none out e = absurd (cc)
normalize_policy-IsWritten (some (obj m)) out e =
    with_template-IsWritten (delete_members ism_server_fields m) out (delete_members-IsFree m) e
normalize_policy-IsWritten (some null) out e = absurd (cc)
normalize_policy-IsWritten (some (bool b)) out e = absurd (cc)
normalize_policy-IsWritten (some (num s)) out e = absurd (cc)
normalize_policy-IsWritten (some (str s)) out e = absurd (cc)
normalize_policy-IsWritten (some (arr xs)) out e = absurd (cc)

-- The template of `--target` has nothing to strip.
target_template-strip :
    (targets : List Bytes) (priority : ℤ)
    → (entries : Items) × (target_template targets priority ≡ arr entries)
      × (strip_entries entries ≡ ok entries)
unfolding target_template strip_entries delete_member
target_template-strip targets priority = (_, refl, refl)

pub apply_targets-IsWritten :
    (targets : List Bytes) (priority : ℤ) (policy : Members)
    → IsWritten policy
    → IsWritten (apply_targets targets priority policy)
unfolding apply_targets
apply_targets-IsWritten [] priority policy h = h
apply_targets-IsWritten (t ∷ targets) priority policy h =
    let (entries, made, stripped) = target_template-strip (t ∷ targets) priority in
    subst (λ v. IsWritten (set_member template_key v policy)) (sym made)
      (set_member-IsWritten entries policy (IsWritten-IsFree policy h) stripped)
