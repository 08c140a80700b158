-- ===== src/Cli/Ism/Policy/Maps.antt =====
-- That a normalised policy is made of maps as the decoded one is: no name stands twice in an object.
use opensearch_api.Prelude.{
  >>=-eq-ok, AreDistinct, Bool, Bool-cases, Bytes, List, Option, [], ap, arith, bytes_eq,
  bytes_eq_iff, bytes_eq_refl, codes, false, inl, inr, is_listed, none, not, ok, ok-injective, refl,
  some, subst, true, ◌&&◌, ◌∙◌, ◌∷◌, ◌≡◌,
}
use opensearch_api.Json.{
  Items, Json, Members, arr, bool, cons, end, member, nil, null, num, obj, str,
}
use opensearch_api.Cli.Ism.Value.{
  AreMaps, HaveMaps, IsMaps, delete_member, get_member, names_of, set_member,
}
use opensearch_api.Cli.Ism.Value.Same.{HaveMaps-get_member}
use opensearch_api.Cli.Ism.Policy.{
  delete_members, ism_server_fields, normalize_members, normalize_policy, strip_entries,
  template_entries, with_template,
}

pub is_listed-delete_member :
    (key name : Bytes) (m : Members)
    → is_listed (names_of (delete_member key m)) name
      ≡ (is_listed (names_of m) name && not (bytes_eq key name))
unfolding delete_member
is_listed-delete_member key name end = refl
is_listed-delete_member key name (member first value rest) = ground (
  arith,
  is_listed-delete_member key name rest,
  bytes_eq_iff first key,
  bytes_eq_iff first name,
  bytes_eq_iff key name,
)

delete_member-AreDistinct :
    (key : Bytes) (m : Members)
    → AreDistinct (names_of m)
    → AreDistinct (names_of (delete_member key m))
unfolding delete_member
delete_member-AreDistinct key end h = tt
delete_member-AreDistinct key (member name value rest) (h, hs) =
    elim (Bool-cases (bytes_eq name key)) [
      | inl same ↦ rw same (delete_member-AreDistinct key rest hs)
      | inr apart ↦ rw apart (
        is_listed-delete_member key name rest ∙ ap (λ b. b && not (bytes_eq key name)) h,
        delete_member-AreDistinct key rest hs,
      )
    ]

delete_member-HaveMaps : (key : Bytes) (m : Members) → HaveMaps m → HaveMaps (delete_member key m)
unfolding delete_member
delete_member-HaveMaps key end h = tt
delete_member-HaveMaps key (member name value rest) (h, hs) =
    elim (Bool-cases (bytes_eq name key)) [
      | inl same ↦ rw same (delete_member-HaveMaps key rest hs)
      | inr apart ↦ rw apart (h, delete_member-HaveMaps key rest hs)
    ]

delete_member-IsMaps :
    (key : Bytes) (m : Members) → IsMaps (obj m) → IsMaps (obj (delete_member key m))
delete_member-IsMaps key m h =
    (delete_member-AreDistinct key m h.0, delete_member-HaveMaps key m h.1)

pub and_false : (b : Bool) → (b && false) ≡ false
and_false true = refl
and_false false = refl

pub set_member-AreDistinct :
    (key : Bytes) (value : Json) (m : Members)
    → AreDistinct (names_of m)
    → AreDistinct (names_of (set_member key value m))
unfolding set_member
set_member-AreDistinct key value m h = (
  is_listed-delete_member key key m
      ∙ ap (λ b. is_listed (names_of m) key && not b) (bytes_eq_refl key)
      ∙ and_false (is_listed (names_of m) key),
  delete_member-AreDistinct key m h,
)

pub set_member-IsMaps :
    (key : Bytes) (value : Json) (m : Members)
    → IsMaps value
    → IsMaps (obj m)
    → IsMaps (obj (set_member key value m))
unfolding set_member
set_member-IsMaps key value m hv h =
    (set_member-AreDistinct key value m h.0, (hv, delete_member-HaveMaps key m h.1))

delete_members-IsMaps :
    (keys : List Bytes) (m : Members) → IsMaps (obj m) → IsMaps (obj (delete_members keys m))
unfolding delete_members
delete_members-IsMaps [] m h = h
delete_members-IsMaps (key ∷ keys) m h =
    delete_members-IsMaps keys (delete_member key m) (delete_member-IsMaps key m h)

strip_entries-AreMaps : (xs ys : Items) → strip_entries xs ≡ ok ys → AreMaps xs → AreMaps ys
unfolding strip_entries
strip_entries-AreMaps nil ys e h = subst AreMaps (ok-injective e) tt
strip_entries-AreMaps (cons (obj m) rest) ys e (h, hs) =
    let (stripped, e1, r1) = >>=-eq-ok (strip_entries rest) _ e in
    subst AreMaps (ok-injective r1) (
      delete_member-IsMaps (codes "last_updated_time") m h,
      strip_entries-AreMaps rest stripped e1 hs,
    )
strip_entries-AreMaps (cons null rest) ys e h = absurd (cc)
strip_entries-AreMaps (cons (bool b) rest) ys e h = absurd (cc)
strip_entries-AreMaps (cons (num s) rest) ys e h = absurd (cc)
strip_entries-AreMaps (cons (str s) rest) ys e h = absurd (cc)
strip_entries-AreMaps (cons (arr xs) rest) ys e h = absurd (cc)

template_entries-AreMaps :
    (t : Json) (xs : Items) → template_entries t ≡ ok xs → IsMaps t → AreMaps xs
unfolding template_entries
template_entries-AreMaps (obj m) xs e h = subst AreMaps (ok-injective e) (h, tt)
template_entries-AreMaps (arr ys) xs e h = subst AreMaps (ok-injective e) h
template_entries-AreMaps null xs e h = absurd (cc)
template_entries-AreMaps (bool b) xs e h = absurd (cc)
template_entries-AreMaps (num s) xs e h = absurd (cc)
template_entries-AreMaps (str s) xs e h = absurd (cc)

with_template-IsMaps :
    (policy : Members) (t : Option Json) (out : Members)
    → with_template policy t ≡ ok out
    → IsMaps (obj policy)
    → ((v : Json) → t ≡ some v → IsMaps v)
    → IsMaps (obj out)
unfolding with_template
with_template-IsMaps policy none out e h ht = subst (λ m. IsMaps (obj m)) (ok-injective e) h
with_template-IsMaps policy (some t) out e h ht =
    let (entries, e1, r1) = >>=-eq-ok (template_entries t) _ e in
    let (stripped, e2, r2) = >>=-eq-ok (strip_entries entries) _ r1 in
    subst (λ m. IsMaps (obj m)) (ok-injective r2)
      (set_member-IsMaps (codes "ism_template") (arr stripped) policy
        (strip_entries-AreMaps entries stripped e2
          (template_entries-AreMaps t entries e1 (ht t refl)))
        h)

normalize_members-IsMaps :
    (m out : Members) → normalize_members m ≡ ok out → IsMaps (obj m) → IsMaps (obj out)
unfolding normalize_members
normalize_members-IsMaps m out e h =
    let kept = delete_members-IsMaps ism_server_fields m h in
    with_template-IsMaps (delete_members ism_server_fields m)
      (get_member (codes "ism_template") (delete_members ism_server_fields m)) out e kept
      (λ v there.
        HaveMaps-get_member (delete_members ism_server_fields m) (codes "ism_template") v kept.1
          there)

pub normalize_policy-IsMaps :
    (p : Option Json) (out : Members)
    → normalize_policy p ≡ ok out
    → ((v : Json) → p ≡ some v → IsMaps v)
    → IsMaps (obj out)
unfolding normalize_policy
normalize_policy-IsMaps none out e h = absurd (cc)
normalize_policy-IsMaps (some (obj m)) out e h = normalize_members-IsMaps m out e (h (obj m) refl)
normalize_policy-IsMaps (some null) out e h = absurd (cc)
normalize_policy-IsMaps (some (bool b)) out e h = absurd (cc)
normalize_policy-IsMaps (some (num s)) out e h = absurd (cc)
normalize_policy-IsMaps (some (str s)) out e h = absurd (cc)
normalize_policy-IsMaps (some (arr xs)) out e h = absurd (cc)
