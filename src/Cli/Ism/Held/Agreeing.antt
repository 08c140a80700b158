-- ===== src/Cli/Ism/Held/Agreeing.antt =====
-- When normalizePolicy of internal/cli/ism_policy.go makes of a stored policy what the wanted one has.
use opensearch_api.Prelude.{
  >>=-eq-ok, Bool-cases, Bytes, Option, Option-cases, [], ap, bytes_eq, bytes_eq_sound, codes,
  false, if◌then◌else◌, inl, inr, is_listed, is_some, none, ok, ok-injective, refl, some, subst,
  sym, true, ◌∙◌, ◌∷◌, ◌≡◌, ◌⊎◌,
}
use opensearch_api.Json.{Items, Json, Members, arr, bool, cons, nil, null, num, obj, str}
use opensearch_api.Cli.Ism.Value.{get_member, set_member}
use opensearch_api.Cli.Ism.Value.Shape.{SameJson, at_key, shape_in}
use opensearch_api.Cli.Ism.Value.Same.{is_listed-names_of}
use opensearch_api.Cli.Ism.Policy.{
  delete_members, ism_server_fields, normalize_members, strip_entries, template_entries,
  with_template,
}
use opensearch_api.Cli.Ism.Policy.Written.{
  IsWritten, IsWritten-IsFree, plain, template_key, templated,
}
use opensearch_api.Cli.Ism.Held.Entries.{
  SameEntries-strip_entries, get_member-delete_members, get_member-set_member, objects_same,
  strip_entries-SameEntries,
}
use opensearch_api.Cli.Ism.Held.{IsCompared, SameEntries, SameMember, SameTemplate, server_keys}

deleted_member :
    (key : Bytes) (m : Members)
    → get_member key (delete_members ism_server_fields m)
      ≡ (if is_listed server_keys key then none else get_member key m)
unfolding ism_server_fields
deleted_member key m =
    get_member-delete_members key
      (codes "policy_id" ∷ codes "last_updated_time" ∷ codes "user" ∷ codes "schema_version" ∷ []) m

pub undeleted_member :
    (key : Bytes) (m : Members)
    → is_listed server_keys key ≡ false
    → get_member key (delete_members ism_server_fields m) ≡ get_member key m
undeleted_member key m h = deleted_member key m ∙ ap (λ b. if b then none else get_member key m) h

-- What a written policy has under the names that are not compared.
IsWritten-server_keys :
    (want : Members) (key : Bytes)
    → IsWritten want
    → is_listed server_keys key ≡ true
    → get_member key want ≡ none
unfolding ism_server_fields
IsWritten-server_keys want key written owned = elim (Option-cases (get_member key want)) [
  | inl none? ↦ none?
  | inr (v, there) ↦ absurd (
      cc (
        sym (IsWritten-IsFree want written key owned)
        ∙ is_listed-names_of key want
        ∙ ap is_some there))
]

IsWritten-template :
    (want : Members)
    → IsWritten want
    → (get_member template_key want ≡ none)
      ⊎ ((ys : Items) × (get_member template_key want ≡ some (arr ys)) × (strip_entries ys ≡ ok ys))
unfolding get_member
IsWritten-template _ (plain m free absent) = elim (Option-cases (get_member template_key m)) [
  | inl none? ↦ inl none?
  | inr (v, there) ↦ absurd (cc (sym absent ∙ is_listed-names_of template_key m ∙ ap is_some there))
]
IsWritten-template _ (templated entries m free absent stripped) = inr (entries, refl, stripped)

-- The template of a stored policy and the entries that it stands for.
template_entries-SameTemplate :
    (t : Json) (entries ys : Items)
    → template_entries t ≡ ok entries
    → SameEntries entries ys
    → SameTemplate (some t) (some (arr ys))
unfolding template_entries
template_entries-SameTemplate (obj m) entries ys h same =
    subst (λ xs. SameEntries xs ys) (sym (ok-injective h)) same
template_entries-SameTemplate (arr xs) entries ys h same =
    subst (λ zs. SameEntries zs ys) (sym (ok-injective h)) same
template_entries-SameTemplate null entries ys h same = absurd (cc)
template_entries-SameTemplate (bool b) entries ys h same = absurd (cc)
template_entries-SameTemplate (num s) entries ys h same = absurd (cc)
template_entries-SameTemplate (str s) entries ys h same = absurd (cc)

SameTemplate-none : (o : Option Json) → SameTemplate o none → o ≡ none
SameTemplate-none none same = refl
SameTemplate-none (some null) same = absurd same
SameTemplate-none (some (bool b)) same = absurd same
SameTemplate-none (some (num s)) same = absurd same
SameTemplate-none (some (str s)) same = absurd same
SameTemplate-none (some (arr xs)) same = absurd same
SameTemplate-none (some (obj m)) same = absurd same

SameTemplate-some :
    (o : Option Json) (ys : Items)
    → SameTemplate o (some (arr ys))
    → (t : Json) × (entries : Items) × (o ≡ some t)
      × (template_entries t ≡ ok entries)
      × SameEntries entries ys
unfolding template_entries
SameTemplate-some (some (obj m)) ys same = (obj m, cons (obj m) nil, refl, refl, same)
SameTemplate-some (some (arr xs)) ys same = (arr xs, xs, refl, refl, same)
SameTemplate-some none ys same = absurd same
SameTemplate-some (some null) ys same = absurd same
SameTemplate-some (some (bool b)) ys same = absurd same
SameTemplate-some (some (num s)) ys same = absurd same
SameTemplate-some (some (str s)) ys same = absurd same

-- What the two policies agree on, whatever the document says beside it.
pub record Agree (stored want : Members) : Type 0 where
  pub agreed :
      (key : Bytes) → IsCompared key → SameMember (get_member key stored) (get_member key want)
  pub same_template : SameTemplate (get_member template_key stored) (get_member template_key want)

SameTemplate-as :
    {a a' b b' : Option Json} → a ≡ a' → b ≡ b' → SameTemplate a' b' → SameTemplate a b
SameTemplate-as {a' = a'} {b = b} ea eb same =
    subst (λ o. SameTemplate o b) (sym ea) (subst (SameTemplate a') (sym eb) same)

absent_same : (o : Option Json) → shape_in [] none ≡ shape_in [] o → o ≡ none
absent_same none h = refl
absent_same (some v) h = absurd (cc)

present_template :
    (t : Json) (entries zs : Items) (want : Members)
    → IsWritten want
    → template_entries t ≡ ok entries
    → strip_entries entries ≡ ok zs
    → SameMember (some (arr zs)) (get_member template_key want)
    → SameTemplate (some t) (get_member template_key want)
present_template t entries zs want written made stripped same =
    elim (IsWritten-template want written) [
      | inl missing ↦ absurd (cc (same [] ∙ ap (shape_in []) missing))
      | inr (ys, there, fixed) ↦ SameTemplate-as {a = some t} refl there (
          template_entries-SameTemplate t entries ys made (
            strip_entries-SameEntries entries zs ys stripped fixed
              (λ p. same p ∙ ap (shape_in p) there)))
    ]

pub with_template-Agree :
    (stored have want : Members) (o : Option Json)
    → IsWritten want
    → get_member template_key stored ≡ o
    → with_template (delete_members ism_server_fields stored) o ≡ ok have
    → SameJson (obj have) (obj want)
    → Agree stored want
unfolding with_template
with_template-Agree stored have want none written there h same =
    let e : delete_members ism_server_fields stored ≡ have = ok-injective h in
    record {
      agreed = λ key (apart, other) p.
          sym (ap (shape_in p) (undeleted_member key stored apart))
          ∙ ap (λ m. shape_in p (get_member key m)) e
          ∙ same (at_key key ∷ p);
      same_template =
          SameTemplate-as there
            (absent_same (get_member template_key want) (
              ap (shape_in []) (
                sym there
                ∙ sym (undeleted_member template_key stored refl)
                ∙ ap (get_member template_key) e)
              ∙ same (at_key template_key ∷ [])))
            tt;
    }
with_template-Agree stored have want (some t) written there h same =
    let (entries, e1, r1) = >>=-eq-ok (template_entries t) _ h in
    let (zs, e2, r2) = >>=-eq-ok (strip_entries entries) _ r1 in
    let kept = delete_members ism_server_fields stored in
    record {
      agreed = λ key (apart, other) p.
          sym (
            ap (shape_in p) (
              get_member-set_member key template_key (arr zs) kept
              ∙ ap (λ b. if b then some (arr zs) else get_member key kept) other
              ∙ undeleted_member key stored apart))
          ∙ ap (λ m. shape_in p (get_member key m)) (ok-injective r2)
          ∙ same (at_key key ∷ p);
      same_template = SameTemplate-as {b = get_member template_key want} there refl (
          present_template t entries zs want written e1 e2 (λ p.
            sym (ap (shape_in p) (get_member-set_member template_key template_key (arr zs) kept))
            ∙ ap (λ m. shape_in p (get_member template_key m)) (ok-injective r2)
            ∙ same (at_key template_key ∷ p)));
    }

-- Members that are not the template, without those that the server owns.
rest_same :
    (stored want : Members) (key : Bytes)
    → IsWritten want
    → ((name : Bytes)
        → IsCompared name
        → SameMember (get_member name stored) (get_member name want))
    → bytes_eq template_key key ≡ false
    → SameMember (get_member key (delete_members ism_server_fields stored)) (get_member key want)
rest_same stored want key written agreed other p = elim (Bool-cases (is_listed server_keys key)) [
  | inl owned ↦ ap (shape_in p) (
      deleted_member key stored
      ∙ ap (λ b. if b then none else get_member key stored) owned
      ∙ sym (IsWritten-server_keys want key written owned))
  | inr apart ↦ ap (shape_in p) (undeleted_member key stored apart) ∙ agreed key (apart, other) p
]

with_template-eq :
    (m : Members) (t : Json) (entries zs : Items)
    → template_entries t ≡ ok entries
    → strip_entries entries ≡ ok zs
    → with_template m (some t) ≡ ok (set_member template_key (arr zs) m)
unfolding with_template
with_template-eq m t entries zs made stripped = rw (made, stripped) refl

-- Two objects that agree on the template and on all else.
whole_same :
    (m n : Members)
    → SameMember (get_member template_key m) (get_member template_key n)
    → ((key : Bytes)
        → bytes_eq template_key key ≡ false
        → SameMember (get_member key m) (get_member key n))
    → SameJson (obj m) (obj n)
whole_same m n first rest = objects_same m n (λ key p.
    elim (Bool-cases (bytes_eq template_key key)) [
      | inl is_template ↦
          subst (λ k. shape_in p (get_member k m) ≡ shape_in p (get_member k n))
            (bytes_eq_sound template_key key is_template) (first p)
      | inr other ↦ rest key other p
    ])

pub Agree-with_template :
    (stored want : Members)
    → IsWritten want
    → Agree stored want
    → (have : Members) × (normalize_members stored ≡ ok have) × SameJson (obj have) (obj want)
unfolding normalize_members
Agree-with_template stored want written agree =
    let kept = delete_members ism_server_fields stored in
    let found = undeleted_member template_key stored refl in
    let rest = rest_same stored want in
    elim (IsWritten-template want written) [
      | inl missing ↦
          let absent = SameTemplate-none (get_member template_key stored) (
            SameTemplate-as {a = get_member template_key stored} refl (sym missing)
              agree.same_template) in
          (
            kept,
            ap (with_template kept) (found ∙ absent) ∙ (unfold with_template in refl),
            whole_same kept want (λ p. ap (shape_in p) (found ∙ absent ∙ sym missing))
                (λ key. rest key written agree.agreed),
          )
      | inr (ys, there, fixed) ↦
          let (t, entries, is_t, made, same) =
            SameTemplate-some (get_member template_key stored) ys (
              SameTemplate-as {a = get_member template_key stored} refl (sym there)
                agree.same_template) in
          let (zs, stripped, same_zs) = SameEntries-strip_entries entries ys fixed same in
          (
            set_member template_key (arr zs) kept,
            ap (with_template kept) (found ∙ is_t)
                ∙ with_template-eq kept t entries zs made stripped,
            whole_same (set_member template_key (arr zs) kept) want
                (λ p.
                  ap (shape_in p) (get_member-set_member template_key template_key (arr zs) kept)
                  ∙ same_zs p
                  ∙ sym (ap (shape_in p) there))
                (λ key other p.
                  ap (shape_in p) (
                    get_member-set_member key template_key (arr zs) kept
                    ∙ ap (λ b. if b then some (arr zs) else get_member key kept) other)
                  ∙ rest key written agree.agreed other p),
          )
    ]
