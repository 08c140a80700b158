-- ===== src/Cli/Ism/Held/Unchanged.antt =====
-- That policyUnchanged of internal/cli/ism_policy.go finds just the bodies unchanged that hold the
-- wanted policy.
use opensearch_api.Prelude.{
  >>=-eq-ok, Bytes, List, Option, Result-cases, ap, codes, guard, guard-eq-ok, inl, inr, none, ok,
  ok-injective, refl, some, sym, true, ℤ, ◌↔◌, ◌∙◌, ◌≡◌,
}
use opensearch_api.Json.{Json, Members, arr, bool, null, num, obj, str}
use opensearch_api.Cli.Ism.Value.{get_member}
use opensearch_api.Cli.Ism.Value.Shape.{SameJson}
use opensearch_api.Cli.Ism.Value.Same.{deep_equal-SameJson}
use opensearch_api.Cli.Ism.Value.Complete.{SameJson-deep_equal}
use opensearch_api.Cli.Ism.Policy.{
  JsonLib, as_object, build_policy, decode_json, is_same, normalize_members, normalize_policy,
  policy_unchanged, stored_policy,
}
use opensearch_api.Cli.Ism.Policy.Written.{IsWritten, template_key}
use opensearch_api.Cli.Ism.Policy.Stored.{
  GivesMaps, as_object-eq-ok, build_policy-IsWritten, stored_policy-IsMaps,
}
use opensearch_api.Cli.Ism.Held.{IsHeld}
use opensearch_api.Cli.Ism.Held.Agreeing.{
  Agree-with_template, undeleted_member, with_template-Agree,
}

normalize_policy-eq-ok :
    (o : Option Json) (have : Members)
    → normalize_policy o ≡ ok have
    → (stored : Members) × (o ≡ some (obj stored)) × (normalize_members stored ≡ ok have)
unfolding normalize_policy
normalize_policy-eq-ok (some (obj m)) have h = (m, refl, h)
normalize_policy-eq-ok none have h = absurd (cc)
normalize_policy-eq-ok (some null) have h = absurd (cc)
normalize_policy-eq-ok (some (bool b)) have h = absurd (cc)
normalize_policy-eq-ok (some (num s)) have h = absurd (cc)
normalize_policy-eq-ok (some (str s)) have h = absurd (cc)
normalize_policy-eq-ok (some (arr xs)) have h = absurd (cc)

decode_json-eq-ok :
    (lib : JsonLib) (body : Bytes) (v : Json)
    → decode_json lib body ≡ ok v
    → lib.decode body ≡ ok (v, true)
unfolding decode_json
decode_json-eq-ok lib body v h =
    let (read, h1, r1) = >>=-eq-ok (lib.decode body) _ h in
    let (_, h2, r2) = >>=-eq-ok (guard read.1 _) (λ _. ok read.0) r1 in
    let at_end : read.1 ≡ true = guard-eq-ok read.1 _ h2 in
    h1 ∙ ap (λ b. ok (read.0, b)) at_end ∙ ap (λ w. ok (w, true)) (ok-injective r2)

stored_policy-eq :
    (lib : JsonLib) (body : Bytes) (doc stored have : Members)
    → lib.decode body ≡ ok (obj doc, true)
    → get_member (codes "policy") doc ≡ some (obj stored)
    → normalize_members stored ≡ ok have
    → stored_policy lib body ≡ ok have
unfolding stored_policy decode_json normalize_policy
stored_policy-eq lib body doc stored have read there made = rw (read, there) made

module _ (lib : JsonLib) (gives_maps : GivesMaps lib) where
  stored_policy-IsHeld :
      (want have : Members) (body : Bytes)
      → IsWritten want
      → stored_policy lib body ≡ ok have
      → SameJson (obj have) (obj want)
      → IsHeld lib body want
  unfolding stored_policy normalize_members
  stored_policy-IsHeld want have body written h same =
      let (top, h1, r1) = >>=-eq-ok (decode_json lib body) _ h in
      let (doc, h2, r2) = >>=-eq-ok (as_object top) _ r1 in
      let (stored, there, made) =
        normalize_policy-eq-ok (get_member (codes "policy") doc) have r2 in
      let agree =
        with_template-Agree stored have want _ written
          (sym (undeleted_member template_key stored refl)) made same in
      record {
        doc = doc;
        stored = stored;
        read =
            decode_json-eq-ok lib body top h1 ∙ ap (λ v. ok (v, true)) (as_object-eq-ok top doc h2);
        there = there;
        fields = agree.agreed;
        template = agree.same_template;
      }

  -- A body counts as unchanged exactly when it is a document, with nothing behind it, whose `policy`
  -- is an object that has what the wanted policy has: the same at every place under each name but for
  -- the four that the server writes and `ism_template`, and either no template in both, or as many
  -- entries, objects in both, which agree at every place but for their `last_updated_time`. A stored
  -- template that is one object counts as a list of it. The order of members does not matter.
  pub policy_unchanged-IsHeld-iff :
      (raw : Bytes) (targets : List Bytes) (priority : ℤ) (want : Members) (body : Bytes)
      → build_policy lib raw targets priority ≡ ok want
      → (policy_unchanged lib want body ≡ true) ↔ IsHeld lib body want
  unfolding policy_unchanged
  policy_unchanged-IsHeld-iff raw targets priority want body built =
      let (written, maps) = build_policy-IsWritten lib gives_maps raw targets priority want built in
      (
        λ h. elim (Result-cases (stored_policy lib body)) [
          | inr (e, bad) ↦ absurd (cc (rw bad at h))
          | inl (have, read) ↦ stored_policy-IsHeld want have body written read (
              deep_equal-SameJson (obj have) (obj want)
                (stored_policy-IsMaps lib gives_maps body have read) maps (rw read at h))
        ],
        λ held.
            let (have, made, same) =
              Agree-with_template held.stored want written
                (record { agreed = held.fields; same_template = held.template }) in
            let read =
              stored_policy-eq lib body held.doc held.stored have held.read held.there made in
            ap (is_same want) read
            ∙ SameJson-deep_equal (obj have) (obj want)
                (stored_policy-IsMaps lib gives_maps body have read) maps same,
      )
