-- ===== src/Cli/Ism/Policy/Stored.antt =====
-- What buildPolicy and policyUnchanged of internal/cli/ism_policy.go make of a decoded document is made
-- of maps again.
use opensearch_api.Cli.Ism.Policy.{
  JsonLib, apply_targets, as_object, body_error, build_policy, decode_json, err_policy_body,
  normalize_policy, stored_policy, str_items, target_template,
}
use opensearch_api.Prelude.{
  >>=-eq-ok, Bool, Bytes, List, [], ap, codes, guard, is_some, map_err, map_err-eq-ok, ok,
  ok-injective, refl, some, subst, ℤ, ◌∷◌, ◌≡◌,
}
use opensearch_api.Errors.{join, other}
use opensearch_api.Json.{Json, Members, arr, bool, null, num, obj, str}
use opensearch_api.Cli.Ism.Value.{AreMaps, IsMaps, get_member}
use opensearch_api.Cli.Ism.Value.Same.{HaveMaps-get_member}
use opensearch_api.Cli.Ism.Policy.Maps.{normalize_policy-IsMaps, set_member-IsMaps}
use opensearch_api.Cli.Ism.Policy.Written.{
  IsWritten, apply_targets-IsWritten, normalize_policy-IsWritten,
}

-- What the JSON decoder promises: objects become maps.
abbrev pub GivesMaps : JsonLib → Type 0
GivesMaps lib =
    (raw : Bytes) (v : Json) (at_end : Bool) → lib.decode raw ≡ ok (v, at_end) → IsMaps v

pub as_object-eq-ok : (top : Json) (doc : Members) → as_object top ≡ ok doc → top ≡ obj doc
as_object-eq-ok (obj m) doc h = ap obj (ok-injective h)
as_object-eq-ok null doc h = absurd (cc)
as_object-eq-ok (bool b) doc h = absurd (cc)
as_object-eq-ok (num s) doc h = absurd (cc)
as_object-eq-ok (str s) doc h = absurd (cc)
as_object-eq-ok (arr xs) doc h = absurd (cc)

module _ (lib : JsonLib) (gives_maps : GivesMaps lib) where
  decode_json-IsMaps : (raw : Bytes) (v : Json) → decode_json lib raw ≡ ok v → IsMaps v
  unfolding decode_json
  decode_json-IsMaps raw v h =
      let (read, h1, r1) = >>=-eq-ok (lib.decode raw) _ h in
      let (_, h2, r2) = >>=-eq-ok (guard read.1 (other (codes "data after the JSON value"))) _ r1 in
      subst IsMaps (ok-injective r2) (gives_maps raw read.0 read.1 h1)

  object_members :
      (raw : Bytes) (top : Json) (doc : Members)
      → decode_json lib raw ≡ ok top
      → as_object top ≡ ok doc
      → (v : Json) → get_member (codes "policy") doc ≡ some v
      → IsMaps v
  object_members raw top doc read made v there =
      let maps = subst IsMaps (as_object-eq-ok top doc made) (decode_json-IsMaps raw top read) in
      HaveMaps-get_member doc (codes "policy") v maps.1 there

  str_items-AreMaps : (targets : List Bytes) → AreMaps (str_items targets)
  str_items-AreMaps [] = tt
  str_items-AreMaps (t ∷ targets) = (tt, str_items-AreMaps targets)

  target_template-IsMaps :
      (targets : List Bytes) (priority : ℤ) → IsMaps (target_template targets priority)
  unfolding target_template
  target_template-IsMaps targets priority =
      (((refl, (refl, tt)), (str_items-AreMaps targets, (tt, tt))), tt)

  apply_targets-IsMaps :
      (targets : List Bytes) (priority : ℤ) (policy : Members)
      → IsMaps (obj policy)
      → IsMaps (obj (apply_targets targets priority policy))
  unfolding apply_targets
  apply_targets-IsMaps [] priority policy h = h
  apply_targets-IsMaps (t ∷ targets) priority policy h =
      set_member-IsMaps (codes "ism_template") (target_template (t ∷ targets) priority) policy
        (target_template-IsMaps (t ∷ targets) priority) h

  pub stored_policy-IsMaps :
      (body : Bytes) (have : Members) → stored_policy lib body ≡ ok have → IsMaps (obj have)
  unfolding stored_policy
  stored_policy-IsMaps body have h =
      let (top, h1, r1) = >>=-eq-ok (decode_json lib body) _ h in
      let (doc, h2, r2) = >>=-eq-ok (as_object top) _ r1 in
      normalize_policy-IsMaps (get_member (codes "policy") doc) have r2
        (object_members body top doc h1 h2)

  -- A policy that is wanted is written, and made of maps.
  pub build_policy-IsWritten :
      (raw : Bytes) (targets : List Bytes) (priority : ℤ) (want : Members)
      → build_policy lib raw targets priority ≡ ok want
      → IsWritten want × IsMaps (obj want)
  unfolding build_policy
  build_policy-IsWritten raw targets priority want h =
      let (top, h1, r1) =
        >>=-eq-ok (map_err (join [] err_policy_body (codes ": ")) (decode_json lib raw)) _ h in
      let (doc, h2, r2) = >>=-eq-ok (as_object top) _ r1 in
      let (_, h3, r3) =
        >>=-eq-ok
          (guard (is_some (get_member (codes "policy") doc))
            (body_error (codes ": top-level \"policy\" object is required")))
          _ r2 in
      let (policy, h4, r4) = >>=-eq-ok (normalize_policy (get_member (codes "policy") doc)) _ r3 in
      let maps =
        normalize_policy-IsMaps (get_member (codes "policy") doc) policy h4
          (object_members raw top doc (map_err-eq-ok _ _ h1) h2) in
      subst (λ w. IsWritten w × IsMaps (obj w)) (ok-injective r4)
        (
          apply_targets-IsWritten targets priority policy
              (normalize_policy-IsWritten (get_member (codes "policy") doc) policy h4),
          apply_targets-IsMaps targets priority policy maps,
        )
