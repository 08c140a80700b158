-- ===== src/Cli/Ism/Held.antt =====
-- When a stored body counts as the wanted policy: policyUnchanged of internal/cli/ism_policy.go and
-- what the documents say of it, apart from how a policy is normalised.
pub mod Entries
pub mod Agreeing
pub mod Unchanged
use opensearch_api.Prelude.{
  Bytes, List, Option, [], bytes_eq, codes, false, is_listed, none, ok, some, true, ◌∷◌, ◌≡◌,
}
use opensearch_api.Json.{Items, Json, Members, arr, cons, nil, obj}
use opensearch_api.Cli.Ism.Value.{get_member}
use opensearch_api.Cli.Ism.Value.Shape.{Step, shape_in}
use opensearch_api.Cli.Ism.Policy.{JsonLib}

-- The fields of a policy that the server writes.
abbrev pub server_keys : List Bytes
server_keys =
    codes "policy_id" ∷ codes "last_updated_time" ∷ codes "user" ∷ codes "schema_version" ∷ []

-- A name that two policies are compared by, but for the template.
abbrev pub IsCompared : Bytes → Type 0
IsCompared key = (is_listed server_keys key ≡ false) × (bytes_eq (codes "ism_template") key ≡ false)

-- Two members, or their absence, have the same at every place.
abbrev pub SameMember : Option Json → Option Json → Type 0
SameMember a b = (p : List Step) → shape_in p a ≡ shape_in p b

-- Two lists of objects agree but for the times of their entries.
abbrev pub SameEntries : Items → Items → Type 0
SameEntries nil nil = Unit
SameEntries (cons (obj m) xs) (cons (obj n) ys) =
    ((key : Bytes)
      → bytes_eq (codes "last_updated_time") key ≡ false
      → SameMember (get_member key m) (get_member key n))
    × SameEntries xs ys
SameEntries _ _ = ⊥

-- A stored template, one object or a list of them, holds the wanted list of objects.
abbrev pub SameTemplate : Option Json → Option Json → Type 0
SameTemplate none none = Unit
SameTemplate (some (obj m)) (some (arr ys)) = SameEntries (cons (obj m) nil) ys
SameTemplate (some (arr xs)) (some (arr ys)) = SameEntries xs ys
SameTemplate _ _ = ⊥

-- The body is a document, and nothing behind it, that holds the wanted policy.
pub record IsHeld (lib : JsonLib) (body : Bytes) (want : Members) : Type 0 where
  pub doc : Members
  pub stored : Members
  pub read : lib.decode body ≡ ok (obj doc, true)
  pub there : get_member (codes "policy") doc ≡ some (obj stored)
  pub fields :
      (key : Bytes) → IsCompared key → SameMember (get_member key stored) (get_member key want)
  pub template :
      SameTemplate
        (get_member (codes "ism_template") stored)
        (get_member (codes "ism_template") want)
