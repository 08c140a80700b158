-- ===== src/Cli/Ism/Names.antt =====
-- internal/cli/ism.go, validName and the paths of the policy API, and explainPath of ism_reapply.go.
use opensearch_api.Prelude.{
  Bytes, Result, [], any, arith, bytes_eq, codes, err, false, if◌then◌else◌, is_empty, is_one_of,
  ok, quoted, refl, split_on, ◌++◌, ◌==◌, ◌>>◌, ◌||◌, ◌∷◌, ◌≡◌,
}
use opensearch_api.Errors.{Err, other}
use opensearch_api.Runbook.Template.{is_dot_segment}

unfoldable pub ism_prefix : Bytes
ism_prefix = codes "_plugins/_ism/"

unfoldable pub ism_policies_path : Bytes
unfolding ism_prefix
ism_policies_path = ism_prefix ++ codes "policies"

unfoldable pub ism_change_policy : Bytes
unfolding ism_prefix
ism_change_policy = ism_prefix ++ codes "change_policy"

unfoldable pub ism_explain_path : Bytes
unfolding ism_prefix
ism_explain_path = ism_prefix ++ codes "explain"

abbrev pub ism_invalid_name_set : Bytes
ism_invalid_name_set = codes "/?#%"

abbrev pub name_error : Bytes → Bytes → Bytes → Err
name_error kind s why = other (codes "invalid " ++ kind ++ codes " " ++ quoted s ++ why)

unfoldable pub valid_name : Bytes → Bytes → Result Err (Unit {0})
valid_name kind s =
    if is_empty s || (bytes_eq s (codes ".") || bytes_eq s (codes ".."))
    then err (name_error kind s (codes ": must be a name"))
    else if any (is_one_of ism_invalid_name_set) s
    then err (name_error kind s (codes ": must not contain any of " ++ ism_invalid_name_set))
    else ok tt

unfoldable pub policy_path : Bytes → Bytes
policy_path id = ism_policies_path ++ codes "/" ++ id

unfoldable pub explain_path : Bytes → Result Err Bytes
explain_path target =
    if is_empty target
    then ok ism_explain_path
    else valid_name (codes "target") target >> ok (ism_explain_path ++ codes "/" ++ target)

-- A text that is one segment of a path whatever stands before and behind it.
abbrev pub IsSegment : Bytes → Type 0
IsSegment s =
    (is_empty s ≡ false) × (is_dot_segment s ≡ false) × (any (is_one_of (codes "/?#%")) s ≡ false)

valid_name-IsSegment : (kind s : Bytes) {u : Unit {0}} → valid_name kind s ≡ ok u → IsSegment s
unfolding valid_name
valid_name-IsSegment kind s h = ground arith

split_on-IsSegment :
    (s : Bytes) → any (is_one_of (codes "/?#%")) s ≡ false → split_on b'/' s ≡ s ∷ []
unfolding split_on
split_on-IsSegment [] h = refl
split_on-IsSegment (c ∷ s) h =
    let rest = split_on-IsSegment s (ground arith) in
    let other : (c == b'/') ≡ false = ground arith in rw (rest, other) refl

-- A policy id that is accepted stays one segment: the request goes to the policy of that name, and to
-- no other path of the server.
pub policy_path-split_on :
    (kind id : Bytes)
    → valid_name kind id ≡ ok tt
    → (split_on b'/' (policy_path id)
        ≡ codes "_plugins" ∷ codes "_ism" ∷ codes "policies" ∷ id ∷ [])
      × IsSegment id
unfolding policy_path ism_policies_path split_on
policy_path-split_on kind id h =
    let segment = valid_name-IsSegment kind id h in
    (rw (split_on-IsSegment id segment.2) refl, segment)
