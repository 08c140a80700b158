-- ===== src/Cli/Ism/Policy.antt =====
-- internal/cli/ism_policy.go: decodeJSON, marshalRaw, normalizePolicy, buildPolicy and policyUnchanged.
-- The JSON decoder and encoder are arguments.

pub mod Maps
pub mod Written
pub mod Stored
pub mod Again
use opensearch_api.Prelude.{
  Bool, Bytes, List, Option, Result, [], codes, err, false, format_int, guard, if◌then◌else◌,
  is_empty, is_some, map_err, none, not, ok, some, true, ℕ, ℤ, ◌&&◌, ◌+◌, ◌==◌, ◌>>=◌, ◌>>◌, ◌∷◌,
}
use opensearch_api.Errors.{Err, join, other, wrap}
use opensearch_api.Json.{Items, Json, Members, arr, cons, end, member, nil, num, obj, str}
use opensearch_api.Cli.Ism.Value.{deep_equal, delete_member, get_member, set_member}

-- encoding/json under UseNumber and without HTML escapes: `Decode` gives the first value of a text and
-- whether `Token` finds the end of the input behind it; `Encode` gives a text that ends in a newline.
pub record JsonLib : Type 0 where
  pub decode : Bytes → Result Err (Json × Bool)
  pub encode : Json → Result Err Bytes

unfoldable pub decode_json : JsonLib → Bytes → Result Err Json
decode_json lib raw = do
  read ← lib.decode raw
  guard read.1 (other (codes "data after the JSON value"))
  ok read.0

unfoldable pub trim_right_newlines : Bytes → Bytes
trim_right_newlines [] = []
trim_right_newlines (c ∷ s) =
    let rest = trim_right_newlines s in if is_empty rest && (c == b'\n') then [] else c ∷ rest

unfoldable pub marshal_raw : JsonLib → Json → Result Err Bytes
marshal_raw lib v = map_err (λ e. wrap (codes "encoding policy: ") e []) (lib.encode v) >>= λ text.
    ok (trim_right_newlines text)

-- `ismServerFields`
unfoldable pub ism_server_fields : List Bytes
ism_server_fields =
    codes "policy_id" ∷ codes "last_updated_time" ∷ codes "user" ∷ codes "schema_version" ∷ []

abbrev pub err_policy_body : Err
err_policy_body = other (codes "policy body")

abbrev pub body_error : Bytes → Err
body_error why = wrap [] err_policy_body why

unfoldable pub delete_members : List Bytes → Members → Members
delete_members [] members = members
delete_members (key ∷ keys) members = delete_members keys (delete_member key members)

abbrev pub bad_template : Err
bad_template = body_error (codes ": \"ism_template\" must be an object or an array of objects")

-- The loop over the entries of a template.
unfoldable pub strip_entries : Items → Result Err Items
strip_entries nil = ok nil
strip_entries (cons (obj m) rest) = strip_entries rest >>= λ stripped.
    ok (cons (obj (delete_member (codes "last_updated_time") m)) stripped)
strip_entries (cons _ rest) = err bad_template

-- The switch on the template.
unfoldable pub template_entries : Json → Result Err Items
template_entries (obj m) = ok (cons (obj m) nil)
template_entries (arr xs) = ok xs
template_entries _ = err bad_template

unfoldable pub with_template : Members → Option Json → Result Err Members
with_template policy none = ok policy
with_template policy (some template) = do
  entries ← template_entries template
  stripped ← strip_entries entries
  ok (set_member (codes "ism_template") (arr stripped) policy)

unfoldable pub normalize_members : Members → Result Err Members
normalize_members members =
    let policy = delete_members ism_server_fields members in
    with_template policy (get_member (codes "ism_template") policy)

-- A policy as it is written back: without the fields that the server owns.
unfoldable pub normalize_policy : Option Json → Result Err Members
normalize_policy (some (obj members)) = normalize_members members
normalize_policy _ = err (body_error (codes ": \"policy\" must be an object"))

abbrev pub str_items : List Bytes → Items
str_items [] = nil
str_items (s ∷ rest) = cons (str s) (str_items rest)

-- The template of `--target` and `--priority`.
unfoldable pub target_template : List Bytes → ℤ → Json
target_template targets priority = arr (
    cons
      (obj (
        member (codes "index_patterns") (arr (str_items targets))
          (member (codes "priority") (num (format_int priority)) end)))
      nil)

unfoldable pub apply_targets : List Bytes → ℤ → Members → Members
apply_targets targets priority policy =
    if is_empty targets
    then policy
    else set_member (codes "ism_template") (target_template targets priority) policy

abbrev pub as_object : Json → Result Err Members
as_object (obj members) = ok members
as_object _ = err (body_error (codes ": must be a JSON object"))

-- `buildPolicy`
unfoldable pub build_policy : JsonLib → Bytes → List Bytes → ℤ → Result Err Members
build_policy lib raw targets priority = do
  top ← map_err (join [] err_policy_body (codes ": ")) (decode_json lib raw)
  doc ← as_object top
  guard (is_some (get_member (codes "policy") doc))
      (body_error (codes ": top-level \"policy\" object is required"))
  policy ← normalize_policy (get_member (codes "policy") doc)
  ok (apply_targets targets priority policy)

-- What a stored body holds under "policy", as it would be written back.
unfoldable pub stored_policy : JsonLib → Bytes → Result Err Members
stored_policy lib body = do
  top ← decode_json lib body
  doc ← as_object top
  normalize_policy (get_member (codes "policy") doc)

abbrev pub is_same : Members → Result Err Members → Bool
is_same want (err e) = false
is_same want (ok have) = deep_equal (obj have) (obj want)

-- The test of policyUnchanged.
unfoldable pub policy_unchanged : JsonLib → Members → Bytes → Bool
policy_unchanged lib want body = is_same want (stored_policy lib body)

-- The hook of policyUnchanged with its variable: it says once that the policy is unchanged.
unfoldable pub unchanged_hook : JsonLib → Members → Bytes → Bool → Bool × Bool
unchanged_hook lib want body reported =
    if policy_unchanged lib want body then (true, true) else (false, reported)

-- The hook on the bodies of several attempts, with the number of times that it said so.
unfoldable pub reports_of : JsonLib → Members → List Bytes → Bool → ℕ
reports_of lib want [] reported = 0
reports_of lib want (body ∷ bodies) reported =
    let (same, reported2) = unchanged_hook lib want body reported in
    (if same && not reported then 1 else 0) + reports_of lib want bodies reported2
