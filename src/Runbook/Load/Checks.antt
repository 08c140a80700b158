-- ===== src/Runbook/Load/Checks.antt =====
-- internal/runbook/runbook.go, what the loader decodes a call into and the checks that it makes of one
-- setting: validateMethod, resolveBodyArg, bodyRef, parseCaptures, rejectRefInKey, checkRefs with its
-- error, and the loops over queries and headers.
use opensearch_api.Prelude.{
  Bool, Bytes, List, Option, Result, [], all, bytes_eq, codes, contains_text, drop, err, false,
  guard, has_prefix, if◌then◌else◌, is_digit, is_empty, leb, length, ltb, map_err, none, not, ok,
  some, sort_by, unless_some, ℕ, ◌&&◌, ◌==◌, ◌>>=◌, ◌>>◌, ◌||◌, ◌∷◌,
}
use opensearch_api.Json.{Json}
use opensearch_api.Errors.{Err}
use opensearch_api.Config.Types.{Duration}
use opensearch_api.Osclient.Header.{is_token_byte}
use opensearch_api.Retry.Predicate.{Context, Emission}
use opensearch_api.Runbook.Capture.{Capture, CaptureEmission}
use opensearch_api.Runbook.Call.{RegisterError}
use opensearch_api.Runbook.Template.{Declared, RefError, ScanError, check_refs}
use opensearch_api.Runbook.Spec.{RetrySpec, SpecError}
use opensearch_api.Runbook.Load.Node.{
  Kind, Node, Nodes, content_of, is_mapping, kind_of, more_nodes, no_nodes, unknown_key, value_of,
}
use opensearch_api.Runbook.Load.Headers.{TextMap}

-- `callSpec`, which has its retry part in a record of its own.
pub record CallSpec : Type 0 where
  pub name : Bytes
  pub method : Bytes
  pub path : Bytes
  pub body : Bytes
  pub query : TextMap
  pub headers : TextMap
  pub retry : RetrySpec
  pub continue_on_failure : Bool

-- What an error names as its place: a call by its name and line, the defaults by their line, or the
-- file of a body.
pub data Ref : Type 0 where
  call_ref : Bytes → ℕ → Ref
  defaults_ref : ℕ → Ref
  body_file_ref : Ref → Bytes → Ref

pub data MapField : Type 0 where
  query_field header_field : MapField

pub data LoadError : Type 0 where
  not_readable : Err → LoadError
  extra_document : ℕ → LoadError
  calls_missing : LoadError
  calls_empty : ℕ → LoadError
  calls_not_sequence call_not_mapping : ℕ → Kind → LoadError
  defaults_not_mapping : ℕ → LoadError
  duplicate_name : Bytes → ℕ → ℕ → LoadError
  unknown_key_of missing_key bad_method : Ref → Bytes → LoadError
  not_decoded not_read bad_retry_when bad_success_when : Ref → Err → LoadError
  empty_body_path captures_not_mapping : Ref → LoadError
  bad_retry : Ref → SpecError → LoadError
  bad_capture_name : Ref → Bytes → LoadError
  bad_capture : Ref → Bytes → Err → LoadError
  ref_in_key : Ref → MapField → Bytes → LoadError
  bad_refs : Ref → Bool → ScanError RefError → LoadError
  bad_declaration : Ref → RegisterError → LoadError

-- What the loader calls: the YAML package's decoding of a node onto a value, the jq compiler,
-- `os.ReadFile`, `filepath.Join` and `time.ParseDuration`.
pub record Outside : Type 0 where
  pub decode_onto : Node → CallSpec → Result Err CallSpec
  pub compile : Bytes → Result Err (Context → Json → List Emission)
  pub compile_capture : Bytes → Result Err (Context → Json → List CaptureEmission)
  pub read_file : Bytes → Result Err Bytes
  pub join_path : Bytes → Bytes → Bytes
  pub parse_duration : Bytes → Option Duration

-- `http.NewRequest` refuses a method that is no token; an empty one means GET.
unfoldable pub validate_method : Ref → Bytes → Result LoadError (Unit {0})
validate_method ref method =
    guard (is_empty method || all is_token_byte method) (bad_method ref method)

unfoldable pub check_allowed_keys : Ref → (Bytes → Bool) → Node → Result LoadError (Unit {0})
check_allowed_keys ref allowed item =
    unless_some (unknown_key_of ref) (unknown_key allowed (content_of item))

unfoldable pub resolve_body_arg :
    (Bytes → Bytes → Bytes) → Ref → Bytes → Bytes → Result LoadError Bytes
resolve_body_arg join_path ref base_dir arg =
    if not (has_prefix arg (codes "@")) || bytes_eq arg (codes "@-")
    then ok arg
    else if is_empty (drop 1 arg)
    then err (empty_body_path ref)
    else if has_prefix (drop 1 arg) (codes "/")
    then ok arg
    else ok (b'@' ∷ join_path base_dir (drop 1 arg))

unfoldable pub body_ref : Ref → Bytes → Ref
body_ref ref body_arg =
    if ltb (length body_arg) 2
      || (not (has_prefix body_arg (codes "@")) || bytes_eq body_arg (codes "@-"))
    then ref
    else body_file_ref ref (drop 1 body_arg)

abbrev pub is_name_start : ℕ → Bool
is_name_start c = (leb b'A' c && leb c b'Z') || ((leb b'a' c && leb c b'z') || (c == b'_'))

-- `captureNameRe`
unfoldable pub is_capture_name : Bytes → Bool
is_capture_name [] = false
is_capture_name (c ∷ s) = is_name_start c && all (λ d. is_name_start d || is_digit d) s

-- One pair of the mapping.
unfoldable pub parse_capture : Outside → Ref → Bytes → Bytes → Result LoadError Capture
parse_capture outside ref name expr = do
  guard (is_capture_name name) (bad_capture_name ref name)
  code ← map_err (bad_capture ref name) (outside.compile_capture expr)
  ok (record { name = name; expr = expr; code = code })

-- The loop over the pairs.
unfoldable pub parse_pairs : Outside → Ref → Nodes → Result LoadError (List Capture)
parse_pairs outside ref no_nodes = ok []
parse_pairs outside ref (more_nodes name no_nodes) = ok []
parse_pairs outside ref (more_nodes name (more_nodes expr rest)) = do
  capture ← parse_capture outside ref (value_of name) (value_of expr)
  captures ← parse_pairs outside ref rest
  ok (capture ∷ captures)

unfoldable pub parse_captures : Outside → Ref → Option Node → Result LoadError (List Capture)
parse_captures outside ref none = ok []
parse_captures outside ref (some item) =
    guard (is_mapping (kind_of item)) (captures_not_mapping ref)
    >> parse_pairs outside ref (content_of item)

unfoldable pub reject_ref_in_key : Ref → MapField → Bytes → Result LoadError (Unit {0})
reject_ref_in_key ref field key =
    guard (not (contains_text key (codes "${"))) (ref_in_key ref field key)

-- `checkRefs`, with what its error names.
unfoldable pub check_value : Ref → Bool → Declared → Bytes → Result LoadError (Unit {0})
check_value ref inherited declared s = unless_some (bad_refs ref inherited) (check_refs s declared)

-- The loop over the keys of a map in order, with the value of each: the key may hold no `${`, and its
-- value is checked unless the key is one that is skipped.
unfoldable pub check_map :
    Ref
    → MapField
    → (Bytes → Bool)
    → (Bytes → Bool)
    → Declared
    → TextMap
    → Result LoadError (Unit {0})
check_map ref field inherited skips declared [] = ok tt
check_map ref field inherited skips declared ((key, value) ∷ rest) = do
  reject_ref_in_key ref field key
  if skips key then ok tt else check_value ref (inherited key) declared value
  check_map ref field inherited skips declared rest

-- A map in the order of its keys.
unfoldable pub in_key_order : TextMap → TextMap
in_key_order = sort_by (λ entry. entry.0)
