-- ===== src/Runbook/Load/Doc.antt =====
-- internal/runbook/runbook.go, Load: a whole runbook. What the YAML decoder gives for the first and the
-- second document of the input is an argument.
use opensearch_api.Prelude.{
  Bytes, List, Option, Result, [], bytes_eq, codes, err, false, guard, if◌then◌else◌, is_empty,
  map_err, none, not, ok, pos, some, ℕ, ◌>>=◌, ◌>>◌, ◌∷◌,
}
use opensearch_api.Errors.{Err}
use opensearch_api.Config.Types.{defaults, second}
use opensearch_api.Osclient.Address.{read_body}
use opensearch_api.Retry.Predicate.{compile_predicate}
use opensearch_api.Runbook.Call.{Call}
use opensearch_api.Runbook.Template.{Declared}
use opensearch_api.Runbook.Spec.{build_retry_config}
use opensearch_api.Runbook.Run.Reached.{nothing_declared}
use opensearch_api.Runbook.Load.Node.{
  Node, Nodes, content_of, is_defaults_key, is_mapping, is_sequence, is_zero_kind, kind_of, line_of,
  more_nodes, no_nodes, node, raw_string_field, tag_of, zero_kind,
}
use opensearch_api.Runbook.Load.Checks.{
  CallSpec, LoadError, Outside, Ref, bad_retry, bad_retry_when, bad_success_when, calls_empty,
  calls_missing, calls_not_sequence, check_allowed_keys, defaults_not_mapping, defaults_ref,
  duplicate_name, extra_document, not_decoded, not_read, not_readable, resolve_body_arg,
  validate_method,
}
use opensearch_api.Runbook.Load.Build.{Loader, load_call}

-- What `Decode` gives: io.EOF, another error, or a document.
pub data Decoded (A : Type 0) : Type 0 where
  end_of_input : Decoded A
  unreadable : Err → Decoded A
  decoded : A → Decoded A

-- The two values of the file, which stay as they are where the file has no such key.
pub record RunbookDoc : Type 0 where
  pub defaults : Node
  pub calls : Node

abbrev pub zero_node : Node
zero_node = node zero_kind [] [] 0 no_nodes

unfoldable pub first_document : Decoded RunbookDoc → Result LoadError RunbookDoc
first_document end_of_input = ok (record { defaults = zero_node; calls = zero_node })
first_document (unreadable e) = err (not_readable e)
first_document (decoded doc) = ok doc

unfoldable pub reject_extra_documents : Decoded Node → Result LoadError (Unit {0})
reject_extra_documents end_of_input = ok tt
reject_extra_documents (unreadable e) = err (not_readable e)
reject_extra_documents (decoded extra) = err (extra_document (line_of extra))

abbrev pub empty_spec : CallSpec
empty_spec = record {
  name = [];
  method = [];
  path = [];
  body = [];
  query = [];
  headers = [];
  retry = record {
    retry = pos 0;
    backoff = [];
    backoff_initial = [];
    backoff_max = [];
    backoff_jitter = 0;
    abort_on = [];
    retry_on = [];
    retry_when = [];
    success_when = [];
    max_body_buffer = [];
  };
  continue_on_failure = false;
}

-- The defaults of a file that has them, checked as a call's own settings are.
unfoldable pub decode_defaults : Outside → Bytes → Ref → Node → Result LoadError CallSpec
decode_defaults outside base_dir ref item = do
  guard (is_mapping (kind_of item)) (defaults_not_mapping (line_of item))
  check_allowed_keys ref is_defaults_key item
  spec ← map_err (not_decoded ref) (outside.decode_onto item empty_spec)
  validate_method ref spec.method
  cfg ← map_err (bad_retry ref) (build_retry_config outside.parse_duration spec.retry)
  retry_when ←
      map_err (bad_retry_when ref) (compile_predicate outside.compile spec.retry.retry_when)
  success_when ←
      map_err (bad_success_when ref) (compile_predicate outside.compile spec.retry.success_when)
  body_arg ← resolve_body_arg outside.join_path ref base_dir spec.body
  made ← map_err (not_read ref) (read_body none outside.read_file body_arg)
  ok spec

unfoldable pub load_defaults : Outside → Bytes → Node → Result LoadError CallSpec
load_defaults outside base_dir item =
    if is_zero_kind (kind_of item)
    then ok empty_spec
    else decode_defaults outside base_dir (defaults_ref (line_of item)) item

abbrev pub items_of : Nodes → List Node
items_of no_nodes = []
items_of (more_nodes item rest) = item ∷ items_of rest

unfoldable pub validate_calls_shape : Node → Result LoadError (Unit {0})
validate_calls_shape calls = do
  guard (not (is_zero_kind (kind_of calls))) calls_missing
  guard (not (bytes_eq (tag_of calls) (codes "!!null"))) (calls_empty (line_of calls))
  guard (is_sequence (kind_of calls)) (calls_not_sequence (line_of calls) (kind_of calls))
  guard (not (is_empty (items_of (content_of calls)))) (calls_empty (line_of calls))

-- The names that were seen, with their lines.
abbrev pub Seen : Type 0
Seen = Bytes → Option ℕ

abbrev pub see : Bytes → ℕ → Seen → Seen
see name line seen = λ other. if bytes_eq other name then some line else seen other

abbrev pub raw_name : Node → Bytes
raw_name item = raw_string_field item (codes "name")

abbrev pub see_new :
    Node → Option ℕ → Seen → (Seen → Result LoadError (Unit {0})) → Result LoadError (Unit {0})
see_new item (some line) seen rest = err (duplicate_name (raw_name item) (line_of item) line)
see_new item none seen rest = rest (see (raw_name item) (line_of item) seen)

-- The loop of rejectDuplicateNames.
unfoldable pub reject_duplicates_from : Seen → List Node → Result LoadError (Unit {0})
reject_duplicates_from seen [] = ok tt
reject_duplicates_from seen (item ∷ rest) =
    let next = reject_duplicates_from seen rest in
    if is_empty (raw_name item)
    then next
    else see_new item (seen (raw_name item)) seen (λ seen2. reject_duplicates_from seen2 rest)

unfoldable pub reject_duplicate_names : List Node → Result LoadError (Unit {0})
reject_duplicate_names items = reject_duplicates_from (λ name. none) items

-- The loop over the calls.
unfoldable pub load_calls : Loader → Declared → List Node → Result LoadError (List Call)
load_calls l declared [] = ok []
load_calls l declared (item ∷ rest) = do
  made ← load_call l declared item
  calls ← load_calls l made.1 rest
  ok (made.0 ∷ calls)

unfoldable pub load :
    Outside → Bytes → Decoded RunbookDoc → Decoded Node → Result LoadError (List Call)
load outside base_dir first second = do
  doc ← first_document first
  reject_extra_documents second
  defaults ← load_defaults outside base_dir doc.defaults
  validate_calls_shape doc.calls
  reject_duplicate_names (items_of (content_of doc.calls))
  load_calls (record { outside = outside; base_dir = base_dir; defaults = defaults })
      nothing_declared (items_of (content_of doc.calls))
