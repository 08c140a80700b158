-- ===== src/Runbook/Load/Tests.antt =====
-- A file of two calls that Load accepts: the first captures a name that the second has in its path.
use opensearch_api.Runbook.Template.{
  check_refs, next, open_reference, scan, scan_template, scan_token,
}
use opensearch_api.Runbook.Spec.{RetrySpec, build_retry_config}
use opensearch_api.Runbook.Load.Headers.{merge_headers, set_all}
use opensearch_api.Runbook.Call.{references, register}
use opensearch_api.Retry.Predicate.{compile_predicate}
use opensearch_api.Osclient.Address.{read_body}
use opensearch_api.Config.Types.{default_retry}
use opensearch_api.Config.Strategy.{parse_backoff_strategy}
use opensearch_api.Config.Size.{parse_int, parse_size, scale, unit_bytes}
use opensearch_api.Runbook.Load.Checks.{
  Outside, body_ref, check_allowed_keys, check_map, check_value, in_key_order, is_capture_name,
  parse_capture, parse_captures, parse_pairs, resolve_body_arg, validate_method,
}
use opensearch_api.Runbook.Load.Build.{
  assemble, check_texts, layered_spec, load_body, load_call, own_lists,
}
use opensearch_api.Runbook.Load.Node.{
  Node, Nodes, call_allowed_keys, has_pair, is_call_key, mapping_has_key, mapping_kind, more_nodes,
  no_nodes, node, pair_field, raw_node_field, raw_string_field, scalar_kind, sequence_kind,
  unknown_key,
}
use opensearch_api.Runbook.Load.Doc.{
  RunbookDoc, decoded, empty_spec, end_of_input, first_document, load, load_calls, load_defaults,
  reject_duplicate_names, reject_duplicates_from, reject_extra_documents, validate_calls_shape,
  zero_node,
}
use opensearch_api.Runbook.Run.{empty_store, run}
use opensearch_api.Runbook.Run.Course.{Course}
use opensearch_api.Prelude.{
  All, AreDistinct, Bytes, IsSorted, [], codes, cut_at, err, insert_by, is_listed, ok, pos, refl,
  some, sort_by, to_lower, to_upper, true, ◌++◌, ◌↔◌, ◌∷◌, ◌≡◌,
}
use opensearch_api.Errors.{other}
use opensearch_api.Runbook.Capture.{captured, string_value}
use opensearch_api.Runbook.Call.References.{references-refers, refers}
use opensearch_api.Runbook.Run.Tests.{create, fetch, runner, world}
use opensearch_api.Runbook.Load.Filled.{IsFilled, load-IsFilled}
use opensearch_api.Runbook.Load.Names.{given_names, reject_duplicate_names_iff}
use opensearch_api.Runbook.Load.CaptureNames.{all_capture_names, load-AreDistinct}

abbrev pub written_retry : RetrySpec
written_retry = record empty_spec.retry {
  backoff = codes "linear";
  backoff_initial = codes "0s";
  backoff_max = codes "0s";
  max_body_buffer = codes "10";
}

-- Decoding that reads the name and the path, and gives each call the same retry settings.
abbrev pub outside : Outside
outside = record {
  decode_onto = λ item spec. ok (record spec {
    name = raw_string_field item (codes "name");
    path = raw_string_field item (codes "path");
    retry = written_retry;
  });
  compile = λ expr. err (other expr);
  compile_capture = λ expr. ok (λ c input. captured (string_value (codes "logs-1")) ∷ []);
  read_file = λ path. err (other path);
  join_path = λ base path. base ++ codes "/" ++ path;
  parse_duration = λ text. some (pos 0);
}

abbrev pub scalar : Bytes → Node
scalar text = node scalar_kind [] text 1 no_nodes

abbrev pub pair : Bytes → Node → Nodes → Nodes
pair key value rest = more_nodes (scalar key) (more_nodes value rest)

abbrev pub create_node : Node
create_node = node mapping_kind [] [] 2 (
    pair (codes "name") (scalar (codes "create")) (
      pair (codes "path") (scalar (codes "/new")) (
        pair (codes "capture")
          (node mapping_kind [] [] 4 (pair (codes "index") (scalar (codes ".index")) no_nodes))
          no_nodes)))

abbrev pub fetch_node : Node
fetch_node = node mapping_kind [] [] 6 (
    pair (codes "name") (scalar (codes "fetch"))
      (pair (codes "path") (scalar (codes "/${index}")) no_nodes))

abbrev pub doc : RunbookDoc
doc = record {
  defaults = zero_node;
  calls = node sequence_kind [] [] 1 (more_nodes create_node (more_nodes fetch_node no_nodes));
}

loads : load outside [] (decoded doc) end_of_input ≡ ok (create ∷ (fetch ∷ []))
unfolding assemble body_ref build_retry_config call_allowed_keys check_allowed_keys check_map
    check_refs check_texts check_value compile_predicate cut_at default_retry first_document
    has_pair in_key_order insert_by is_call_key is_capture_name layered_spec load load_body
    load_call load_calls load_defaults mapping_has_key merge_headers next open_reference own_lists
    pair_field parse_backoff_strategy parse_capture parse_captures parse_int parse_pairs parse_size
    raw_node_field raw_string_field read_body register reject_duplicate_names reject_duplicates_from
    reject_extra_documents resolve_body_arg scale scan scan_template scan_token set_all sort_by
    to_lower to_upper unit_bytes unknown_key validate_calls_shape validate_method
loads = refl

load-IsFilled_example :
    Course IsFilled runner world []
      (create ∷ (fetch ∷ []))
      0
      0
      empty_store
      (run runner world (create ∷ (fetch ∷ [])))
load-IsFilled_example =
    load-IsFilled outside [] (decoded doc) end_of_input (create ∷ (fetch ∷ [])) runner world loads

load-AreDistinct_example :
    AreDistinct (all_capture_names (create ∷ (fetch ∷ [])))
    × All (λ call. All (λ c. is_capture_name c.name ≡ true) call.capture) (create ∷ (fetch ∷ []))
load-AreDistinct_example =
    load-AreDistinct outside [] (decoded doc) end_of_input (create ∷ (fetch ∷ [])) loads

reject_duplicate_names_iff_example :
    (reject_duplicate_names (create_node ∷ (create_node ∷ [])) ≡ ok tt)
    ↔ AreDistinct (given_names (create_node ∷ (create_node ∷ [])))
reject_duplicate_names_iff_example = reject_duplicate_names_iff (create_node ∷ (create_node ∷ []))

references-refers_example :
    IsSorted (λ s. s) (references fetch)
    × AreDistinct (references fetch)
    × ((name : Bytes) → is_listed (references fetch) name ≡ refers fetch name)
references-refers_example = references-refers fetch
