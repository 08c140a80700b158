-- ===== src/Runbook/Load/Build.antt =====
-- internal/runbook/runbook.go, loader.call: one call of a runbook, in the order in which the loader
-- checks and builds it.
use opensearch_api.Prelude.{
  Bool, Bytes, List, Result, [], codes, false, guard, if◌then◌else◌, is_empty, is_some, map_err,
  none, not, ok, some, true, ◌&&◌, ◌>>=◌, ◌>>◌,
}
use opensearch_api.Osclient.Address.{read_body}
use opensearch_api.Retry.Predicate.{compile_predicate}
use opensearch_api.Runbook.Capture.{Capture}
use opensearch_api.Runbook.Call.{Call, register}
use opensearch_api.Runbook.Template.{Declared}
use opensearch_api.Runbook.Spec.{build_retry_config}
use opensearch_api.Runbook.Load.Node.{
  Node, is_call_key, is_mapping, kind_of, line_of, mapping_has_key, raw_node_field,
  raw_string_field,
}
use opensearch_api.Runbook.Load.Headers.{header_overridden, merge_headers}
use opensearch_api.Runbook.Load.Checks.{
  CallSpec, LoadError, Outside, Ref, bad_declaration, bad_retry, bad_retry_when, bad_success_when,
  body_ref, call_not_mapping, call_ref, check_allowed_keys, check_map, check_value, header_field,
  in_key_order, missing_key, not_decoded, not_read, parse_captures, query_field, resolve_body_arg,
  validate_method,
}

-- The settings that stay the same from call to call.
pub record Loader : Type 0 where
  pub outside : Outside
  pub base_dir : Bytes
  pub defaults : CallSpec

-- A call that gives one list of statuses does not inherit the other.
unfoldable pub own_lists : Node → CallSpec → CallSpec
own_lists item spec =
    let own_retry_on = mapping_has_key (some item) (codes "retry-on") in
    let own_abort_on = mapping_has_key (some item) (codes "abort-on") in
    if own_retry_on && not own_abort_on
    then record spec { retry = record spec.retry { abort_on = [] } }
    else if own_abort_on && not own_retry_on
    then record spec { retry = record spec.retry { retry_on = [] } }
    else spec

-- The call's settings over the defaults, but for the headers, which are its own.
unfoldable pub layered_spec : Loader → Ref → Node → Result LoadError CallSpec
layered_spec l ref item = do
  guard (is_mapping (kind_of item)) (call_not_mapping (line_of item) (kind_of item))
  check_allowed_keys ref is_call_key item
  decoded ←
      map_err (not_decoded ref) (l.outside.decode_onto item (record l.defaults { headers = [] }))
  let spec = own_lists item decoded
  guard (not (is_empty spec.name)) (missing_key ref (codes "name"))
  guard (not (is_empty spec.path)) (missing_key ref (codes "path"))
  validate_method ref spec.method
  ok spec

-- The references of the path, the query and the headers, those of the defaults included that are not
-- overridden.
unfoldable pub check_texts : Loader → Declared → Ref → Node → CallSpec → Result LoadError (Unit {0})
check_texts l declared ref item spec = do
  let query_node = raw_node_field item (codes "query")
  check_value ref false declared spec.path
  check_map ref query_field (λ key. not (mapping_has_key query_node key)) (λ key. false) declared
      (in_key_order spec.query)
  check_map ref header_field (λ key. false) (λ key. false) declared (in_key_order spec.headers)
  check_map ref header_field (λ key. true) (header_overridden spec.headers) declared
      (in_key_order l.defaults.headers)

-- The body, with whether there is one.
unfoldable pub load_body :
    Loader → Declared → Ref → Node → CallSpec → Result LoadError (Bytes × Bool)
load_body l declared ref item spec = do
  body_arg ← resolve_body_arg l.outside.join_path ref l.base_dir spec.body
  made ← map_err (not_read ref) (read_body none l.outside.read_file body_arg)
  check_value (body_ref ref body_arg) (not (is_some (raw_node_field item (codes "body")))) declared
      made.0
  ok made

abbrev pub or_get : Bytes → Bytes
or_get method = if is_empty method then codes "GET" else method

-- The call itself.
unfoldable pub assemble :
    Loader → Ref → CallSpec → List Capture → Bytes × Bool → Result LoadError Call
assemble l ref spec captures made = do
  cfg ← map_err (bad_retry ref) (build_retry_config l.outside.parse_duration spec.retry)
  retry_when ←
      map_err (bad_retry_when ref) (compile_predicate l.outside.compile spec.retry.retry_when)
  success_when ←
      map_err (bad_success_when ref) (compile_predicate l.outside.compile spec.retry.success_when)
  ok (record {
    name = spec.name;
    method = or_get spec.method;
    path = spec.path;
    body = made.0;
    has_body = made.1;
    query = spec.query;
    headers = merge_headers l.defaults.headers spec.headers;
    retry = cfg;
    retry_when = retry_when;
    success_when = success_when;
    continue_on_failure = spec.continue_on_failure;
    capture = captures;
  })

abbrev pub ref_of : Node → Ref
ref_of item = call_ref (raw_string_field item (codes "name")) (line_of item)

-- `loader.call`: the call, and the captures that are declared behind it.
unfoldable pub load_call : Loader → Declared → Node → Result LoadError (Call × Declared)
load_call l declared item = do
  let ref = ref_of item
  spec ← layered_spec l ref item
  captures ← parse_captures l.outside ref (raw_node_field item (codes "capture"))
  check_texts l declared ref item spec
  made ← load_body l declared ref item spec
  call ← assemble l ref spec captures made
  declared2 ← map_err (bad_declaration ref) (register call captures declared)
  ok (call, declared2)
