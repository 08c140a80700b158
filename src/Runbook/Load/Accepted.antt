-- ===== src/Runbook/Load/Accepted.antt =====
-- What holds of a call that the loader, loader.call of internal/runbook/runbook.go, accepted.
use opensearch_api.Runbook.Load.Checked.{
  All-IsChecked, IsChecked, check_map-IsChecked, check_value-eq-ok, last_value-check_refs,
}
use opensearch_api.Runbook.Load.Captured.{parse_captures-All}
use opensearch_api.Osclient.Address.{read_body}
use opensearch_api.Runbook.Spec.{build_retry_config}
use opensearch_api.Retry.Predicate.{compile_predicate}
use opensearch_api.Runbook.Load.Build.{
  Loader, assemble, check_texts, layered_spec, load_body, load_call, own_lists, ref_of,
}
use opensearch_api.Prelude.{
  >>=-eq-ok, All, Bool, Bytes, List, Option-cases, [], ap, codes, false, guard, guard-eq-ok, inl,
  inr, is_empty, is_some, map_err, map_err-eq-ok, none, not, ok, ok-injective, refl, some, sort_by,
  sort_by-All, subst, sym, true, ◌∙◌, ◌∷◌, ◌≡◌,
}
use opensearch_api.Osclient.Header.{header_get}
use opensearch_api.Runbook.Call.{Call, register}
use opensearch_api.Runbook.Template.{Declared, check_refs}
use opensearch_api.Runbook.Load.Headers.{
  header_get-merge_headers, header_overridden, header_overridden-is_some, last_value, merge_headers,
}
use opensearch_api.Runbook.Load.Node.{
  Node, is_call_key, is_mapping, kind_of, line_of, mapping_has_key, raw_node_field,
}
use opensearch_api.Runbook.Capture.{Capture}
use opensearch_api.Runbook.Load.Checks.{
  CallSpec, Ref, bad_declaration, bad_retry, bad_retry_when, bad_success_when, body_ref,
  call_not_mapping, check_allowed_keys, check_map, check_value, header_field, in_key_order,
  is_capture_name, missing_key, not_decoded, not_read, parse_captures, query_field,
  resolve_body_arg, validate_method,
}

-- What the loader promises of a call, given the captures that were declared before it.
pub record IsAccepted (declared declared2 : Declared) (call : Call) : Type 0 where
  pub path : check_refs call.path declared ≡ none
  pub query : All (λ entry. check_refs entry.1 declared ≡ none) call.query
  pub headers :
      (key value : Bytes)
      → header_get key call.headers ≡ some (value ∷ [])
      → check_refs value declared ≡ none
  pub body : check_refs call.body declared ≡ none
  pub registered : register call call.capture declared ≡ ok declared2
  pub is_named : is_empty call.name ≡ false
  pub captures : All (λ c. is_capture_name c.name ≡ true) call.capture

module _ (l : Loader) (declared : Declared) (ref : Ref) (item : Node) (spec : CallSpec) where
  -- The texts that were checked.
  record AreChecked : Type 0 where
    path : check_refs spec.path declared ≡ none
    query : IsChecked declared (λ key. false) spec.query
    own_headers : IsChecked declared (λ key. false) spec.headers
    default_headers : IsChecked declared (header_overridden spec.headers) l.defaults.headers

  check_texts-AreChecked : {u : Unit {0}} → check_texts l declared ref item spec ≡ ok u → AreChecked
  unfolding check_texts in_key_order
  check_texts-AreChecked h =
      let query_node = raw_node_field item (codes "query") in
      let (_, h1, r1) = >>=-eq-ok (check_value ref false declared spec.path) _ h in
      let (_, h2, r2) =
        >>=-eq-ok
          (check_map ref query_field (λ key. not (mapping_has_key query_node key)) (λ key. false)
            declared (sort_by (λ entry. entry.0) spec.query))
          _ r1 in
      let (_, h3, r3) =
        >>=-eq-ok
          (check_map ref header_field (λ key. false) (λ key. false) declared
            (sort_by (λ entry. entry.0) spec.headers))
          _ r2 in
      record {
        path = check_value-eq-ok ref false declared spec.path h1;
        query =
            sort_by-All (λ entry. entry.0) _ spec.query
              (check_map-IsChecked ref query_field _ _ declared _ h2);
        own_headers =
            sort_by-All (λ entry. entry.0) _ spec.headers
              (check_map-IsChecked ref header_field _ _ declared _ h3);
        default_headers =
            sort_by-All (λ entry. entry.0) _ l.defaults.headers
              (check_map-IsChecked ref header_field _ _ declared _ r3);
      }

  -- A header value that is sent is the call's own or one of the defaults that is not overridden.
  merged-check_refs :
      AreChecked
      → (key value : Bytes)
      → header_get key (merge_headers l.defaults.headers spec.headers) ≡ some (value ∷ [])
      → check_refs value declared ≡ none
  merged-check_refs checked key value sent =
      let told = sym (header_get-merge_headers key l.defaults.headers spec.headers) ∙ sent in
      elim (Option-cases (last_value spec.headers key)) [
        | inr (own, there) ↦
            let e : some (own ∷ []) ≡ some (value ∷ []) = rw there at told in
            let e' : own ≡ value = cc in
            last_value-check_refs declared (λ name. false) spec.headers key value
              checked.own_headers (λ name same. refl) (there ∙ ap some e')
        | inl missing ↦ elim (Option-cases (last_value l.defaults.headers key)) [
          | inl neither ↦
              let e : none ≡ some (value ∷ []) = rw (missing, neither) at told in absurd (cc)
          | inr (inherited, there) ↦
              let e : some (inherited ∷ []) ≡ some (value ∷ []) = rw (missing, there) at told in
              let e' : inherited ≡ value = cc in
              last_value-check_refs declared (header_overridden spec.headers) l.defaults.headers key
                value checked.default_headers
                (λ name same.
                  header_overridden-is_some spec.headers name
                  ∙ ap is_some (ap (last_value spec.headers) same ∙ missing))
                (there ∙ ap some e')
        ]
      ]

  load_body-check_refs :
      (made : Bytes × Bool)
      → load_body l declared ref item spec ≡ ok made
      → check_refs made.0 declared ≡ none
  unfolding load_body
  load_body-check_refs made h =
      let (arg, h1, r1) =
        >>=-eq-ok (resolve_body_arg l.outside.join_path ref l.base_dir spec.body) _ h in
      let (read, h2, r2) =
        >>=-eq-ok (map_err (not_read ref) (read_body none l.outside.read_file arg)) _ r1 in
      let (_, h3, r3) =
        >>=-eq-ok
          (check_value (body_ref ref arg) (not (is_some (raw_node_field item (codes "body"))))
            declared read.0)
          _ r2 in
      subst (λ m. check_refs m.0 declared ≡ none) (ok-injective r3)
        (check_value-eq-ok (body_ref ref arg) _ declared read.0 h3)

  -- What a call takes over from its settings.
  record IsAssembled (captures : List Capture) (made : Bytes × Bool) (call : Call) : Type 0 where
    name : call.name ≡ spec.name
    path : call.path ≡ spec.path
    body : call.body ≡ made.0
    query : call.query ≡ spec.query
    headers : call.headers ≡ merge_headers l.defaults.headers spec.headers
    capture : call.capture ≡ captures

  assemble-IsAssembled :
      (captures : List Capture) (made : Bytes × Bool) (call : Call)
      → assemble l ref spec captures made ≡ ok call
      → IsAssembled captures made call
  unfolding assemble
  assemble-IsAssembled captures made call h =
      let (cfg, h1, r1) =
        >>=-eq-ok (map_err (bad_retry ref) (build_retry_config l.outside.parse_duration spec.retry))
          _ h in
      let (retry_when, h2, r2) =
        >>=-eq-ok
          (map_err (bad_retry_when ref) (compile_predicate l.outside.compile spec.retry.retry_when))
          _ r1 in
      let (success_when, h3, r3) =
        >>=-eq-ok
          (map_err (bad_success_when ref)
            (compile_predicate l.outside.compile spec.retry.success_when))
          _ r2 in
      subst (IsAssembled captures made) (ok-injective r3) (record {
        name = refl;
        path = refl;
        body = refl;
        query = refl;
        headers = refl;
        capture = refl;
      })

layered_spec-is_named :
    (l : Loader) (ref : Ref) (item : Node) (spec : CallSpec)
    → layered_spec l ref item ≡ ok spec
    → is_empty spec.name ≡ false
unfolding layered_spec
layered_spec-is_named l ref item spec h =
    let (_, h1, r1) =
      >>=-eq-ok (guard (is_mapping (kind_of item)) (call_not_mapping (line_of item) (kind_of item)))
        _ h in
    let (_, h2, r2) = >>=-eq-ok (check_allowed_keys ref is_call_key item) _ r1 in
    let (got, h3, r3) =
      >>=-eq-ok
        (map_err (not_decoded ref)
          (l.outside.decode_onto item (record l.defaults { headers = [] })))
        _ r2 in
    let own = own_lists item got in
    let (_, h4, r4) =
      >>=-eq-ok (guard (not (is_empty own.name)) (missing_key ref (codes "name"))) _ r3 in
    let (_, h5, r5) =
      >>=-eq-ok (guard (not (is_empty own.path)) (missing_key ref (codes "path"))) _ r4 in
    let (_, h6, r6) = >>=-eq-ok (validate_method ref own.method) _ r5 in
    subst (λ s. is_empty s.name ≡ false) (ok-injective r6)
      (not_true (is_empty own.name) (guard-eq-ok _ _ h4))
  where
    not_true : (b : Bool) → not b ≡ true → b ≡ false
    not_true true e = cc
    not_true false e = refl

-- A call that the loader accepts has a name, and every text of it that is sent was checked: its path,
-- its query, its headers with those of the defaults, and its body.
pub load_call-IsAccepted :
    (l : Loader) (declared : Declared) (item : Node) (out : Call × Declared)
    → load_call l declared item ≡ ok out
    → IsAccepted declared out.1 out.0
unfolding load_call
load_call-IsAccepted l declared item out h =
    let ref = ref_of item in
    let (spec, h1, r1) = >>=-eq-ok (layered_spec l ref item) _ h in
    let (captures, h2, r2) =
      >>=-eq-ok (parse_captures l.outside ref (raw_node_field item (codes "capture"))) _ r1 in
    let (_, h3, r3) = >>=-eq-ok (check_texts l declared ref item spec) _ r2 in
    let (made, h4, r4) = >>=-eq-ok (load_body l declared ref item spec) _ r3 in
    let (call, h5, r5) = >>=-eq-ok (assemble l ref spec captures made) _ r4 in
    let (declared2, h6, r6) =
      >>=-eq-ok (map_err (bad_declaration ref) (register call captures declared)) _ r5 in
    let texts = check_texts-AreChecked l declared ref item spec h3 in
    let parts = assemble-IsAssembled l declared ref item spec captures made call h5 in
    subst (λ o. IsAccepted declared o.1 o.0) (ok-injective r6)
      (record {
        path = rw parts.path texts.path;
        query = rw parts.query (All-IsChecked declared spec.query texts.query);
        headers = λ key value sent.
            merged-check_refs l declared ref item spec texts key value
              (ap (header_get key) (sym parts.headers) ∙ sent);
        body = rw parts.body (load_body-check_refs l declared ref item spec made h4);
        registered = rw parts.capture (map_err-eq-ok _ _ h6);
        is_named = rw parts.name (layered_spec-is_named l ref item spec h1);
        captures =
            rw parts.capture (
              parse_captures-All l.outside ref (raw_node_field item (codes "capture")) captures h2);
      })
