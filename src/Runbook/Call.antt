-- ===== src/Runbook/Call.antt =====
-- Calls of a runbook: Call of internal/runbook/runbook.go, the captures that loader.call registers,
-- substituteCall of run.go, and Call.References. A Go map from keys to values is a list of pairs.
pub mod References
use opensearch_api.Prelude.{
  Bool, Bytes, List, Option, Result, [], bytes_eq, codes, contains_text, err, if◌then◌else◌,
  is_listed, map, none, ok, some, sort_texts, ◌++◌, ◌>>=◌, ◌>>◌, ◌∷◌,
}
use opensearch_api.Config.Types.{RetryConfig}
use opensearch_api.Retry.Predicate.{Predicate}
use opensearch_api.Osclient.Address.{RequestSpec}
use opensearch_api.Runbook.Template.{
  CapDecl, Declared, PathError, Resolver, ScanError, Store, scan_template, substitute,
  substitute_path,
}
use opensearch_api.Runbook.Capture.{Capture}

pub record Call : Type 0 where
  pub name : Bytes
  pub method : Bytes
  pub path : Bytes
  pub body : Bytes
  pub has_body : Bool
  pub query : List (Bytes × Bytes)
  pub headers : List (Bytes × List Bytes)
  pub retry : RetryConfig
  pub retry_when : Option Predicate
  pub success_when : Option Predicate
  pub continue_on_failure : Bool
  pub capture : List Capture

unfoldable pub substitute_query : List (Bytes × Bytes) → Store → List (Bytes × Bytes)
substitute_query query store = map (λ entry. (entry.0, substitute entry.1 store)) query

unfoldable pub substitute_headers : List (Bytes × List Bytes) → Store → List (Bytes × List Bytes)
substitute_headers headers store =
    map (λ entry. (entry.0, map (λ v. substitute v store) entry.1)) headers

unfoldable pub substitute_body : Call → Store → Bytes
substitute_body call store =
    if call.has_body
    then (if contains_text call.body (codes "${") then substitute call.body store else call.body)
    else []

unfoldable pub substitute_call : Call → Store → Result (ScanError PathError) RequestSpec
substitute_call call store = do
  path ← substitute_path call.path store
  ok (record {
    method = call.method;
    path = path;
    has_body = call.has_body;
    query = substitute_query call.query store;
    headers = substitute_headers call.headers store;
    body = substitute_body call store;
  })

-- A capture that two calls declare, or one call twice.
pub data RegisterError : Type 0 where
  declared_twice declared_before : Bytes → RegisterError

abbrev pub declare : Bytes → CapDecl → Declared → Declared
declare name decl declared = λ other. if bytes_eq other name then some decl else declared other

abbrev pub duplicate : Call → Bytes → CapDecl → RegisterError
duplicate call name previous =
    if bytes_eq previous.call_name call.name then declared_twice name else declared_before name

abbrev pub decl_of : Call → CapDecl
decl_of call = record { call_name = call.name; continue_on_failure = call.continue_on_failure }

abbrev pub declare_new :
    Call
    → Bytes
    → Option CapDecl
    → Declared
    → (Declared → Result RegisterError Declared)
    → Result RegisterError Declared
declare_new call name (some previous) declared rest = err (duplicate call name previous)
declare_new call name none declared rest = rest (declare name (decl_of call) declared)

-- The loop at the end of loader.call.
unfoldable pub register : Call → List Capture → Declared → Result RegisterError Declared
register call [] declared = ok declared
register call (c ∷ cs) declared =
    declare_new call c.name (declared c.name) declared (register call cs)

-- What the loop of Load makes of the declared captures.
unfoldable pub register_all : List Call → Declared → Result RegisterError Declared
register_all [] declared = ok declared
register_all (call ∷ rest) declared = register call call.capture declared >>= register_all rest

-- The resolver of References: it notes the names, each once.
abbrev pub note_name : Bytes → List Bytes → List Bytes
note_name name names = if is_listed names name then names else name ∷ names

abbrev pub from_nothing : Resolver (List Bytes) ⊥
from_nothing name names = (ok [], note_name name names)

-- `collect`, which drops the error of a text that Load did not accept.
unfoldable pub collect : Bytes → List Bytes → List Bytes
collect s names = (scan_template from_nothing s names).1

unfoldable pub collect_all : List Bytes → List Bytes → List Bytes
collect_all [] names = names
collect_all (s ∷ rest) names = collect_all rest (collect s names)

abbrev pub query_values : List (Bytes × Bytes) → List Bytes
query_values [] = []
query_values ((key, value) ∷ rest) = value ∷ query_values rest

abbrev pub header_values : List (Bytes × List Bytes) → List Bytes
header_values [] = []
header_values ((key, values) ∷ rest) = values ++ header_values rest

-- `Call.References`
unfoldable pub references : Call → List Bytes
references call = sort_texts (
    collect call.body (
      collect_all (header_values call.headers)
        (collect_all (query_values call.query) (collect call.path []))))
