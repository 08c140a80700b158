-- ===== src/Runbook/Tests.antt =====
-- Templates on concrete inputs.
use opensearch_api.Prelude.{
  All, Bytes, List, bytes_eq, codes, cut_at, false, if◌then◌else◌, none, ok, refl, some, split_on,
  ◌↔◌, ◌≡◌,
}
use opensearch_api.Runbook.Template.{
  Declared, Store, check_refs, check_segments, from_store, next, open_reference, scan,
  scan_template, scan_token, substitute_path,
}
use opensearch_api.Runbook.Template.Pieces.{Piece, render}
use opensearch_api.Runbook.Template.Reads.{Reads, scan_template-Reads}
use opensearch_api.Runbook.Template.Refs.{IsFillable, check_refs_iff}
use opensearch_api.Runbook.Template.Path.{IsShaped, substitute_path-IsShaped}

abbrev template : Bytes
template = codes "/${index}/_doc"

abbrev stored : Store
stored name = if bytes_eq name (codes "index") then some (codes "logs-1") else none

abbrev declared : Declared
declared name =
    if bytes_eq name (codes "index")
    then some (record { call_name = codes "create"; continue_on_failure = false })
    else none

scan_template-Reads_example :
    (ps : List Piece) × Reads 0 template ps
    × ((qs : List Piece) → Reads 0 template qs → qs ≡ ps)
    × ((st : Unit {0})
        → scan_template (from_store stored) template st ≡ render (from_store stored) ps st)
scan_template-Reads_example = scan_template-Reads (from_store stored) template

check_refs_iff_example :
    (check_refs template declared ≡ none)
    ↔ ((ps : List Piece) × Reads 0 template ps × All (IsFillable declared) ps)
check_refs_iff_example = check_refs_iff declared template

checked : check_refs template declared ≡ none
unfolding check_refs scan_template scan scan_token next open_reference cut_at
checked = refl

filled_path : substitute_path template stored ≡ ok (codes "/logs-1/_doc")
unfolding substitute_path check_segments scan_template scan scan_token next open_reference cut_at
    split_on
filled_path = refl

substitute_path-IsShaped_example : IsShaped template (codes "/logs-1/_doc")
substitute_path-IsShaped_example =
    substitute_path-IsShaped template stored (codes "/logs-1/_doc") filled_path
