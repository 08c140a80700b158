-- ===== src/Cli/Ism/Change.antt =====
-- internal/cli/ism_reapply.go, changePolicy and mergeChangePolicy: one request for each index, and the
-- responses merged.
use opensearch_api.Prelude.{
  Bool, Bytes, List, Option, Result, [], codes, err, false, format_int, int64, negsuc, ok, pos, suc,
  true, ℕ, ℤ, ◌%◌, ◌++◌, ◌+◌, ◌-◌, ◌>>=◌, ◌^◌, ◌||◌, ◌∷◌,
}
use opensearch_api.Errors.{Err, wrap}
use opensearch_api.Json.{Items, Json, arr, bool, cons, end, member, nil, num, obj, str}
use opensearch_api.Config.Types.{Duration}
use opensearch_api.Osclient.Address.{RequestSpec}
use opensearch_api.Retry.Predicate.{Context, Predicate}
use opensearch_api.Cli.Ism.Names.{ism_change_policy}
use opensearch_api.Cli.Ism.Policy.{JsonLib, marshal_raw}
use opensearch_api.Cli.Ism.Session.{Exchange, IsmEvent, fetch, wrote}

pub record ChangeResult : Type 0 where
  pub updated_indices : ℤ
  pub failures : Bool
  pub failed_indices : List Json

-- What a reapply is given: what BuildRequest and the engine give for each request, the JSON library with
-- `json.Unmarshal` into a `changePolicyResult`, and the settings of the session.
pub record ReapplyWorld : Type 0 where
  pub build : RequestSpec → Option Err
  pub exchange : ℕ → Exchange
  pub print : Duration → Bytes
  pub timeout : Duration
  pub parse : Bytes → Result Err Json
  pub mismatch : Err
  pub lib : JsonLib
  pub decode_change : Bytes → Result Err ChangeResult
  pub success_when : Option Predicate
  pub stdout_err : Option Err
  pub ctx_at_match : Context
  pub ctx_at_judge : Context

-- The bits of an `int`, and `+` on them.
abbrev pub bits_of : ℤ → ℕ
bits_of (pos n) = n % 2 ^ 64
bits_of (negsuc n) = 2 ^ 64 - 1 - n % 2 ^ 64

unfoldable pub add_int : ℤ → ℤ → ℤ
add_int a b = int64 (bits_of a + bits_of b)

-- The loop of mergeChangePolicy.
unfoldable pub merge_from : ChangeResult → List ChangeResult → ChangeResult
merge_from merged [] = merged
merge_from merged (r ∷ results) =
    merge_from
      (record {
        updated_indices = add_int merged.updated_indices r.updated_indices;
        failures = merged.failures || r.failures;
        failed_indices = merged.failed_indices ++ r.failed_indices;
      })
      results

abbrev pub nothing_changed : ChangeResult
nothing_changed = record { updated_indices = pos 0; failures = false; failed_indices = [] }

unfoldable pub merge_change_policy : List ChangeResult → ChangeResult
merge_change_policy results = merge_from nothing_changed results

abbrev pub items_from : List Json → Items
items_from [] = nil
items_from (v ∷ rest) = cons v (items_from rest)

-- The JSON of a result, by the tags of its fields.
unfoldable pub change_json : ChangeResult → Json
change_json r = obj (
    member (codes "updated_indices") (num (format_int r.updated_indices)) (
      member (codes "failures") (bool r.failures)
        (member (codes "failed_indices") (arr (items_from r.failed_indices)) end)))

abbrev pub change_spec : Bytes → Bytes → RequestSpec
change_spec body index = record {
  method = codes "POST";
  path = ism_change_policy ++ codes "/" ++ index;
  has_body = true;
  query = [];
  headers = [];
  body = body;
}

abbrev pub Changed : Type 0
Changed = List IsmEvent × Result Err (List ChangeResult)

abbrev pub events_then : List IsmEvent → Changed → Changed
events_then events (more, out) = (events ++ more, out)

abbrev pub add_result : ChangeResult → Changed → Changed
add_result r (events, out) = (events, out >>= λ results. ok (r ∷ results))

-- What follows the decoding of a response; `rest` is the loop from the next index on.
unfoldable pub after_decode : Bytes → Bytes → Result Err ChangeResult → Changed → Changed
after_decode index text (ok r) rest = add_result r rest
after_decode index text (err e) rest = (
  wrote text ∷ [],
  err (wrap (codes "decoding change_policy response for " ++ index ++ codes ": ") e []),
)

unfoldable pub after_fetch : ReapplyWorld → Bytes → Result Err Bytes → Changed → Changed
after_fetch w index (err e) rest =
    ([], err (wrap (codes "change_policy " ++ index ++ codes ": ") e []))
after_fetch w index (ok text) rest = after_decode index text (w.decode_change text) rest

-- The loop of changePolicy; the first request of it is the command's request `i`.
unfoldable pub change_each : ReapplyWorld → Bytes → ℕ → List Bytes → Changed
change_each w body i [] = ([], ok [])
change_each w body i (index ∷ indices) =
    let fetched = fetch w.print w.timeout w.build (change_spec body index) (w.exchange i) in
    let rest = change_each w body (suc i) indices in
    events_then fetched.0 (after_fetch w index fetched.1 rest)

abbrev pub merged_of : ReapplyWorld → Changed → List IsmEvent × Result Err Bytes
merged_of w (events, out) =
    (events, out >>= λ results. marshal_raw w.lib (change_json (merge_change_policy results)))

abbrev pub change_with :
    ReapplyWorld → ℕ → List Bytes → Result Err Bytes → List IsmEvent × Result Err Bytes
change_with w i indices (err e) = ([], err e)
change_with w i indices (ok body) = merged_of w (change_each w body i indices)

abbrev pub change_body : ReapplyWorld → Bytes → Result Err Bytes
change_body w id = marshal_raw w.lib (obj (member (codes "policy_id") (str id) end))

-- `changePolicy`: the merged response, behind the events of all requests.
unfoldable pub change_policy :
    ReapplyWorld → Bytes → ℕ → List Bytes → List IsmEvent × Result Err Bytes
change_policy w id i indices = change_with w i indices (change_body w id)
