-- ===== src/Cli/Ism/Reapply.antt =====
-- internal/cli/ism_reapply.go, runISMReapply, managedIndices and judge. Whether the flags give a session
-- is an argument.
pub mod Requests
pub mod Sound
use opensearch_api.Prelude.{
  Bool, Bytes, List, Option, Result, [], codes, decimal, err, false, if◌then◌else◌, is_some, none,
  ok, some, true, ℕ, ◌++◌, ◌>>=◌, ◌>>◌, ◌∷◌,
}
use opensearch_api.Errors.{Err, rejected, sentinel, wrap}
use opensearch_api.Osclient.Address.{RequestSpec}
use opensearch_api.Retry.Predicate.{Predicate, match_body}
use opensearch_api.Cli.Exit.{timeout_error}
use opensearch_api.Cli.Ism.Names.{explain_path, valid_name}
use opensearch_api.Cli.Ism.Managed.{managed_by}
use opensearch_api.Cli.Ism.Session.{IsmEvent, fetch, no_indices_managed, predicate_failed, wrote}
use opensearch_api.Cli.Ism.Change.{ReapplyWorld, change_policy}

abbrev pub ism_explain_size : ℕ
ism_explain_size = 10000

abbrev pub explain_spec : Bytes → RequestSpec
explain_spec path = record {
  method = codes "GET";
  path = path;
  has_body = false;
  query = (codes "size", decimal ism_explain_size) ∷ [];
  headers = [];
  body = [];
}

abbrev pub Ended : Type 0
Ended = List IsmEvent × Option Err

abbrev pub not_satisfied : Err
not_satisfied =
    wrap (codes "merged change_policy body ") (sentinel rejected)
      (codes ": --success-when not satisfied")

-- What `judge` makes of the predicate's answer.
unfoldable pub judged : ReapplyWorld → Predicate → Result Err Bool → Ended
judged w p (ok true) = ([], none)
judged w p (ok false) = ([], some not_satisfied)
judged w p (err e) =
    if is_some w.ctx_at_judge
    then ([], timeout_error w.print w.ctx_at_judge w.timeout (some e))
    else (predicate_failed p.expr e ∷ [], some not_satisfied)

abbrev pub judge_by : ReapplyWorld → Bytes → Option Predicate → Ended
judge_by w merged none = ([], none)
judge_by w merged (some p) = judged w p (match_body w.parse p w.ctx_at_match merged)

unfoldable pub judge : ReapplyWorld → Bytes → Ended
judge w merged = judge_by w merged w.success_when

abbrev pub ended_then : List IsmEvent → Ended → Ended
ended_then events (more, error) = (events ++ more, error)

abbrev pub written : Option Err → List IsmEvent → Ended → Ended
written (some e) events rest = (events, some (wrap (codes "writing merged body: ") e []))
written none events rest = ended_then events rest

-- What follows the merged response.
unfoldable pub write_merged : ReapplyWorld → Result Err Bytes → Ended
write_merged w (err e) = ([], some e)
write_merged w (ok merged) = written w.stdout_err (wrote merged ∷ []) (judge w merged)

-- What follows the list of the indices.
unfoldable pub reapply_to : ReapplyWorld → Bytes → Result Err (List Bytes) → Ended
reapply_to w id (err e) = ([], some e)
reapply_to w id (ok []) = (no_indices_managed id ∷ [], none)
reapply_to w id (ok (index ∷ indices)) =
    let changed = change_policy w id 1 (index ∷ indices) in
    ended_then changed.0 (write_merged w changed.1)

abbrev pub indices_of : ReapplyWorld → Bytes → Result Err Bytes → Result Err (List Bytes)
indices_of w id explain = explain >>= λ text. managed_by w.parse w.mismatch text id

-- The command behind its checks: `managedIndices`, and what is done with them.
unfoldable pub reapply_at : ReapplyWorld → Bytes → Bytes → Ended
reapply_at w id path =
    let fetched = fetch w.print w.timeout w.build (explain_spec path) (w.exchange 0) in
    ended_then fetched.0 (reapply_to w id (indices_of w id fetched.1))

abbrev pub ended_or : Result Err Bytes → (Bytes → Ended) → Ended
ended_or (err e) rest = ([], some e)
ended_or (ok path) rest = rest path

-- `runISMReapply`
unfoldable pub run_ism_reapply : ReapplyWorld → Result Err (Unit {0}) → Bytes → Bytes → Ended
run_ism_reapply w session id target =
    ended_or (do valid_name (codes "policy id") id; path ← explain_path target; session; ok path)
      (reapply_at w id)
