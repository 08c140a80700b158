-- ===== src/Cli/Plan.antt =====
-- internal/cli/run.go, printPlan, retryCount and formatRefs: what a dry run of a runbook prints.
use opensearch_api.Prelude.{
  Bool, Bytes, List, [], codes, decimal, false, if◌then◌else◌, int_eqb, is_empty, length, map, not,
  pos, suc, true, ℕ, ◌++◌, ◌∷◌,
}
use opensearch_api.Config.Strategy.{strategy_string}
use opensearch_api.Runbook.Call.{Call, references}
use opensearch_api.Cli.Resolve.{retry_count}

-- `strings.Join` with ", ".
unfoldable pub join_comma : List Bytes → Bytes
join_comma [] = []
join_comma (s ∷ []) = s
join_comma (s ∷ t ∷ rest) = s ++ codes ", " ++ join_comma (t ∷ rest)

unfoldable pub format_refs : List Bytes → Bytes
format_refs names = join_comma (map (λ name. codes "${" ++ name ++ codes "}") names)

abbrev pub line_if : Bool → Bytes → List Bytes
line_if true line = line ∷ []
line_if false line = []

unfoldable pub call_line : ℕ → Call → Bytes
call_line i call =
    codes "  "
    ++ decimal (suc i)
    ++ codes ". "
    ++ call.name
    ++ codes ": "
    ++ call.method
    ++ codes " "
    ++ call.path
    ++ (if call.continue_on_failure then codes " (continue-on-failure)" else [])

-- The lines on one call, which is number `i`.
unfoldable pub plan_call : ℕ → Call → List Bytes
plan_call i call =
    let refs = references call in
    call_line i call
      ∷ line_if call.has_body (codes "     body: " ++ decimal (length call.body) ++ codes " bytes")
    ++ line_if (not (int_eqb call.retry.max_retries (pos 0))) (
        codes "     retry: "
        ++ retry_count call.retry.max_retries
        ++ codes " ("
        ++ strategy_string call.retry.strategy
        ++ codes ")")
    ++ line_if (not (is_empty call.capture))
        (codes "     produces: " ++ join_comma (map (λ c. c.name) call.capture))
    ++ line_if (not (is_empty refs)) (codes "     consumes: " ++ format_refs refs)

unfoldable pub plan_calls : ℕ → List Call → List Bytes
plan_calls i [] = []
plan_calls i (call ∷ rest) = plan_call i call ++ plan_calls (suc i) rest

unfoldable pub print_plan : List Call → List Bytes
print_plan calls =
    (codes "dry-run: " ++ decimal (length calls) ++ codes " call(s), no requests sent")
    ∷ plan_calls 0 calls
