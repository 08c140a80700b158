-- ===== src/Cli/RunCommand.antt =====
-- internal/cli/run.go, runRun: the command that runs a runbook, with LoadFile of
-- internal/runbook/runbook.go. The file system, the YAML decoder, the terminal, the server and the
-- library functions of a runner are arguments.
pub mod Complete
mod Tests
use opensearch_api.Prelude.{
  Bool, Bytes, List, Option, Result, [], codes, err, if◌then◌else◌, map_err, ok, quoted, some, ℕ,
  ◌++◌, ◌>>=◌, ◌>>◌,
}
use opensearch_api.Errors.{Err, wrap}
use opensearch_api.Config.Types.{Config, Duration}
use opensearch_api.Config.Env.{EnvLookup, Lookup, load_env_file}
use opensearch_api.Config.Resolve.{resolve, resolve_password}
use opensearch_api.Osclient.Client.{AuthTransport, ClientError, Url, new_client}
use opensearch_api.Retry.Predicate.{Context}
use opensearch_api.Runbook.Call.{Call}
use opensearch_api.Runbook.Outcome.{Report}
use opensearch_api.Runbook.Sending.{CallWorld, Reported, Runner}
use opensearch_api.Runbook.Run.{RunEnd, Summary, run, run_ended, run_waiting}
use opensearch_api.Runbook.Load.Node.{Node}
use opensearch_api.Runbook.Load.Checks.{LoadError, Outside}
use opensearch_api.Runbook.Load.Doc.{Decoded, RunbookDoc, load}
use opensearch_api.Cli.Exit.{timeout_error}
use opensearch_api.Cli.Plan.{print_plan}
use opensearch_api.Cli.Resolve.{CliError, Surroundings, bad_config, bad_password, load_env}
use opensearch_api.Cli.Request.{client_options}

-- `conn` is what connFlags.config gives.
pub record RunFlags : Type 0 where
  pub conn : Config
  pub env_file : Bytes
  pub dry_run : Bool
  pub runbook : Bytes

-- `documents` is what the YAML decoder gives for the first and the second document of a file, or the
-- error of its open; `dir` is `filepath.Dir`. `world` is what a client meets at each call, and
-- `ctx_at_end` is the context behind the last.
pub record RunWorld : Type 0 where
  pub surroundings : Surroundings
  pub process_env : EnvLookup
  pub parse_env : Bytes → Option Lookup
  pub outside : Outside
  pub documents : Bytes → Result Err (Decoded RunbookDoc × Decoded Node)
  pub dir : Bytes → Bytes
  pub parse_url : Bytes → Option Url
  pub read_pem : Bytes → Option Bytes
  pub runner : Runner
  pub print : Duration → Bytes
  pub world : AuthTransport → Config → ℕ → CallWorld
  pub ctx_at_end : Context

-- Why a command stops before its first call.
pub data RunRefusal : Type 0 where
  not_opened no_env : Err → RunRefusal
  not_loaded : LoadError → RunRefusal
  bad_connection : CliError → RunRefusal
  no_client : ClientError → RunRefusal

-- How a command ends: refused, with the plan of a dry run on stderr, or with the reports, the summary
-- and the error of a run, which has reported that error itself; or it still runs.
pub data RunOver : Type 0 where
  run_refused : RunRefusal → RunOver
  planned : List Bytes → RunOver
  run_over : List Report → Summary → Option Err → RunOver
  run_pending : List Report → RunOver

-- `resolveConnection`
unfoldable pub resolve_connection : Surroundings → Config → EnvLookup → Result CliError Config
resolve_connection s conn env = do
  cfg ← map_err bad_config (
      resolve s.parse_duration (record { flags = conn; is_changed = some s.is_changed; env = env }))
  password ← map_err bad_password (resolve_password cfg s.prompt s.is_tty)
  ok (record cfg { password = password })

module _ (w : RunWorld) where
  abbrev opening : Bytes → Err → RunRefusal
  opening path e = not_opened (wrap (codes "opening runbook " ++ quoted path ++ codes ": ") e [])

  -- `LoadFile`
  unfoldable pub load_runbook : Bytes → Result RunRefusal (List Call)
  load_runbook path = do
    documents ← map_err (opening path) (w.documents path)
    map_err not_loaded (load w.outside (w.dir path) documents.0 documents.1)

  -- The end of runRun, on what the runner returns.
  unfoldable pub report_run : Config → Reported RunEnd → RunOver
  report_run cfg (reports, run_waiting) = run_pending reports
  report_run cfg (reports, run_ended summary error) =
      run_over reports summary (timeout_error w.print w.ctx_at_end cfg.timeout error)

  -- The connection, behind the test for a dry run.
  unfoldable pub connect : RunFlags → EnvLookup → Result RunRefusal (Config × AuthTransport)
  connect f env = do
    cfg ← map_err bad_connection (resolve_connection w.surroundings f.conn env)
    client ← map_err no_client (new_client w.parse_url w.read_pem (client_options cfg))
    ok (cfg, client)

  abbrev pub run_with : List Call → Result RunRefusal (Config × AuthTransport) → RunOver
  run_with calls (err why) = run_refused why
  run_with calls (ok (cfg, client)) = report_run cfg (run w.runner (w.world client cfg) calls)

  -- The runbook and the environment, which are read before the test for a dry run.
  unfoldable pub load_inputs : RunFlags → Result RunRefusal (List Call × EnvLookup)
  load_inputs f = do
    calls ← load_runbook f.runbook
    env ←
        map_err no_env
          (load_env (load_env_file w.outside.read_file w.parse_env) w.process_env f.env_file)
    ok (calls, env)

  abbrev pub run_loaded : RunFlags → Result RunRefusal (List Call × EnvLookup) → RunOver
  run_loaded f (err why) = run_refused why
  run_loaded f (ok (calls, env)) =
      if f.dry_run then planned (print_plan calls) else run_with calls (connect f env)

  -- `runRun`
  unfoldable pub run_run : RunFlags → RunOver
  run_run f = run_loaded f (load_inputs f)
