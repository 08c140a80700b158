-- ===== src/Cli/RunCommand/Complete.antt =====
-- What the exit code of runRun in internal/cli/run.go says about the runbook.
use opensearch_api.Runbook.Run.{
  RunEnd, Summary, completed, empty_store, halted, interrupted, run, run_ended, run_waiting,
  timed_out_during,
}
use opensearch_api.Runbook.Run.Reached.{Reached, start}
use opensearch_api.Runbook.Run.Course.{completed-Reached, run-Course}
use opensearch_api.Runbook.Sending.{CallWorld}
use opensearch_api.Runbook.Template.{Store}
use opensearch_api.Prelude.{
  List, Option, Result, [], ap, arith, err, false, if◌then◌else◌, is_some, length, none, ok,
  ok-injective, refl, some, subst, sym, ℕ, ◌+◌, ◌↔◌, ◌∙◌, ◌≡◌,
}
use opensearch_api.Cli.Request.Answered.{cli_error, exit_code-some, quiet}
use opensearch_api.Runbook.Run.Counts.{IsAccounted, run-IsAccounted}
use opensearch_api.Cli.Plan.{print_plan}
use opensearch_api.Errors.{Err}
use opensearch_api.Config.Types.{Config, Duration}
use opensearch_api.Runbook.Call.{Call}
use opensearch_api.Runbook.Outcome.{Report}
use opensearch_api.Cli.Exit.{exit_code, timeout_error}
use opensearch_api.Osclient.Client.{AuthTransport}
use opensearch_api.Config.Env.{EnvLookup}
use opensearch_api.Cli.RunCommand.{
  RunFlags, RunOver, RunRefusal, RunWorld, bad_connection, connect, load_inputs, no_client, no_env,
  not_loaded, not_opened, planned, report_run, run_loaded, run_over, run_pending, run_refused,
  run_run, run_with,
}

-- The error of a refusal, whose text is not kept where it wraps none of the program's sentinels.
abbrev pub refusal_cause : RunRefusal → Err
refusal_cause (not_opened e) = e
refusal_cause (no_env e) = e
refusal_cause (not_loaded e) = quiet
refusal_cause (bad_connection e) = cli_error e
refusal_cause (no_client e) = quiet

-- The exit code of a command that has ended.
unfoldable pub run_exit : RunOver → Option ℕ
run_exit (run_refused why) = some (exit_code (some (refusal_cause why)))
run_exit (planned lines) = some 0
run_exit (run_over reports summary error) = some (exit_code error)
run_exit (run_pending reports) = none

module _ (w : RunWorld) where
  -- A run that got to its end, having gone past every call: each succeeded, or failed with an error that
  -- is not the context's and that the call tolerates, which are counted apart.
  pub record IsAllRun (world : ℕ → CallWorld) (calls : List Call) (run_end : RunEnd) : Type 0 where
    pub good : ℕ
    pub tolerated : ℕ
    pub is_ended : run_end ≡ run_ended (completed good tolerated) none
    pub counts : good + tolerated ≡ length calls
    pub last : Store
    pub all_passed : Reached w.runner world calls good tolerated last

  timeout_error-none :
      (timeout : Duration) (error : Option Err)
      → (exit_code (timeout_error w.print w.ctx_at_end timeout error) ≡ 0) ↔ (error ≡ none)
  unfolding exit_code timeout_error
  timeout_error-none timeout error = ground arith

  -- A run that is completed has gone past all its calls.
  abbrev PassesAll : (ℕ → CallWorld) → List Call → RunEnd → Type 0
  PassesAll world calls run_end =
      (good tolerated : ℕ)
      → run_end ≡ run_ended (completed good tolerated) none
      → (last : Store) × Reached w.runner world calls good tolerated last

  run-PassesAll :
      (world : ℕ → CallWorld) (calls : List Call)
      → PassesAll world calls (run w.runner world calls).1
  run-PassesAll world calls good tolerated is_ended =
      completed-Reached (λ store call. Unit {0}) w.runner world [] calls 0 0 empty_store
        (run w.runner world calls) good tolerated (run-Course w.runner world calls) is_ended start

  all_run :
      (world : ℕ → CallWorld) (calls : List Call) (summary : Summary) (error : Option Err)
      → PassesAll world calls (run_ended summary error)
      → IsAccounted (length calls) (run_ended summary error)
      → error ≡ none
      → IsAllRun world calls (run_ended summary error)
  all_run world calls (completed good tolerated) error passes (counted, agrees) calm =
      let is_ended = ap (run_ended (completed good tolerated)) calm in
      let (last, all_passed) = passes good tolerated is_ended in
      record {
        good = good;
        tolerated = tolerated;
        is_ended = is_ended;
        counts = counted;
        last = last;
        all_passed = all_passed;
      }
  all_run world calls (halted good bad not_run) error passes (counted, agrees) calm =
      absurd (cc (agrees, ap is_some calm))
  all_run world calls (interrupted good bad name not_run) error passes (counted, agrees) calm =
      absurd (cc (agrees, ap is_some calm))
  all_run world calls (timed_out_during good bad name not_run) error passes (counted, agrees) calm =
      absurd (cc (agrees, ap is_some calm))

  report_run-IsAllRun :
      (cfg : Config) (world : ℕ → CallWorld) (calls : List Call) (reports : List Report)
      (run_end : RunEnd)
      → PassesAll world calls run_end
      → IsAccounted (length calls) run_end
      → (run_exit (report_run w cfg (reports, run_end)) ≡ some 0) ↔ IsAllRun world calls run_end
  unfolding run_exit report_run
  report_run-IsAllRun cfg world calls reports run_waiting passes sound =
      (λ h. absurd (cc), λ d. absurd (cc (d.is_ended)))
  report_run-IsAllRun cfg world calls reports (run_ended summary error) passes (counted, agrees) = (
    λ h.
        all_run world calls summary error passes (counted, agrees)
          ((timeout_error-none cfg.timeout error).0 (cc)),
    λ d. ap some ((timeout_error-none cfg.timeout error).1 (cc (d.is_ended))),
  )

  -- A runbook that was loaded and run to its end over a connection.
  pub record IsComplete (f : RunFlags) : Type 0 where
    pub calls : List Call
    pub env : EnvLookup
    pub is_loaded : load_inputs w f ≡ ok (calls, env)
    pub cfg : Config
    pub client : AuthTransport
    pub is_connected : connect w f env ≡ ok (cfg, client)
    pub is_all : IsAllRun (w.world client cfg) calls (run w.runner (w.world client cfg) calls).1

  run_with-IsComplete :
      (f : RunFlags) (calls : List Call) (env : EnvLookup)
      (connected : Result RunRefusal (Config × AuthTransport))
      → load_inputs w f ≡ ok (calls, env)
      → connect w f env ≡ connected
      → (run_exit (run_with w calls connected) ≡ some 0) ↔ IsComplete f
  unfolding run_exit
  run_with-IsComplete f calls env (err why) loaded is = (
    λ h. absurd (exit_code-some (refusal_cause why) (cc)),
    λ c.
        let same = ok-injective (sym c.is_loaded ∙ loaded) in
        absurd (cc (sym c.is_connected ∙ ap (λ p. connect w f p.1) same ∙ is)),
  )
  run_with-IsComplete f calls env (ok (cfg, client)) loaded is =
      let meant =
        report_run-IsAllRun cfg (w.world client cfg) calls _
          (run w.runner (w.world client cfg) calls).1 (run-PassesAll (w.world client cfg) calls)
          (run-IsAccounted w.runner (w.world client cfg) calls) in
      (
        λ h. record {
          calls = calls;
          env = env;
          is_loaded = loaded;
          cfg = cfg;
          client = client;
          is_connected = is;
          is_all = meant.0 h;
        },
        λ c.
            let same = ok-injective (sym c.is_loaded ∙ loaded) in
            let there = ok-injective (sym c.is_connected ∙ ap (λ p. connect w f p.1) same ∙ is) in
            meant.1 (
              subst
                (λ p. IsAllRun (w.world client cfg) p.0 (run w.runner (w.world client cfg) p.0).1)
                same
                (subst
                  (λ p.
                    IsAllRun (w.world p.1 p.0) c.calls (run w.runner (w.world p.1 p.0) c.calls).1)
                  there c.is_all)),
      )

  run_loaded-IsComplete :
      (f : RunFlags) (loaded : Result RunRefusal (List Call × EnvLookup))
      → f.dry_run ≡ false
      → load_inputs w f ≡ loaded
      → (run_exit (run_loaded w f loaded) ≡ some 0) ↔ IsComplete f
  run_loaded-IsComplete f (err why) live is = (
    λ h. absurd (exit_code-some (refusal_cause why) (unfold run_exit in cc)),
    λ c. absurd (cc (c.is_loaded, is)),
  )
  run_loaded-IsComplete f (ok (calls, env)) live is =
      let goes : run_loaded w f (ok (calls, env)) ≡ run_with w calls (connect w f env) =
        ap (λ b. if b then planned (print_plan calls) else run_with w calls (connect w f env))
          live in
      subst (λ out. (run_exit out ≡ some 0) ↔ IsComplete f) (sym goes)
        (run_with-IsComplete f calls env (connect w f env) is refl)

  -- The run command without --dry-run exits with 0 exactly when the runbook and the environment load,
  -- the connection resolves, and the run is completed, having gone past each of the runbook's calls,
  -- on the store that the calls before it left: the call succeeded, or it failed, with an error that is
  -- not the context's, and the call is marked to continue on failure.
  pub run_run-IsComplete-iff :
      (f : RunFlags) → f.dry_run ≡ false → (run_exit (run_run w f) ≡ some 0) ↔ IsComplete f
  unfolding run_run
  run_run-IsComplete-iff f live = run_loaded-IsComplete f (load_inputs w f) live refl
