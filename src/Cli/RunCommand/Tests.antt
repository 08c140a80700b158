-- ===== src/Cli/RunCommand/Tests.antt =====
-- A runbook of two calls, run by its command.
use opensearch_api.Prelude.{[], codes, err, false, none, ok, refl, some, ◌↔◌, ◌≡◌}
use opensearch_api.Errors.{other}
use opensearch_api.Config.Types.{defaults}
use opensearch_api.Runbook.Load.Doc.{decoded, end_of_input}
use opensearch_api.Runbook.Load.Tests.{doc, outside}
use opensearch_api.Runbook.Run.Tests.{runner, world}
use opensearch_api.Cli.RunCommand.{RunFlags, RunWorld, run_run}
use opensearch_api.Cli.RunCommand.Complete.{IsComplete, run_exit, run_run-IsComplete-iff}

abbrev run_world : RunWorld
run_world = record {
  surroundings = record {
    parse_duration = λ text. none;
    compile = λ text. err (other text);
    prompt = none;
    is_tty = false;
    env = none;
    is_changed = λ field. false;
  };
  process_env = none;
  parse_env = λ text. none;
  outside = outside;
  documents = λ path. ok (decoded doc, end_of_input);
  dir = λ path. [];
  parse_url = λ text.
      some (record { scheme = codes "https"; hostname = codes "localhost"; port = codes "9200" });
  read_pem = λ path. none;
  runner = runner;
  print = λ d. [];
  world = λ client cfg. world;
  ctx_at_end = none;
}

abbrev run_flags : RunFlags
run_flags = record { conn = defaults; env_file = []; dry_run = false; runbook = codes "calls.yaml" }

run_run-IsComplete-iff_example :
    (run_exit (run_run run_world run_flags) ≡ some 0) ↔ IsComplete run_world run_flags
run_run-IsComplete-iff_example = run_run-IsComplete-iff run_world run_flags refl
