-- ===== src/Lib.antt =====
-- A model of osapi, a command-line client for OpenSearch: the retry engine, the resolution of the
-- configuration, the templates, captures, loader and runs of runbooks, and the commands for requests,
-- runbooks and index policies, with the theorems that make them correct.
--
-- The parts and how they interact. A command resolves one configuration out of flags, environment
-- and defaults (internal/config), builds a request (internal/osclient) and hands it to the retry
-- engine (internal/retry), which tries it until the response counts as a success. A runbook
-- (internal/runbook) is a list of such requests; captures of earlier responses are put into later
-- requests through templates.
--
-- Files. Paths of the program are given from the repository's root.
--   Prelude      shared names: results, signed integers, byte strings, decimal print, list
--                lemmas, sorting of texts (Sorting) and the lemma on lists of distinct names
--                (Pigeonhole).
--   Errors       Go error values: sentinels, fmt.Errorf with %w, errors.Is.
--   Json         decoded JSON documents.
--   Cli          internal/cli and cmd/osapi. Exit is timeoutError of run.go, copyBody of
--                request.go and exitCode of main.go; Resolve is resolveConfig and parseQuery of
--                request.go and loadEnv and retryCount of run.go; Flags is parseHeaders of
--                request.go; Plan is printPlan of run.go; Output is printBodySkeleton and
--                verboseHook of output.go; Completion is completion.go; Request is runRequest of
--                request.go with doWithRetry and streamBody; RunCommand is runRun and
--                resolveConnection of run.go. Ism is the policy commands: Names is validName and
--                the paths, Session is fetchWithoutPredicates, of ism.go; Value is
--                reflect.DeepEqual on JSON; Policy is buildPolicy, normalizePolicy and
--                policyUnchanged, and Held what a stored document says of a wanted policy
--                apart from them, Set is the policy and the upsert of runISMSet, of
--                ism_policy.go; Managed is managedBy, Change is changePolicy and
--                mergeChangePolicy, Reapply is runISMReapply and judge, of ism_reapply.go;
--                Command is newISMSession and ismSession.do of ism.go and runISMSet as a whole.
--   Config       internal/config. Strategy, Size and Types are config.go (BackoffStrategy,
--                ParseSize, FormatSize, RetryConfig, Config, Defaults); Env is env.go and
--                envfile.go; Resolve is Resolve of resolve.go and ResolvePassword of password.go.
--   Retry        internal/retry. Predicate is predicate.go, Body is bufferBody of retry.go,
--                Classify is classify.go, Backoff is backoff.go, Attempt is what Engine.Do of
--                retry.go does with one attempt's response, Engine is the loop of Engine.Do.
--   Apispec      internal/apispec. Match is MatchTemplate, MethodsFor and BodySkeleton, Suggest
--                is Suggest, of apispec.go; Gen is gen/main.go, which writes the tables.
--   Osclient     internal/osclient. Address is stripUserinfo, the address and headers of
--                BuildRequest, and ReadBody, Request is BuildRequest, of request.go; Header is
--                http.Header with its spelling of names, of the standard library; Client is New
--                and RoundTrip of client.go; Upsert is upsert.go.
--   Runbook      internal/runbook. Template is scanTemplate, substitute and substitutePath of
--                capture.go and checkRefs of runbook.go; Capture is extractCaptures of
--                capture.go; Call is Call with its References and the registration of captures of
--                runbook.go, and substituteCall of run.go; Outcome is readBounded, failureDetail
--                and the lines on stderr of run.go; Sending is Runner.runCall and Run is
--                Runner.Run of run.go; Spec is buildRetryConfig of runbook.go. Load is Load of
--                runbook.go: Node reads a YAML node, Headers is mergeHeaders, Checks is what
--                loader.call tests, Build is loader.call, Doc is Load.
-- A file's children prove what their names say; the Tests modules hold runs on concrete inputs.
--
-- How state and effects are modelled. A Go function with an error is a function into `Result`. The
-- engine's loop gets what the world answers, one `Round` for each attempt: the response or error,
-- the context at each place where the loop looks at it, the jitter sample, and what the sleep
-- returns. It gives its result with the list of events that others can see: attempts, warnings,
-- drains, closes, hook calls and sleeps. A body is named by its attempt. A response's body is the
-- bytes that its reader still gives, with its end or an error behind them. Strings are lists of
-- bytes. A run of a runbook gets a `CallWorld` for each call, with the rounds of its engine and the
-- context at each place where the runner looks at it; it gives what it reports on stderr and does to
-- response bodies, with its summary and error. Reached is a step relation on the states between the
-- calls, and Course is the relation of whole runs: each call from such a state either leads on or
-- ends the run, and the loop's runs are shown to be of it. A command is a function of its flags and of a record
-- of what surrounds it, to what it printed and the error that its exit code comes from.
--
-- Bounds and fuel. `run_from` is structural in the list of rounds; a run that has used them up is
-- `pending`, and a finite budget of retries is shown to return within its rounds. `scan` has the
-- length of its text as fuel, and each round reads a byte; `render-plain` and `scan-pieces_from`
-- show that nothing is cut off, and Reads is the grammar of templates apart from that loop. `digits_from` has the number itself as fuel. Durations and sizes
-- are int64 with the wrap-around written out; attempts and lengths are natural numbers.
--
-- What is not modelled. Third-party code is a parameter: the jq interpreter (a function from a
-- document to the values it emits), the YAML parser and its decoding of a node into a call, the
-- JSON decoder and encoder, the url package and http.NewRequest, time.ParseDuration, the
-- terminal prompt, the env file's parser, and floating point (a record of operations on bit
-- patterns). Go maps are functions from names to values where their order is never seen, and
-- lists of pairs elsewhere, walked in the order of the list. The texts of errors are kept where
-- the program tests or cuts them. The flag library with the registration of flags and
-- completions, net/http, the end-to-end tests and the generated specification tables are not
-- modelled: the lookups take any table. The reapply command takes its session, and what the
-- engine gives for each of its requests, as arguments. Unicode case mapping is kept to what a
-- comparison with an ASCII text sees.
pub mod Prelude
pub mod Errors
pub mod Json
pub mod Config
pub mod Retry
pub mod Runbook
pub mod Apispec
pub mod Osclient
pub mod Cli
