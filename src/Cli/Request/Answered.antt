-- ===== src/Cli/Request/Answered.antt =====
-- What the exit code of a command says about the answer of the engine: streamBody of
-- internal/cli/request.go behind doWithRetry.
use opensearch_api.Retry.Engine.Trace.{count_attempts}
use opensearch_api.Retry.Engine.Budget.{do_attempts_total}
use opensearch_api.Cli.Request.{
  Ended, Refusal, RequestWorld, bad_flags, copied_or, copy_to_stdout, do_with_retry, ended,
  engine_of, no_body, no_client, no_env, not_built, refused, running, stream_body,
}
use opensearch_api.Retry.Classify.{Engine}
use opensearch_api.Retry.Attempt.{Event, Round, Traced}
use opensearch_api.Config.Types.{Config, Duration}
use opensearch_api.Cli.Resolve.{CliError, Predicates, bad_retry_when, bad_success_when}
use opensearch_api.Prelude.{
  Bool, Bytes, List, Option, [], ap, arith, false, inl, inr, length, none, pos, refl, some, suc,
  true, ℕ, ◌↔◌, ◌∙◌, ◌≡◌, ◌≤◌, ◌⊎◌,
}
use opensearch_api.Errors.{Err, other}
use opensearch_api.Retry.Body.{Response}
use opensearch_api.Retry.Engine.{Ending, pending, returned}
use opensearch_api.Retry.Engine.Results.{EndingIsConsistent, IsGood, do_attempts-IsConsistent}
use opensearch_api.Cli.Exit.{exit_code, exit_code-copy_body}

-- An error that wraps none of the program's sentinels; its text is not kept.
abbrev pub quiet : Err
quiet = other []

abbrev pub cli_error : CliError → Err
cli_error (bad_retry_when e) = e
cli_error (bad_success_when e) = e
cli_error _ = quiet

abbrev pub refusal_error : Refusal → Err
refusal_error (no_env e) = e
refusal_error (no_body e) = e
refusal_error (not_built e) = e
refusal_error (bad_flags e) = cli_error e
refusal_error (no_client e) = quiet

-- The exit code of a command that has ended.
unfoldable pub command_exit : Ended → Option ℕ
command_exit (refused why) = some (exit_code (some (refusal_error why)))
command_exit (ended events printed) = some (exit_code printed.error)
command_exit (running events) = none

abbrev pub events_of : Ended → List Event
events_of (refused why) = []
events_of (ended events printed) = events
events_of (running events) = events

some-ne-none : {e : Err} → some e ≡ none → ⊥
some-ne-none h = cc

-- An exit code, behind at most so many attempts.
abbrev pub IsOver : ℕ → Ended → Type 0
IsOver most out =
    (code : ℕ) × (command_exit out ≡ some code) × (count_attempts (events_of out) ≤ most)

pub exit_code-some : (e : Err) → exit_code (some e) ≡ 0 → ⊥
unfolding exit_code
exit_code-some e h = ground (arith, h)

module _ {Q : Type 0} (w : RequestWorld Q) where
  -- A response of the engine without an error, whose body went to stdout as a whole.
  pub record IsDelivered (ending : Ending) : Type 0 where
    pub attempts : ℕ
    pub response : Response
    pub is_returned : ending ≡ returned attempts (some response) none
    pub is_written : (w.stdout response.body.unread).1 ≡ none
    pub is_whole : response.body.failure ≡ none

  copied_or-none :
      (failure : Option Err) (written : Bytes × Option Err)
      → ((copied_or failure written).1 ≡ none) ↔ ((written.1 ≡ none) × (failure ≡ none))
  copied_or-none failure (out, some e) = (λ h. absurd (cc), λ h. h.0)
  copied_or-none failure (out, none) = (λ h. (refl, h), λ h. h.1)

  copied_of : {e : Option Err} → (true ≡ false) ⊎ (e ≡ none) → e ≡ none
  copied_of (inl h) = absurd (cc)
  copied_of (inr h) = h

  stream_body-IsDelivered :
      (e : Engine) (timeout : Duration) (events : List Event) (ending : Ending)
      → EndingIsConsistent e ending
      → (command_exit (stream_body w timeout (events, ending)) ≡ some 0) ↔ IsDelivered ending
  unfolding command_exit stream_body copy_to_stdout
  stream_body-IsDelivered e timeout events pending sound =
      (λ h. absurd (cc), λ d. absurd (cc (d.is_returned)))
  stream_body-IsDelivered e timeout events (returned n none none) sound = absurd sound
  stream_body-IsDelivered e timeout events (returned n none (some why)) sound = (
    λ h. absurd (
        some-ne-none
          ((exit_code-copy_body w.print w.ctx_at_end timeout false none (some why)).0 (cc)).0),
    λ d. absurd (cc (d.is_returned)),
  )
  stream_body-IsDelivered e timeout events (returned n (some r) error) sound =
      let code =
        exit_code-copy_body w.print w.ctx_at_end timeout true (copy_to_stdout w (some r)).1 error in
      let copied = copied_or-none r.body.failure (w.stdout r.body.unread) in
      (
        λ h.
            let (calm, done) = code.0 (cc) in
            let (is_written, is_whole) = copied.0 (copied_of done) in
            record {
              attempts = n;
              response = r;
              is_returned = ap (λ x. returned n (some r) x) calm;
              is_written = is_written;
              is_whole = is_whole;
            },
        λ d.
            let same : r ≡ d.response = cc (d.is_returned) in
            let whole : r.body.failure ≡ none = ap (λ x. x.body.failure) same ∙ d.is_whole in
            let written : (w.stdout r.body.unread).1 ≡ none =
              ap (λ x. (w.stdout x.body.unread).1) same ∙ d.is_written in
            ap some (code.1 (cc (d.is_returned), inr (copied.1 (written, whole)))),
      )

  IsGood-of :
      (e : Engine) (end : Ending) (d : IsDelivered end)
      → EndingIsConsistent e end
      → IsGood e e.success_when d.response
  IsGood-of e end d sound = rw d.is_returned at sound

  -- An answer of the engine that counts as a success and went to stdout as a whole.
  pub record IsAnswered (verbose : Bool) (cfg : Config) (preds : Predicates) (rounds : List Round)
      : Type 0 where
    pub delivered : IsDelivered (do_with_retry w verbose cfg preds rounds).1
    pub is_good : IsGood (engine_of w verbose cfg preds) preds.success_when delivered.response

  pub stream_body-IsAnswered :
      (verbose : Bool) (cfg : Config) (preds : Predicates) (rounds : List Round)
      (timeout : Duration)
      → (command_exit (stream_body w timeout (do_with_retry w verbose cfg preds rounds)) ≡ some 0)
        ↔ IsAnswered verbose cfg preds rounds
  stream_body-IsAnswered verbose cfg preds rounds timeout =
      let e = engine_of w verbose cfg preds in
      let out = do_with_retry w verbose cfg preds rounds in
      let sound = sound_of verbose cfg preds rounds in
      let meant = stream_body-IsDelivered e timeout out.0 out.1 sound in
      (
        λ h.
            let d = meant.0 h in
            record { delivered = d; is_good = unfold engine_of in IsGood-of e out.1 d sound },
        λ a. meant.1 a.delivered,
      )
    where
      sound_of :
          (verbose : Bool) (cfg : Config) (preds : Predicates) (rounds : List Round)
          → EndingIsConsistent
              (engine_of w verbose cfg preds)
              (do_with_retry w verbose cfg preds rounds).1
      sound_of verbose cfg preds rounds =
          unfold do_with_retry in
          do_attempts-IsConsistent w.floats (engine_of w verbose cfg preds) rounds

  stream_body-IsOver :
      (timeout : Duration) (most : ℕ) (run : Traced Ending) (n : ℕ) (response : Option Response)
      (error : Option Err)
      → run.1 ≡ returned n response error
      → count_attempts run.0 ≤ most
      → IsOver most (stream_body w timeout run)
  unfolding stream_body command_exit
  stream_body-IsOver timeout most (events, end) n response error is few =
      rw is (exit_code _, refl, few)

  pub do_with_retry-IsOver :
      (verbose : Bool) (cfg : Config) (preds : Predicates) (rounds : List Round) (k : ℕ)
      → cfg.retry.max_retries ≡ pos k
      → suc k ≤ length rounds
      → IsOver (suc k) (stream_body w cfg.timeout (do_with_retry w verbose cfg preds rounds))
  do_with_retry-IsOver verbose cfg preds rounds k budget enough =
      let (m, response, error, is_returned, counted, few) =
        do_attempts_total w.floats (engine_of w verbose cfg preds) k rounds
          (unfold engine_of in budget) enough in
      stream_body-IsOver cfg.timeout (suc k) _ m response error
        (unfold do_with_retry in is_returned) (unfold do_with_retry in omega (arith, counted, few))
