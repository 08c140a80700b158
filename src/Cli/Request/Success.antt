-- ===== src/Cli/Request/Success.antt =====
-- What the exit code of runRequest in internal/cli/request.go says about the request.
use opensearch_api.Cli.Request.Answered.{
  IsAnswered, IsOver, command_exit, do_with_retry-IsOver, exit_code-some, refusal_error,
  stream_body-IsAnswered,
}
use opensearch_api.Cli.Output.{print_body_skeleton}
use opensearch_api.Cli.Request.{
  Prepared, Refusal, RequestFlags, RequestWorld, ended, prepare_request, run_request, send_prepared,
}
use opensearch_api.Retry.Attempt.{Round}
use opensearch_api.Prelude.{
  List, Result, [], ap, err, false, if◌then◌else◌, length, ok, pos, refl, some, subst, suc, sym, ℕ,
  ◌↔◌, ◌∙◌, ◌≡◌, ◌≤◌,
}

module _ {Q : Type 0} (w : RequestWorld Q) where
  abbrev rounds_of : Prepared Q → List Round
  rounds_of p = w.answers p.client p.cfg.timeout p.request

  -- A request that was sent, and whose response counts as a success and was written as a whole.
  pub record IsSent (f : RequestFlags) : Type 0 where
    pub prepared : Prepared Q
    pub is_prepared : prepare_request w f ≡ ok prepared
    pub answered : IsAnswered w f.verbose prepared.cfg prepared.preds (rounds_of prepared)

  send_prepared-IsSent :
      (f : RequestFlags) (made : Result Refusal (Prepared Q))
      → prepare_request w f ≡ made
      → (command_exit (send_prepared w f made) ≡ some 0) ↔ IsSent f
  send_prepared-IsSent f (err why) is = (
    λ h. absurd (exit_code-some (refusal_error why) (unfold command_exit in cc)),
    λ s. absurd (cc (is, s.is_prepared)),
  )
  send_prepared-IsSent f (ok p) is =
      let meant = stream_body-IsAnswered w f.verbose p.cfg p.preds (rounds_of p) p.cfg.timeout in
      (
        λ h. record { prepared = p; is_prepared = is; answered = meant.0 h },
        λ s.
            let same : s.prepared ≡ p = cc (is, s.is_prepared) in
            meant.1
              (subst (λ q. IsAnswered w f.verbose q.cfg q.preds (rounds_of q)) same s.answered),
      )

  run_request-sends :
      (f : RequestFlags)
      → f.body_skeleton ≡ false
      → run_request w f ≡ send_prepared w f (prepare_request w f)
  unfolding run_request
  run_request-sends f asked =
      ap
        (λ b.
          if b
          then ended [] (print_body_skeleton w.tables w.stdout f.path f.method)
          else send_prepared w f (prepare_request w f))
        asked

  -- A command that is not asked for a body scaffold exits with 0 exactly when its flags resolve, its
  -- request can be built, and the retry engine returns a response without an error that was read to
  -- its end and taken by stdout. Such a response has a 2xx status, or with a success predicate a JSON
  -- body that the predicate matched.
  pub run_request-IsSent-iff :
      (f : RequestFlags)
      → f.body_skeleton ≡ false
      → (command_exit (run_request w f) ≡ some 0) ↔ IsSent f
  run_request-IsSent-iff f asked =
      subst (λ out. (command_exit out ≡ some 0) ↔ IsSent f) (sym (run_request-sends f asked))
        (send_prepared-IsSent f (prepare_request w f) refl)

  -- A command whose retries are bounded by `k` ends, with an exit code and after `k + 1` attempts at
  -- most, once each of `k + 1` attempts is answered.
  pub run_request-Ends :
      (f : RequestFlags) (p : Prepared Q) (k : ℕ)
      → f.body_skeleton ≡ false
      → prepare_request w f ≡ ok p
      → p.cfg.retry.max_retries ≡ pos k
      → suc k ≤ length (w.answers p.client p.cfg.timeout p.request)
      → IsOver (suc k) (run_request w f)
  run_request-Ends f p k asked is budget enough =
      subst (λ out. IsOver (suc k) out)
        (sym (run_request-sends f asked ∙ ap (send_prepared w f) is))
        (do_with_retry-IsOver w f.verbose p.cfg p.preds (rounds_of p) k budget enough)
