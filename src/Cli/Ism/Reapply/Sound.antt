-- ===== src/Cli/Ism/Reapply/Sound.antt =====
-- What a reapply does: runISMReapply of internal/cli/ism_reapply.go.
use opensearch_api.Cli.Ism.Session.{Fetched, fetch}
use opensearch_api.Cli.Ism.Reapply.{Ended, explain_spec, indices_of}
use opensearch_api.Prelude.{
  Bytes, List, Option, Result, [], err, map, none, ok, some, take, ℕ, ◌∷◌, ◌≡◌, ◌⊎◌,
}
use opensearch_api.Errors.{Err}
use opensearch_api.Osclient.Address.{RequestSpec}
use opensearch_api.Retry.Predicate.{Predicate}
use opensearch_api.Cli.Ism.Change.{ReapplyWorld, change_body, change_spec}
use opensearch_api.Cli.Ism.Reapply.Requests.{requests}

module _ (w : ReapplyWorld) where
  -- The requests behind the explain, for the indices that were found: those of a beginning of the list,
  -- and of all of it if the command ends without an error.
  abbrev pub AreChanges : Bytes → Result Err (List Bytes) → List RequestSpec → Option Err → Type 0
  AreChanges id (err e) sent error = (sent ≡ []) × (error ≡ some e)
  AreChanges id (ok indices) sent error =
      (body : Bytes) × (count : ℕ) × ((sent ≡ []) ⊎ (change_body w id ≡ ok body))
      × (sent ≡ map (change_spec body) (take count indices))
      × (error ≡ none → sent ≡ map (change_spec body) indices)

  abbrev pub explained : Bytes → Fetched
  explained path = fetch w.print w.timeout w.build (explain_spec path) (w.exchange 0)

  -- Behind the checks: the explain, if it can be built, and then the changes for what it says.
  pub record IsReapplied (id path : Bytes) (out : Ended) : Type 0 where
    pub sent : List RequestSpec
    pub asked :
        (requests out.0 ≡ explain_spec path ∷ sent)
        ⊎ ((requests out.0 ≡ []) × ((e : Err) × (out.1 ≡ some e)))
    pub changes : AreChanges id (indices_of w id (explained path).1) sent out.1
