-- ===== src/Cli/Ism/Session.antt =====
-- internal/cli/ism.go, fetchWithoutPredicates, over what BuildRequest and the retry engine give.
use opensearch_api.Prelude.{Bytes, List, Option, Result, [], err, is_some, none, ok, some, ◌∷◌}
use opensearch_api.Errors.{Err}
use opensearch_api.Config.Types.{Duration}
use opensearch_api.Osclient.Address.{RequestSpec}
use opensearch_api.Retry.Body.{Body}
use opensearch_api.Retry.Predicate.{Context}
use opensearch_api.Cli.Exit.{copy_body}

-- What the engine gives for one request, with the context behind it: a body if there is a response,
-- and an error.
pub record Exchange : Type 0 where
  pub body : Option Body
  pub do_err : Option Err
  pub context : Context

-- What a command does that others can see.
pub data IsmEvent : Type 0 where
  requested : RequestSpec → IsmEvent
  wrote : Bytes → IsmEvent
  no_indices_managed : Bytes → IsmEvent
  predicate_failed : Bytes → Err → IsmEvent

abbrev pub Fetched : Type 0
Fetched = List IsmEvent × Result Err Bytes

-- What `io.Copy` reads, and its error.
abbrev pub bytes_of : Option Body → Bytes
bytes_of none = []
bytes_of (some b) = b.unread

abbrev pub copy_error : Option Body → Option Err
copy_error none = none
copy_error (some b) = b.failure

-- A body goes to stdout when the engine had an error.
abbrev pub shown : Option Err → Option Body → List IsmEvent
shown (some e) (some b) = wrote b.unread ∷ []
shown _ _ = []

module _ (print : Duration → Bytes) (timeout : Duration) where
  abbrev pub fetched_or : Bytes → Option Err → Result Err Bytes
  fetched_or text none = ok text
  fetched_or text (some e) = err e

  -- What follows the exchange of a request that was built.
  unfoldable pub fetch_exchange : RequestSpec → Exchange → Fetched
  fetch_exchange spec x = (
    requested spec ∷ shown x.do_err x.body,
    fetched_or (bytes_of x.body)
        (copy_body print x.context timeout (is_some x.body) (copy_error x.body) x.do_err),
  )

  abbrev pub unless_refused : Option Err → Fetched → Fetched
  unless_refused (some e) rest = ([], err e)
  unless_refused none rest = rest

  unfoldable pub fetch : (RequestSpec → Option Err) → RequestSpec → Exchange → Fetched
  fetch build spec x = unless_refused (build spec) (fetch_exchange spec x)
