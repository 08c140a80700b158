-- ===== src/Retry/Attempt.antt =====
-- internal/retry/retry.go, one attempt of Engine.Do: what the world answers to it, how its response is
-- received, and how its body is closed. What others can see of a run is a list of events.
use opensearch_api.Prelude.{
  Bool, Bytes, List, Option, [], codes, err, false, if◌then◌else◌, none, ok, some, true, ℕ, ◌∷◌,
}
use opensearch_api.Errors.{Err, wrap}
use opensearch_api.Retry.Body.{Response, buffer_body}
use opensearch_api.Retry.Predicate.{Context}
use opensearch_api.Config.Types.{Duration, Float64}
use opensearch_api.Retry.Classify.{Engine, PredicateContexts, Warning, has_predicates}

-- What an attempt returns. The error of a failed one may come with a response.
pub data Attempted : Type 0 where
  responded : Response → Attempted
  failed : Err → Attempted
  failed_with : Response → Err → Attempted

-- One turn of the loop as the world sees it: the attempt's result, the context at each place where
-- the loop looks at it, the jitter sample (`none` for a nil source), and what the sleep returns.
pub record Round : Type 0 where
  pub attempted : Attempted
  pub ctx_at_error : Context
  pub ctx_at_predicates : PredicateContexts
  pub ctx_before_retry : Context
  pub jitter_sample : Option Float64
  pub slept : Option Err

pub record RetryInfo : Type 0 where
  pub attempt : ℕ
  pub status : ℕ
  pub cause : Option Err
  pub delay : Duration
  pub reason : Bytes

-- `attempted n b`: attempt `n` was made, and `b` says whether it gave a response. A body is named
-- by its attempt.
pub data Event : Type 0 where
  attempted : ℕ → Bool → Event
  warned : Warning → Event
  drained closed : ℕ → Event
  notified : RetryInfo → Event
  slept : Duration → Event

-- What is known of an attempt when it is classified.
pub record Received : Type 0 where
  pub response : Option Response
  pub buf : Bytes
  pub overflowed : Bool
  pub buffered : Bool
  pub cause : Option Err

pub data Step : Type 0 where
  finish : Option Response → Option Err → Step
  again : Step

abbrev pub Traced : Type 0 → Type 0
Traced A = List Event × A

-- Receiving a response: its body is buffered if there is a predicate, and closed if that fails.
unfoldable pub receive_response : Engine → ℕ → Response → Traced Received
receive_response e n r =
    if has_predicates e
    then elim (buffer_body r.body e.cfg.max_body_buffer) [
      | ok b ↦ (
        [],
        record {
          response = some (record r { body = b.body });
          buf = b.buf;
          overflowed = b.overflowed;
          buffered = true;
          cause = none;
        },
      )
      | err why ↦ (
        closed n ∷ [],
        record {
          response = none;
          buf = [];
          overflowed = false;
          buffered = false;
          cause = some (wrap (codes "reading response body: ") why []);
        },
      )
    ]
    else (
      [],
      record { response = some r; buf = []; overflowed = false; buffered = false; cause = none },
    )

abbrev pub unread_failure : Option Response → Err → Received
unread_failure response why = record {
  response = response;
  buf = [];
  overflowed = false;
  buffered = false;
  cause = some why;
}

unfoldable pub receive : Engine → ℕ → Attempted → Traced Received
unfolding receive_response
receive e n (responded r) = receive_response e n r
receive e n (failed why) = ([], unread_failure none why)
receive e n (failed_with r why) = ([], unread_failure (some r) why)

-- drainStatus
unfoldable pub drain_status : ℕ → Option Response → List Event
drain_status n none = []
drain_status n (some r) = drained n ∷ closed n ∷ []

-- closeAttempt; `buffered` implies that there is a response.
unfoldable pub close_attempt : ℕ → Received → List Event
close_attempt n got = if got.buffered then closed n ∷ [] else drain_status n got.response

abbrev pub gives_response : Attempted → Bool
gives_response (responded r) = true
gives_response (failed why) = false
gives_response (failed_with r why) = true
