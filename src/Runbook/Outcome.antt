-- ===== src/Runbook/Outcome.antt =====
-- What a runner writes of a call's outcome, by run.go of internal/runbook: readBounded,
-- failureDetail and the lines on stderr, which are kept as data.
pub mod Detail
use opensearch_api.Prelude.{
  Bool, Bytes, List, Option, [], codes, drop, false, has_prefix, if◌then◌else◌, is_empty, is_some,
  length, ltb, none, some, take, true, ℕ, ℤ, ◌&&◌, ◌||◌, ◌∷◌,
}
use opensearch_api.Errors.{
  Err, canceled, ctx, deadline_exceeded, is_err, message, rejected, retries_exhausted,
  sentinel_text, terminal_status,
}
use opensearch_api.Retry.Predicate.{Context}
use opensearch_api.Retry.Body.{Body, Response, is_unlimited, magnitude}
use opensearch_api.Retry.Attempt.{Event}

-- The rest of a text from its first occurrence of another on.
unfoldable pub from_first : Bytes → Bytes → Option Bytes
from_first p [] = if is_empty p then some [] else none
from_first p (c ∷ s) =
    let rest = from_first p s in if has_prefix (c ∷ s) p then some (c ∷ s) else rest

abbrev pub or_text : Bytes → Option Bytes → Bytes
or_text text none = text
or_text text (some s) = s

-- The reason that `strings.Cut` by ": " leaves.
abbrev pub reason_or : Bytes → Option Bytes → Bytes
reason_or text none = text
reason_or text (some s) = drop 2 s

unfoldable pub failure_detail : Err → Bytes
failure_detail do_err =
    if is_err do_err terminal_status
    then codes "terminal"
    else if is_err do_err rejected
    then reason_or (sentinel_text rejected) (from_first (codes ": ") (message do_err))
    else or_text (message do_err) (from_first (sentinel_text retries_exhausted) (message do_err))

-- `readBounded`: the bytes, whether they were cut, and the reader's error.
unfoldable pub read_bounded : Body → ℤ → Bytes × (Bool × Option Err)
read_bounded b max_buffer =
    if is_unlimited max_buffer
    then (b.unread, (false, b.failure))
    else if ltb (magnitude max_buffer) (length b.unread)
    then (take (magnitude max_buffer) b.unread, (true, none))
    else (b.unread, (false, b.failure))

-- What a call leaves on stderr, and what it does to the response that the engine gave it. A line
-- has the call's name; those of a failure say whether it is tolerated.
pub data Report : Type 0 where
  engine_event : Event → Report
  not_sent : Bytes → Bool → Err → Report
  succeeded : Bytes → ℕ → ℕ → Report
  capture_failed : Bytes → ℕ → ℕ → Bool → Err → Report
  transport_failed : Bytes → ℕ → Bool → Err → Report
  failed_unanswered : Bytes → Bytes → ℕ → Bool → Report
  failed_status : Bytes → ℕ → Bytes → ℕ → Bool → Report
  indented : Bytes → Report
  body_read_failed : Err → Report
  truncated_at : ℤ → Report
  captured_value : Bytes → Bytes → Report
  body_drained body_closed : Report

-- `drainDiscard`
unfoldable pub drain_discard : Option Response → List Report
drain_discard none = []
drain_discard (some r) = body_drained ∷ body_closed ∷ []

-- `isContextErr`
unfoldable pub is_context_err : Context → Err → Bool
is_context_err c e = is_some c && (is_err e (ctx canceled) || is_err e (ctx deadline_exceeded))

-- The line behind an echoed body.
unfoldable pub echo_end : ℤ → Bool × Option Err → List Report
echo_end max_buffer (truncated, some why) = body_read_failed why ∷ []
echo_end max_buffer (true, none) = truncated_at max_buffer ∷ []
echo_end max_buffer (false, none) = []

-- `echoBody`
unfoldable pub echo_body : Response → ℤ → List Report
echo_body r max_buffer =
    let (read, ending) = read_bounded r.body max_buffer in
    body_closed ∷ indented read ∷ echo_end max_buffer ending
