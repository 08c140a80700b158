-- ===== src/Retry/Tests.antt =====
-- The retry engine on concrete inputs: a fixed-point stand-in for floating point, an engine with two
-- retries, and rounds of a server that is busy before it answers.
use opensearch_api.Retry.Body.Laws.{IsFaithful, buffer_body-IsFaithful}
use opensearch_api.Prelude.{
  All, Bytes, List, Option, [], arith, bytes_eq, codes, err, false, if◌then◌else◌, leb, ltb, none,
  ok, pos, refl, some, true, ℕ, ◌*◌, ◌+◌, ◌-◌, ◌/◌, ◌↔◌, ◌∷◌, ◌≡◌, ◌≤◌,
}
use opensearch_api.Errors.{Err, other}
use opensearch_api.Json.{null}
use opensearch_api.Config.Types.{RetryConfig}
use opensearch_api.Config.Strategy.{exponential}
use opensearch_api.Retry.Predicate.{
  Predicate, emitted, failed, first_truthy, is_truthy, match_predicate,
}
use opensearch_api.Retry.Body.{
  Body, Buffered, Response, buffer_body, is_unlimited, magnitude, read_all, read_limited, stitch,
}
use opensearch_api.Retry.Backoff.{
  FloatOps, at_least_one, backoff, base_delay, clamp_max, clamp_unit, double_from, exp_delay,
  jittered, linear_delay, not_negative,
}
use opensearch_api.Retry.Classify.{
  Engine, PredicateContexts, by_status, classify, contains_status, context_error, decode_body,
  has_predicates, is_2xx, matches,
}
use opensearch_api.Retry.Classify.Status.{IsRefused, IsTerminal, IsTerminal-iff}
use opensearch_api.Retry.Classify.Success.{IsSuccess}
use opensearch_api.Retry.Engine.{
  act, announce, back_off, context_of, decide, do_attempts, give_up, is_spent, judge, on_context,
  proceed, retry_info, returned, run_from, turn,
}
use opensearch_api.Retry.Attempt.{
  Attempted, Round, close_attempt, drain_status, failed, receive, receive_response, responded,
}
use opensearch_api.Retry.Engine.Trace.{count_attempts, tally}
use opensearch_api.Retry.Engine.Budget.{do_attempts_total}
use opensearch_api.Retry.Engine.Bodies.{do_attempts_bodies, is_close, is_open, kept}
use opensearch_api.Retry.Engine.Delays.{IsCapped, do_attempts-Capped}
use opensearch_api.Retry.Engine.Results.{EndingIsConsistent, do_attempts-IsConsistent}

-- Thousandths; no negative duration is met here.
abbrev thousandths : FloatOps
thousandths = record {
  lt = ltb;
  le = leb;
  add = λ a b. a + b;
  sub = λ a b. a - b;
  mul = λ a b. a * b / 1000;
  zero_f = 0;
  one_f = 1000;
  two_f = 2000;
  max_jitter_fraction = 999;
  of_int = λ d. magnitude d * 1000;
  to_int = λ v. pos (v / 1000);
}

abbrev two_retries : RetryConfig
two_retries = record {
  max_retries = pos 2;
  strategy = exponential;
  initial = pos 400;
  max = pos 500;
  jitter = 200;
  abort_on = pos 401 ∷ [];
  retry_on = pos 503 ∷ [];
  retry_when = codes ".busy";
  success_when = [];
  max_body_buffer = pos 4;
}

-- A predicate that every document matches but `null`.
abbrev busy : Predicate
busy = record { expr = codes ".busy"; code = λ c input. emitted input ∷ [] }

abbrev engine : Engine
engine = record {
  cfg = two_retries;
  retry_when = some busy;
  success_when = none;
  has_hook = true;
  unmarshal = λ body. if bytes_eq body (codes "null") then ok null else err (other (codes "bad"));
}

abbrev answer : ℕ → Bytes → Response
answer status body = record { status = status; body = record { unread = body; failure = none } }

abbrev live : PredicateContexts
live = record { at_retry_when = none; at_success_when = none }

abbrev round_of : Attempted → Round
round_of result = record {
  attempted = result;
  ctx_at_error = none;
  ctx_at_predicates = live;
  ctx_before_retry = none;
  jitter_sample = some 900;
  slept = none;
}

abbrev rounds : List Round
rounds =
    round_of (responded (answer 503 (codes "try later")))
    ∷ round_of (failed (other (codes "refused")))
    ∷ round_of (responded (answer 200 (codes "null")))
    ∷ []

third_answers :
    (do_attempts thousandths engine rounds).1 ≡ returned 3 (some (answer 200 (codes "null"))) none
unfolding do_attempts run_from proceed turn on_context context_of judge decide act back_off announce
    retry_info close_attempt drain_status receive receive_response buffer_body is_unlimited read_all
    read_limited stitch backoff base_delay exp_delay linear_delay double_from clamp_max at_least_one
    jittered clamp_unit not_negative is_spent classify has_predicates contains_status is_2xx
    decode_body matches match_predicate first_truthy is_truthy by_status context_error give_up
third_answers = refl

do_attempts-IsConsistent_example :
    EndingIsConsistent engine (do_attempts thousandths engine rounds).1
do_attempts-IsConsistent_example = do_attempts-IsConsistent thousandths engine rounds

do_attempts_total_example :
    (m : ℕ) × (response : Option Response) × (error : Option Err) × ((do_attempts thousandths engine
        rounds).1
      ≡ returned m response error)
    × (count_attempts (do_attempts thousandths engine rounds).0 ≡ m)
    × (m ≤ 3)
do_attempts_total_example = do_attempts_total thousandths engine 2 rounds refl (omega arith)

do_attempts_bodies_example :
    (tally (is_close 1) (do_attempts thousandths engine rounds).0
        + kept 1 (do_attempts thousandths engine rounds).1
      ≡ tally (is_open 1) (do_attempts thousandths engine rounds).0)
    × (tally (is_open 1) (do_attempts thousandths engine rounds).0 ≤ 1)
do_attempts_bodies_example = do_attempts_bodies thousandths engine 1 rounds

do_attempts-Capped_example : All (IsCapped (pos 500)) (do_attempts thousandths engine rounds).0
do_attempts-Capped_example = do_attempts-Capped thousandths engine refl rounds

IsTerminal-iff_example :
    IsTerminal (classify engine live 404 (codes "null") false none).1 ↔ IsRefused two_retries 404
IsTerminal-iff_example = IsTerminal-iff engine live 404 (codes "null") false

succeeds : IsSuccess (classify engine live 200 (codes "null") false none).1
unfolding classify decode_body matches match_predicate first_truthy is_truthy by_status is_2xx
    contains_status has_predicates
succeeds = tt

abbrev long_body : Body
long_body = record { unread = codes "abcdef"; failure = none }

abbrev long_buffered : Buffered
long_buffered = record { buf = []; overflowed = true; body = long_body }

buffers : buffer_body long_body (pos 4) ≡ ok long_buffered
unfolding buffer_body is_unlimited read_limited stitch
buffers = refl

buffer_body-IsFaithful_example : IsFaithful long_body (pos 4) long_buffered
buffer_body-IsFaithful_example = buffer_body-IsFaithful long_body (pos 4) long_buffered buffers
