-- ===== src/Cli/Exit.antt =====
-- How a command's error becomes an exit code: timeoutError of internal/cli/run.go, copyBody of
-- request.go, and exitCode of cmd/osapi/main.go. The print of a duration is an argument.
use opensearch_api.Prelude.{
  Bool, Bytes, Option, [], arith, codes, false, if◌then◌else◌, none, some, true, ℕ, ◌&&◌, ◌++◌, ◌↔◌,
  ◌≡◌, ◌⊎◌,
}
use opensearch_api.Errors.{
  Err, canceled, ctx, ctx_eq, deadline_exceeded, is_err, sentinel, timed_out, wrap,
}
use opensearch_api.Config.Types.{Duration}
use opensearch_api.Retry.Predicate.{Context}

abbrev pub is_deadline : Context → Bool
is_deadline none = false
is_deadline (some c) = ctx_eq c deadline_exceeded

unfoldable pub timeout_error : (Duration → Bytes) → Context → Duration → Option Err → Option Err
timeout_error print c timeout none = none
timeout_error print c timeout (some e) =
    if is_deadline c && is_err e (ctx deadline_exceeded)
    then some (wrap [] (sentinel timed_out) (codes " after " ++ print timeout))
    else some e

-- The error of a copy, which shows only where the engine had none.
abbrev pub with_copy_error : Option Err → Option Err → Option Err
with_copy_error none none = none
with_copy_error none (some copy_err) = some (wrap (codes "writing response body: ") copy_err [])
with_copy_error (some e) copied = some e

-- `copyBody`: `copied` is the error of the copy, where there was a response.
unfoldable pub copy_body :
    (Duration → Bytes) → Context → Duration → Bool → Option Err → Option Err → Option Err
copy_body print c timeout has_response copied do_err =
    timeout_error print c timeout (if has_response then with_copy_error do_err copied else do_err)

unfoldable pub exit_code : Option Err → ℕ
exit_code none = 0
exit_code (some e) = if is_err e timed_out then 124 else if is_err e (ctx canceled) then 130 else 1

-- Whatever the engine and the copy return, the exit code of a request is 0 exactly when there is no
-- error of the engine and none of the copy.
pub exit_code-copy_body :
    (print : Duration → Bytes) (c : Context) (timeout : Duration) (has_response : Bool)
    (copied do_err : Option Err)
    → (exit_code (copy_body print c timeout has_response copied do_err) ≡ 0)
      ↔ ((do_err ≡ none) × ((has_response ≡ false) ⊎ (copied ≡ none)))
unfolding exit_code copy_body timeout_error
exit_code-copy_body print c timeout has_response copied do_err = ground arith

-- A command whose error does not speak of a timeout itself exits with 124 exactly when its own
-- deadline has passed and the error is a deadline's: a deadline error from below is a plain failure.
pub exit_code-timeout_error :
    (print : Duration → Bytes) (c : Context) (timeout : Duration) (e : Err)
    → is_err e timed_out ≡ false
    → (exit_code (timeout_error print c timeout (some e)) ≡ 124)
      ↔ ((is_deadline c ≡ true) × (is_err e (ctx deadline_exceeded) ≡ true))
unfolding exit_code timeout_error
exit_code-timeout_error print c timeout e fresh = ground (arith, fresh)
