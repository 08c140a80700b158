-- ===== src/Errors.antt =====
-- Go error values: the sentinels that the program tests for by `errors.Is`, errors of other code,
-- and the wrapping by `fmt.Errorf` with one or two `%w`. Used by every package.
use opensearch_api.Prelude.{Bool, Bytes, codes, false, true, ◌++◌, ◌||◌}

-- What `ctx.Err()` returns when it is not nil: context.Canceled or context.DeadlineExceeded.
pub data CtxErr : Type 0 where
  canceled deadline_exceeded : CtxErr

-- `ctx` is context.Canceled and context.DeadlineExceeded; the next three are of internal/retry,
-- and `timed_out` is of internal/cli.
pub data Sentinel : Type 0 where
  ctx : CtxErr → Sentinel
  terminal_status retries_exhausted rejected timed_out : Sentinel

-- `wrap before e after` prints `before`, the message of `e` and `after`; `join` wraps two errors.
pub data Err : Type 0 where
  sentinel : Sentinel → Err
  other : Bytes → Err
  wrap : Bytes → Err → Bytes → Err
  join : Bytes → Err → Bytes → Err → Err

abbrev pub ctx_eq : CtxErr → CtxErr → Bool
ctx_eq canceled canceled = true
ctx_eq canceled deadline_exceeded = false
ctx_eq deadline_exceeded canceled = false
ctx_eq deadline_exceeded deadline_exceeded = true

abbrev pub sentinel_eq : Sentinel → Sentinel → Bool
sentinel_eq (ctx c) (ctx d) = ctx_eq c d
sentinel_eq terminal_status terminal_status = true
sentinel_eq retries_exhausted retries_exhausted = true
sentinel_eq rejected rejected = true
sentinel_eq timed_out timed_out = true
sentinel_eq _ _ = false

-- `errors.Is(err, target)`
abbrev pub is_err : Err → Sentinel → Bool
is_err (sentinel s) t = sentinel_eq s t
is_err (other text) t = false
is_err (wrap before e after) t = is_err e t
is_err (join before e between f) t = is_err e t || is_err f t

unfoldable pub sentinel_text : Sentinel → Bytes
sentinel_text (ctx canceled) = codes "context canceled"
sentinel_text (ctx deadline_exceeded) = codes "context deadline exceeded"
sentinel_text terminal_status = codes "terminal status"
sentinel_text retries_exhausted = codes "retries exhausted"
sentinel_text rejected = codes "rejected"
sentinel_text timed_out = codes "timed out"

-- `err.Error()`
unfoldable pub message : Err → Bytes
message (sentinel s) = sentinel_text s
message (other text) = text
message (wrap before e after) = before ++ message e ++ after
message (join before e between f) = before ++ message e ++ between ++ message f

abbrev pub ctx_error : CtxErr → Err
ctx_error c = sentinel (ctx c)
