-- ===== src/Retry/Body.antt =====
-- Response bodies, and `bufferBody` of internal/retry/retry.go. A body is what a reader still gives:
-- some bytes, then its end or an error.
pub mod Laws
use opensearch_api.Prelude.{
  Bool, Bytes, Option, Result, [], drop, err, false, if◌then◌else◌, leb, length, ltb, max_int64,
  negsuc, none, ok, pos, some, suc, take, true, ℕ, ℤ, ◌++◌, ◌+◌, ◌==◌, ◌>>=◌, ◌>>◌, ◌||◌,
}
use opensearch_api.Errors.{Err}

pub record Body : Type 0 where
  pub unread : Bytes
  pub failure : Option Err

pub record Response : Type 0 where
  pub status : ℕ
  pub body : Body

-- `io.ReadAll`
unfoldable pub read_all : Body → Result Err Bytes
read_all b = elim b.failure [ none ↦ ok b.unread | some e ↦ err e ]

-- `io.LimitReader(b, k)`, read to its end: an error behind the first `k` bytes is not met. With it
-- goes what the reader below still gives.
unfoldable pub read_limited : ℕ → Body → Result Err (Bytes × Body)
read_limited k b =
    if leb k (length b.unread)
    then ok (take k b.unread, record b { unread = drop k b.unread })
    else elim b.failure [
      | none ↦ ok (b.unread, record { unread = []; failure = none })
      | some e ↦ err e
    ]

-- `io.MultiReader` of bytes in memory and a body.
unfoldable pub stitch : Bytes → Body → Body
stitch read rest = record rest { unread = read ++ rest.unread }

pub record Buffered : Type 0 where
  pub buf : Bytes
  pub overflowed : Bool
  pub body : Body

-- `maxBuffer <= 0 || maxBuffer == math.MaxInt64`
unfoldable pub is_unlimited : ℤ → Bool
is_unlimited (pos n) = (n == 0) || (n == max_int64)
is_unlimited (negsuc n) = true

abbrev pub magnitude : ℤ → ℕ
magnitude (pos n) = n
magnitude (negsuc n) = suc n

-- The buffer is nil when it overflowed.
keep_buffer : ℕ → Bytes × Body → Buffered
keep_buffer max_buffer (read, rest) =
    let overflowed = ltb max_buffer (length read) in
    record {
      buf = if overflowed then [] else read;
      overflowed = overflowed;
      body = stitch read rest;
    }

keep_all : Bytes → Buffered
keep_all read = record {
  buf = read;
  overflowed = false;
  body = stitch read (record { unread = []; failure = none });
}

unfoldable pub buffer_body : Body → ℤ → Result Err Buffered
unfolding keep_buffer keep_all
buffer_body b max_buffer =
    if is_unlimited max_buffer then (do read ← read_all b; ok (keep_all read)) else (do
      read ← read_limited (magnitude max_buffer + 1) b
      ok (keep_buffer (magnitude max_buffer) read))
