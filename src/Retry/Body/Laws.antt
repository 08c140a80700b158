-- ===== src/Retry/Body/Laws.antt =====
-- Buffering a body does not change what its reader gets.
use opensearch_api.Prelude.{
  >>=-eq-ok, Bool-cases, Bytes, append-nil, append_whole, arith, false, inl, inr, length,
  length-take, ltb, min, none, not, ok, ok-injective, refl, subst, sym, take-append-drop, true, ℕ,
  ℤ, ◌&&◌, ◌++◌, ◌+◌, ◌∙◌, ◌≡◌,
}
use opensearch_api.Retry.Body.{
  Body, Buffered, buffer_body, is_unlimited, keep_all, keep_buffer, magnitude, read_all,
  read_limited, stitch,
}

-- What bufferBody promises of its result.
pub record IsFaithful (b : Body) (max_buffer : ℤ) (out : Buffered) : Type 0 where
  pub same_bytes : out.body.unread ≡ b.unread
  pub same_end : out.body.failure ≡ b.failure
  pub whole : out.overflowed ≡ false → out.buf ≡ b.unread
  pub overflow :
      out.overflowed
      ≡ (not (is_unlimited max_buffer) && ltb (magnitude max_buffer) (length b.unread))

read_all_lem :
    (b : Body) (read : Bytes) → read_all b ≡ ok read → (read ≡ b.unread) × (b.failure ≡ none)
unfolding read_all
read_all_lem b read h = ground arith

read_limited_lem :
    (k : ℕ) (b : Body) (read : Bytes) (rest : Body)
    → read_limited k b ≡ ok (read, rest)
    → (read ++ rest.unread ≡ b.unread)
      × (rest.failure ≡ b.failure)
      × (length read ≡ min k (length b.unread))
unfolding read_limited
read_limited_lem k b read rest h =
    ground (arith, take-append-drop k b.unread, append-nil b.unread, length-take k b.unread)

limited_lem :
    (max_buffer : ℤ) (b : Body) (read : Bytes) (rest : Body)
    → is_unlimited max_buffer ≡ false
    → read_limited (magnitude max_buffer + 1) b ≡ ok (read, rest)
    → IsFaithful b max_buffer (keep_buffer (magnitude max_buffer) (read, rest))
unfolding keep_buffer stitch
limited_lem max_buffer b read rest capped h =
    let (same, end, len) = read_limited_lem (magnitude max_buffer + 1) b read rest h in
    record {
      same_bytes = same;
      same_end = end;
      whole = λ fits. ground (arith, append_whole read rest.unread b.unread same);
      overflow = rw capped (ground arith);
    }

unlimited_lem :
    (max_buffer : ℤ) (b : Body) (read : Bytes)
    → is_unlimited max_buffer ≡ true
    → read_all b ≡ ok read
    → IsFaithful b max_buffer (keep_all read)
unfolding keep_all stitch
unlimited_lem max_buffer b read free h =
    let (same, end) = read_all_lem b read h in
    record {
      same_bytes = append-nil read ∙ same;
      same_end = sym end;
      whole = λ _. same;
      overflow = rw free refl;
    }

-- Whatever the cap, the body that bufferBody puts in place gives the same bytes and the same end as
-- the body that it read from; the buffer is the whole body unless it overflowed, and it overflows
-- exactly when there is a cap and the body is longer.
pub buffer_body-IsFaithful :
    (b : Body) (max_buffer : ℤ) (out : Buffered)
    → buffer_body b max_buffer ≡ ok out
    → IsFaithful b max_buffer out
unfolding buffer_body
buffer_body-IsFaithful b max_buffer out h = elim (Bool-cases (is_unlimited max_buffer)) [
  | inl free ↦
      let (read, got, e) = >>=-eq-ok (read_all b) _ (rw free at h) in
      subst (IsFaithful b max_buffer) (ok-injective e) (unlimited_lem max_buffer b read free got)
  | inr capped ↦
      let (got, h1, e) = >>=-eq-ok (read_limited (magnitude max_buffer + 1) b) _ (rw capped at h) in
      subst (IsFaithful b max_buffer) (ok-injective e)
        (limited_lem max_buffer b got.0 got.1 capped h1)
]
