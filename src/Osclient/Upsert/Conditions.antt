-- ===== src/Osclient/Upsert/Conditions.antt =====
-- Which PUT an upsert sends.
use opensearch_api.Prelude.{
  Bool, Bool-cases, Bytes, List, Option, Result, [], arith, codes, err, false, format_int, inl, inr,
  ltb, none, ok, refl, some, ℤ, ◌==◌, ◌||◌, ◌∷◌, ◌≡◌, ◌≤◌, ◌⊎◌,
}
use opensearch_api.Errors.{Err}
use opensearch_api.Retry.Body.{Response, read_all}
use opensearch_api.Retry.Attempt.{Attempted, failed, failed_with, responded}
use opensearch_api.Osclient.Address.{RequestSpec}
use opensearch_api.Osclient.Upsert.{
  Server, UpsertEvent, Upserted, after_body, after_get, is_unchanged, put_if, put_sent, query_get,
  send_put, with_condition,
}

abbrev pub puts : List UpsertEvent → List RequestSpec
puts [] = []
puts (put_sent spec ∷ events) = spec ∷ puts events
puts (_ ∷ events) = puts events

-- A PUT that creates: the server said that there is nothing.
abbrev pub IsCreation : RequestSpec → Attempted → List RequestSpec → Type 0
IsCreation spec (responded r) sent = (r.status ≡ 404) × (sent ≡ spec ∷ [])
IsCreation spec _ sent = ⊥

-- The PUT is the wanted one, with the two numbers in its query.
abbrev pub IsConditional : RequestSpec → ℤ → ℤ → RequestSpec → Type 0
IsConditional spec seq_no primary_term put =
    (put.method ≡ spec.method)
    × (put.path ≡ spec.path)
    × (put.body ≡ spec.body)
    × (query_get (codes "if_seq_no") put.query ≡ some (format_int seq_no))
    × (query_get (codes "if_primary_term") put.query ≡ some (format_int primary_term))

with_condition-IsConditional :
    (spec : RequestSpec) (seq_no primary_term : ℤ)
    → IsConditional spec seq_no primary_term (with_condition spec seq_no primary_term)
unfolding with_condition query_get
with_condition-IsConditional spec seq_no primary_term = (refl, refl, refl, refl, refl)

-- A PUT on the numbers of the body of a 2xx answer, which is not as wanted.
abbrev pub IsUpdate :
    Server → RequestSpec → Option (Bytes → Bool) → Attempted → List RequestSpec → Type 0
IsUpdate server spec unchanged (responded r) sent =
    (200 ≤ r.status)
    × (r.status ≤ 299)
    × (body : Bytes) × (seq_no : ℤ) × (primary_term : ℤ) × (read_all r.body ≡ ok body)
    × (is_unchanged unchanged body ≡ false)
    × (server.decode_doc body ≡ ok (some seq_no, some primary_term))
    × ((put : RequestSpec) × (sent ≡ put ∷ []) × IsConditional spec seq_no primary_term put)
IsUpdate server spec unchanged _ sent = ⊥

abbrev pub IsGuarded : Server → RequestSpec → Option (Bytes → Bool) → Attempted → Upserted → Type 0
IsGuarded server spec unchanged reply out =
    (puts out.0 ≡ [])
    ⊎ (IsCreation spec reply (puts out.0) ⊎ IsUpdate server spec unchanged reply (puts out.0))

-- The PUT after a body, by the decoded numbers.
abbrev PutsIf : RequestSpec → Result Err (Option ℤ × Option ℤ) → List RequestSpec → Type 0
PutsIf spec decoded sent =
    (sent ≡ [])
    ⊎ ((seq_no : ℤ) × (primary_term : ℤ) × (decoded ≡ ok (some seq_no, some primary_term))
        × (sent ≡ with_condition spec seq_no primary_term ∷ []))

send_put-puts :
    (server : Server) (spec : RequestSpec) (failure : Option Err)
    → (puts (send_put server spec failure).0 ≡ [])
      ⊎ (puts (send_put server spec failure).0 ≡ spec ∷ [])
send_put-puts server spec none = inr refl
send_put-puts server spec (some e) = inl refl

put_if-PutsIf :
    (server : Server) (spec : RequestSpec) (decoded : Result Err (Option ℤ × Option ℤ))
    → PutsIf spec decoded (puts (put_if server spec decoded).0)
unfolding put_if
put_if-PutsIf server spec (err e) = inl refl
put_if-PutsIf server spec (ok (none, none)) = inl refl
put_if-PutsIf server spec (ok (none, some p)) = inl refl
put_if-PutsIf server spec (ok (some s, none)) = inl refl
put_if-PutsIf server spec (ok (some s, some p)) =
    elim (send_put-puts server (with_condition spec s p) (server.build (with_condition spec s p))) [
      | inl nothing ↦ inl nothing
      | inr one ↦ inr (s, p, refl, one)
    ]

after_body-IsGuarded :
    (server : Server) (spec : RequestSpec) (unchanged : Option (Bytes → Bool)) (r : Response)
    (read : Result Err Bytes)
    → 200 ≤ r.status
    → r.status ≤ 299
    → read_all r.body ≡ read
    → IsGuarded server spec unchanged (responded r) (after_body server spec unchanged r read)
unfolding after_body
after_body-IsGuarded server spec unchanged r (err e) low high h = inl refl
after_body-IsGuarded server spec unchanged r (ok body) low high h =
    elim (Bool-cases (is_unchanged unchanged body)) [
      | inl same ↦ rw same (inl refl)
      | inr new ↦ elim (put_if-PutsIf server spec (server.decode_doc body)) [
        | inl nothing ↦ rw new (inl nothing)
        | inr (s, p, decoded, one) ↦ rw new (
            inr (
              inr (
                low,
                high,
                body,
                s,
                p,
                h,
                new,
                decoded,
                (with_condition spec s p, one, with_condition-IsConditional spec s p),
              )))
      ]
    ]

-- An upsert sends at most one PUT, and only in two cases: as it was given if the GET answered 404;
-- and if it answered with a 2xx status and a body that was read as a whole, is not as wanted and has
-- both numbers, on the condition of just those numbers.
pub after_get-IsGuarded :
    (server : Server) (spec : RequestSpec) (unchanged : Option (Bytes → Bool)) (reply : Attempted)
    → IsGuarded server spec unchanged reply (after_get server spec unchanged reply)
unfolding after_get
after_get-IsGuarded server spec unchanged (failed e) = inl refl
after_get-IsGuarded server spec unchanged (failed_with r e) = inl refl
after_get-IsGuarded server spec unchanged (responded r) = elim (Bool-cases (r.status == 404)) [
  | inl missing ↦ rw missing (inr (inl (ground arith, refl)))
  | inr there ↦ elim (Bool-cases (ltb r.status 200 || ltb 299 r.status)) [
    | inl refused ↦ rw (there, refused) (inl refl)
    | inr good ↦
        rw (there, good)
          (after_body-IsGuarded server spec unchanged r (read_all r.body) (ground arith)
            (ground arith) refl)
  ]
]
