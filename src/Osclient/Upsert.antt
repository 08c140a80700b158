-- ===== src/Osclient/Upsert.antt =====
-- internal/osclient/upsert.go, Upsert: a GET, then a PUT on the condition of what the GET gave. What
-- the client and the server answer is an argument, and so are BuildRequest's error and the decoding
-- of the GET body, which gives the two numbers if they are there.
pub mod Conditions
use opensearch_api.Prelude.{
  Bool, Bytes, List, Option, Result, [], bytes_eq, codes, err, false, format_int, if◌then◌else◌,
  ltb, none, ok, some, ℤ, ◌++◌, ◌==◌, ◌||◌, ◌∷◌,
}
use opensearch_api.Errors.{Err, join, other, wrap}
use opensearch_api.Retry.Body.{Response, read_all}
use opensearch_api.Retry.Attempt.{Attempted, failed, failed_with, responded}
use opensearch_api.Osclient.Address.{RequestSpec}

pub record Server : Type 0 where
  pub build : RequestSpec → Option Err
  pub get_reply : Attempted
  pub put_reply : RequestSpec → Attempted
  pub decode_doc : Bytes → Result Err (Option ℤ × Option ℤ)

pub data UpsertEvent : Type 0 where
  get_drained get_closed : UpsertEvent
  put_sent : RequestSpec → UpsertEvent

abbrev pub Upserted : Type 0
Upserted = List UpsertEvent × Attempted

abbrev pub Query : Type 0
Query = List (Bytes × Bytes)

unfoldable pub query_get : Bytes → Query → Option Bytes
query_get key [] = none
query_get key ((name, value) ∷ rest) =
    let found = query_get key rest in if bytes_eq name key then some value else found

-- A map that is set at a key: its pair goes before the others.
abbrev pub query_set : Bytes → Bytes → Query → Query
query_set key value query = (key, value) ∷ query

unfoldable pub with_condition : RequestSpec → ℤ → ℤ → RequestSpec
with_condition spec seq_no primary_term = record spec {
  query =
      query_set (codes "if_primary_term") (format_int primary_term)
        (query_set (codes "if_seq_no") (format_int seq_no) spec.query);
}

abbrev pub no_seq_no : Err
no_seq_no = other (codes "response has no integer _seq_no/_primary_term")

abbrev pub get_text : RequestSpec → Bytes
get_text spec = codes ": GET " ++ spec.path

abbrev pub send_put : Server → RequestSpec → Option Err → Upserted
send_put server spec (some e) = ([], failed e)
send_put server spec none = (put_sent spec ∷ [], server.put_reply spec)

-- The PUT on the two numbers.
unfoldable pub put_if : Server → RequestSpec → Result Err (Option ℤ × Option ℤ) → Upserted
put_if server spec (err e) = ([], failed (join [] no_seq_no (get_text spec ++ codes ": ") e))
put_if server spec (ok (some seq_no, some primary_term)) =
    let cond = with_condition spec seq_no primary_term in send_put server cond (server.build cond)
put_if server spec (ok (_, _)) = ([], failed (wrap [] no_seq_no (get_text spec)))

abbrev pub event_then : UpsertEvent → Upserted → Upserted
event_then event (events, out) = (event ∷ events, out)

-- `unchanged != nil && unchanged(body)`
abbrev pub is_unchanged : Option (Bytes → Bool) → Bytes → Bool
is_unchanged none body = false
is_unchanged (some test) body = test body

-- What follows a GET with a 2xx status, when its body was read.
unfoldable pub after_body :
    Server → RequestSpec → Option (Bytes → Bool) → Response → Result Err Bytes → Upserted
after_body server spec unchanged r (err e) = ([], failed (wrap (codes "reading GET body: ") e []))
after_body server spec unchanged r (ok body) =
    if is_unchanged unchanged body
    then ([], responded (record r { body = record { unread = body; failure = none } }))
    else put_if server spec (server.decode_doc body)

-- What follows the GET.
unfoldable pub after_get : Server → RequestSpec → Option (Bytes → Bool) → Attempted → Upserted
after_get server spec unchanged (failed e) = ([], failed e)
after_get server spec unchanged (failed_with r e) = ([], failed e)
after_get server spec unchanged (responded r) =
    if r.status == 404
    then (get_drained ∷ get_closed ∷ put_sent spec ∷ [], server.put_reply spec)
    else if ltb r.status 200 || ltb 299 r.status
    then ([], responded r)
    else event_then get_closed (after_body server spec unchanged r (read_all r.body))

abbrev pub get_spec : RequestSpec → RequestSpec
get_spec spec = record spec { method = codes "GET"; has_body = false; body = [] }

abbrev pub unless_built :
    Option Err → Result Err (Unit {0} → Upserted) → Result Err (Unit {0} → Upserted)
unless_built (some e) rest = err e
unless_built none rest = rest

-- `Upsert`: both requests are built before there is an attempt.
unfoldable pub upsert :
    Server → RequestSpec → Option (Bytes → Bool) → Result Err (Unit {0} → Upserted)
upsert server spec unchanged =
    unless_built (server.build (get_spec spec)) (
      unless_built (server.build spec) (ok (λ _. after_get server spec unchanged server.get_reply)))
