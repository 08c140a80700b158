-- ===== src/Osclient/Address.antt =====
-- internal/osclient/request.go: stripUserinfo, the address that BuildRequest joins, the headers that
-- it sets, and ReadBody. A header map is a list of pairs under canonical names; stdin and the files
-- are arguments.
pub mod Userinfo
use opensearch_api.Prelude.{
  Bool, Bytes, List, Option, Result, [], bytes_eq, codes, cut_at, drop, err, false, has_prefix,
  if◌then◌else◌, is_empty, is_one_of, none, ok, quoted, some, true, ◌&&◌, ◌++◌, ◌-◌, ◌/◌, ◌==◌, ◌∷◌,
}
use opensearch_api.Errors.{Err, other, wrap}

-- `strings.Index(raw, "://")`: what stands up to its end, and behind it.
unfoldable pub cut_scheme : Bytes → Option (Bytes × Bytes)
cut_scheme [] = none
cut_scheme (c ∷ s) =
    let rest = cut_scheme s in
    if has_prefix (c ∷ s) (codes "://")
    then some (codes "://", drop 3 (c ∷ s))
    else elim rest [ none ↦ none | some (before, after) ↦ some (c ∷ before, after) ]

-- The part up to the first byte of a set, and the rest from it on.
unfoldable pub span_until : Bytes → Bytes → Bytes × Bytes
span_until set [] = ([], [])
span_until set (c ∷ s) =
    let (before, after) = span_until set s in
    if is_one_of set c then ([], c ∷ s) else (c ∷ before, after)

-- The end of the authority.
abbrev pub authority_ends : Bytes
authority_ends = codes "/?#"

-- What is left of a text when its authority was cut at an `@`.
abbrev pub behind_userinfo : Bytes → Bytes → Option (Bytes × Bytes) → Bytes
behind_userinfo rest after none = rest
behind_userinfo rest after (some (userinfo, host)) = host ++ after

-- An `@` that stands behind the authority's end is not in it.
unfoldable pub drop_userinfo : Bytes → Bytes
drop_userinfo rest =
    behind_userinfo rest (span_until authority_ends rest).1
      (cut_at b'@' (span_until authority_ends rest).0)

unfoldable pub strip_userinfo : Bytes → Bytes
strip_userinfo raw = elim (cut_scheme raw) [
  | none ↦ raw
  | some (before, rest) ↦ before ++ drop_userinfo rest
]

unfoldable pub trim_left_slashes : Bytes → Bytes
trim_left_slashes [] = []
trim_left_slashes (c ∷ s) = let rest = trim_left_slashes s in if c == b'/' then rest else c ∷ s

unfoldable pub trim_right_slashes : Bytes → Bytes
trim_right_slashes [] = []
trim_right_slashes (c ∷ s) =
    let rest = trim_right_slashes s in if is_empty rest && (c == b'/') then [] else c ∷ rest

-- The text that BuildRequest parses as the request's URL.
unfoldable pub request_url : Bytes → Bytes → Bytes
request_url endpoint path =
    trim_right_slashes (strip_userinfo endpoint) ++ codes "/" ++ trim_left_slashes path

abbrev pub Headers : Type 0
Headers = List (Bytes × List Bytes)

-- Maps are lists of pairs.
pub record RequestSpec : Type 0 where
  pub method : Bytes
  pub path : Bytes
  pub has_body : Bool
  pub query : List (Bytes × Bytes)
  pub headers : Headers
  pub body : Bytes

unfoldable pub delete_header : Bytes → Headers → Headers
delete_header key [] = []
delete_header key ((name, values) ∷ rest) =
    let others = delete_header key rest in
    if bytes_eq name key then others else (name, values) ∷ others

-- The loop of BuildRequest over the caller's headers: `Del`, then an `Add` for each value.
unfoldable pub override_headers : Headers → Headers → Headers
override_headers [] headers = headers
override_headers ((key, values) ∷ own) headers =
    override_headers own ((key, values) ∷ delete_header key headers)

unfoldable pub request_headers : Bool → Headers → Headers
request_headers has_body own =
    override_headers own
      (if has_body then (codes "Content-Type", codes "application/json" ∷ []) ∷ [] else [])

abbrev pub no_stdin : Err
no_stdin = other (codes "stdin reader is nil")

abbrev pub read_with : Bytes → Result Err Bytes → Result Err (Bytes × Bool)
read_with prefix (ok body) = ok (body, true)
read_with prefix (err e) = err (wrap prefix e [])

-- `ReadBody`
unfoldable pub read_body :
    Option (Result Err Bytes) → (Bytes → Result Err Bytes) → Bytes → Result Err (Bytes × Bool)
read_body stdin read_file arg =
    if is_empty arg
    then ok ([], false)
    else if bytes_eq arg (codes "@-")
    then elim stdin [
      | none ↦ err no_stdin
      | some input ↦ read_with (codes "reading body from stdin: ") input
    ]
    else if has_prefix arg (codes "@")
    then read_with (codes "reading body file " ++ quoted (drop 1 arg) ++ codes ": ")
        (read_file (drop 1 arg))
    else ok (arg, true)
