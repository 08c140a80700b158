-- ===== src/Osclient/Header.antt =====
-- Header maps as the program uses them through net/http and net/textproto: the canonical spelling of
-- a name, and reading, `Set` and `Add` under it. Used by internal/runbook/runbook.go (mergeHeaders,
-- headerOverridden) and internal/cli/request.go (parseHeaders).
use opensearch_api.Prelude.{
  Bool, Bytes, List, Option, [], all, arith, bytes_eq, bytes_eq_iff, codes, false, if◌then◌else◌,
  is_digit, is_one_of, leb, none, some, true, ℕ, ◌&&◌, ◌++◌, ◌+◌, ◌-◌, ◌==◌, ◌||◌, ◌∷◌, ◌≡◌,
}
use opensearch_api.Osclient.Address.{Headers, delete_header}

-- The bytes of an RFC 7230 token, which are those of a header's name and of a method.
abbrev pub is_token_byte : ℕ → Bool
is_token_byte c =
    is_digit c
    || (leb b'a' c && leb c b'z')
    || (leb b'A' c && leb c b'Z')
    || is_one_of (codes "!#$%&'*+-.^_`|~") c

abbrev pub capital_if : Bool → ℕ → ℕ
capital_if true c = if leb b'a' c && leb c b'z' then c - 32 else c
capital_if false c = if leb b'A' c && leb c b'Z' then c + 32 else c

-- A capital at the start and behind each `-`, small letters elsewhere.
unfoldable pub canonical_from : Bool → Bytes → Bytes
canonical_from first [] = []
canonical_from first (c ∷ s) = capital_if first c ∷ canonical_from (c == b'-') s

-- `textproto.CanonicalMIMEHeaderKey`: a name with any other byte stays as it is.
unfoldable pub canonical_key : Bytes → Bytes
canonical_key key = if all is_token_byte key then canonical_from true key else key

unfoldable pub header_get : Bytes → Headers → Option (List Bytes)
header_get key [] = none
header_get key ((name, values) ∷ rest) =
    let found = header_get key rest in if bytes_eq name key then some values else found

-- `http.Header.Set`
unfoldable pub header_set : Bytes → Bytes → Headers → Headers
header_set key value headers =
    (canonical_key key, value ∷ []) ∷ delete_header (canonical_key key) headers

abbrev pub values_of : Option (List Bytes) → List Bytes
values_of none = []
values_of (some values) = values

-- `http.Header.Add`
unfoldable pub header_add : Bytes → Bytes → Headers → Headers
header_add key value headers =
    (canonical_key key, values_of (header_get (canonical_key key) headers) ++ (value ∷ []))
    ∷ delete_header (canonical_key key) headers

pub header_get-delete_header :
    (key name : Bytes) (headers : Headers)
    → header_get key (delete_header name headers)
      ≡ (if bytes_eq name key then none else header_get key headers)
unfolding header_get delete_header
header_get-delete_header key name [] = ground arith
header_get-delete_header key name ((other, values) ∷ rest) = ground (
  arith,
  header_get-delete_header key name rest,
  bytes_eq_iff other key,
  bytes_eq_iff name key,
  bytes_eq_iff other name,
)

pub header_get-header_set :
    (key name value : Bytes) (headers : Headers)
    → header_get key (header_set name value headers)
      ≡ (if bytes_eq (canonical_key name) key then some (value ∷ []) else header_get key headers)
unfolding header_set header_get
header_get-header_set key name value headers =
    ground (arith, header_get-delete_header key (canonical_key name) headers)

pub header_get-header_add :
    (key name value : Bytes) (headers : Headers)
    → header_get key (header_add name value headers) ≡ (
        if bytes_eq (canonical_key name) key
        then some (values_of (header_get key headers) ++ (value ∷ []))
        else header_get key headers)
unfolding header_add header_get
header_get-header_add key name value headers = ground (
  arith,
  header_get-delete_header key (canonical_key name) headers,
  bytes_eq_iff (canonical_key name) key,
)
