-- ===== src/Cli/Flags.antt =====
-- internal/cli/request.go, parseHeaders: the `--header` flags of a request.
use opensearch_api.Prelude.{
  >>=-eq-ok, Bool, Bool-cases, Bytes, List, Option, Result, [], ap, append-nil, append_assoc,
  bytes_eq, cut_at, from_option, from_option-eq-ok, if◌then◌else◌, inl, inr, is_one_of, leb, none,
  ok, ok-injective, refl, some, sym, ℕ, ◌&&◌, ◌++◌, ◌==◌, ◌>>=◌, ◌||◌, ◌∙◌, ◌∷◌, ◌≡◌,
}
use mathlib.Core.List.{reverse}
use opensearch_api.Osclient.Address.{Headers}
use opensearch_api.Osclient.Header.{
  canonical_key, header_add, header_get, header_get-header_add, values_of,
}
use opensearch_api.Cli.Resolve.{CliError, bad_header}

-- The white space of one, two and three bytes.
abbrev pub is_space : ℕ → Bool
is_space c = (leb 9 c && leb c 13) || (c == b' ')

abbrev pub is_space_two : ℕ → ℕ → Bool
is_space_two c d = (c == 0xc2) && ((d == 0x85) || (d == 0xa0))

abbrev pub is_space_three : ℕ → ℕ → ℕ → Bool
is_space_three c d e =
    ((c == 0xe1) && ((d == 0x9a) && (e == 0x80)))
    || (((c == 0xe2)
          && ((d == 0x80) && (leb 0x80 e && leb e 0x8a || is_one_of (0xa8 ∷ 0xa9 ∷ 0xaf ∷ []) e)))
        || (((c == 0xe2) && ((d == 0x81) && (e == 0x9f)))
            || ((c == 0xe3) && ((d == 0x80) && (e == 0x80)))))

-- A text without the white space at its start.
unfoldable pub trim_start : (ℕ → ℕ → Bool) → (ℕ → ℕ → ℕ → Bool) → Bytes → Bytes
trim_start two three [] = []
trim_start two three (c ∷ []) = if is_space c then [] else c ∷ []
trim_start two three (c ∷ d ∷ []) =
    let behind = trim_start two three (d ∷ []) in
    if is_space c then behind else if two c d then [] else c ∷ d ∷ []
trim_start two three (c ∷ d ∷ e ∷ s) =
    let behind = trim_start two three (d ∷ e ∷ s) in
    let behind_two = trim_start two three (e ∷ s) in
    let behind_three = trim_start two three s in
    if is_space c
    then behind
    else if two c d
    then behind_two
    else if three c d e
    then behind_three
    else c ∷ d ∷ e ∷ s

-- `strings.TrimSpace`: the end is the start of the text read backwards.
unfoldable pub trim_space : Bytes → Bytes
trim_space s = reverse (
    trim_start (λ c d. is_space_two d c) (λ c d e. is_space_three e d c)
      (reverse (trim_start is_space_two is_space_three s)))

-- `strings.TrimPrefix(v, " ")`
unfoldable pub trim_one_space : Bytes → Bytes
trim_one_space [] = []
trim_one_space (c ∷ s) = if c == b' ' then s else c ∷ s

-- The loop of parseHeaders.
unfoldable pub parse_headers_from : Headers → List Bytes → Result CliError Headers
parse_headers_from headers [] = ok headers
parse_headers_from headers (p ∷ pairs) = from_option (bad_header p) (cut_at b':' p) >>= λ pair.
    parse_headers_from (header_add (trim_space pair.0) (trim_one_space pair.1) headers) pairs

unfoldable pub parse_headers : List Bytes → Result CliError Headers
parse_headers pairs = parse_headers_from [] pairs

-- What one flag gives to a header.
abbrev pub value_for : Bytes → Option (Bytes × Bytes) → List Bytes
value_for key none = []
value_for key (some (name, value)) =
    if bytes_eq (canonical_key (trim_space name)) key then trim_one_space value ∷ [] else []

-- What the flags give to a header, in their order.
abbrev pub values_for : Bytes → List Bytes → List Bytes
values_for key [] = []
values_for key (p ∷ pairs) = value_for key (cut_at b':' p) ++ values_for key pairs

values-header_add :
    (key name value : Bytes) (headers : Headers)
    → values_of (header_get key (header_add name value headers))
      ≡ values_of (header_get key headers)
        ++ (if bytes_eq (canonical_key name) key then value ∷ [] else [])
values-header_add key name value headers = elim (Bool-cases (bytes_eq (canonical_key name) key)) [
  | inl same ↦ rw (header_get-header_add key name value headers, same) refl
  | inr differ ↦ rw (header_get-header_add key name value headers, differ) (sym (append-nil _))
]

parse_headers_from-values_for :
    (pairs : List Bytes) (headers out : Headers) (key : Bytes)
    → parse_headers_from headers pairs ≡ ok out
    → values_of (header_get key out) ≡ values_of (header_get key headers) ++ values_for key pairs
unfolding parse_headers_from
parse_headers_from-values_for [] headers out key h =
    ap (λ o. values_of (header_get key o)) (sym (ok-injective h)) ∙ sym (append-nil _)
parse_headers_from-values_for (p ∷ pairs) headers out key h =
    let (pair, h1, r1) = >>=-eq-ok (from_option (bad_header p) (cut_at b':' p)) _ h in
    let cut = from_option-eq-ok (bad_header p) (cut_at b':' p) h1 in
    parse_headers_from-values_for pairs
      (header_add (trim_space pair.0) (trim_one_space pair.1) headers) out key r1
    ∙ ap (λ vs. vs ++ values_for key pairs)
        (values-header_add key (trim_space pair.0) (trim_one_space pair.1) headers)
    ∙ append_assoc (values_of (header_get key headers)) _ (values_for key pairs)
    ∙ ap (λ c. values_of (header_get key headers) ++ (value_for key c ++ values_for key pairs))
        (sym cut)

-- The headers of a command line hold under each name the values of the flags that give that name,
-- however they spell it, in the order of the flags.
pub parse_headers-values_for :
    (pairs : List Bytes) (out : Headers) (key : Bytes)
    → parse_headers pairs ≡ ok out
    → values_of (header_get key out) ≡ values_for key pairs
unfolding parse_headers header_get
parse_headers-values_for pairs out key h = parse_headers_from-values_for pairs [] out key h
