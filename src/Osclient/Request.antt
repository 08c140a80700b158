-- ===== src/Osclient/Request.antt =====
-- internal/osclient/request.go, BuildRequest. The standard library's url package is an argument: its
-- parser, its print, the reading and the print of a query, and what `http.NewRequest` refuses.
mod Tests
use opensearch_api.Prelude.{
  >>=-eq-ok, All, Bool-cases, Bytes, List, Option, Result, [], ap, arith, bytes_eq, bytes_eq_iff,
  codes, false, if◌then◌else◌, inl, inr, is_empty, map_err, map_err-eq-ok, none, ok, ok-injective,
  quoted, refl, some, subst, ◌++◌, ◌>>=◌, ◌>>◌, ◌∙◌, ◌∷◌, ◌≡◌,
}
use opensearch_api.Errors.{Err, wrap}
use opensearch_api.Osclient.Address.{Headers, RequestSpec, request_headers, request_url}

-- `url.URL`: its raw query, as the url package writes it, and all else in a text.
pub record HttpUrl (Q : Type 0) : Type 0 where
  pub base : Bytes
  pub raw_query : Q

-- `url.Values`, a map as a list of pairs.
abbrev pub Values : Type 0
Values = List (Bytes × List Bytes)

-- `new_request` is `http.NewRequest` on the print of a URL: it checks the method, and parses the text.
pub record UrlLib (Q : Type 0) : Type 0 where
  pub parse : Bytes → Result Err (HttpUrl Q)
  pub redacted : HttpUrl Q → Bytes
  pub parse_query : Q → Values
  pub encode : Values → Q
  pub new_request : Bytes → HttpUrl Q → Result Err (HttpUrl Q)

unfoldable pub values_get : Bytes → Values → Option (List Bytes)
values_get key [] = none
values_get key ((name, values) ∷ rest) =
    let found = values_get key rest in if bytes_eq name key then some values else found

unfoldable pub delete_values : Bytes → Values → Values
delete_values key [] = []
delete_values key ((name, values) ∷ rest) =
    let others = delete_values key rest in
    if bytes_eq name key then others else (name, values) ∷ others

-- `url.Values.Set`
unfoldable pub values_set : Bytes → Bytes → Values → Values
values_set key value values = (key, value ∷ []) ∷ delete_values key values

-- The loop over the spec's query.
unfoldable pub set_query : List (Bytes × Bytes) → Values → Values
set_query [] values = values
set_query ((key, value) ∷ rest) values = set_query rest (values_set key value values)

unfoldable pub with_query : {Q : Type 0} → UrlLib Q → List (Bytes × Bytes) → HttpUrl Q → HttpUrl Q
with_query lib query u =
    if is_empty query
    then u
    else record u { raw_query = lib.encode (set_query query (lib.parse_query u.raw_query)) }

-- What is sent: the request with its body, if it has one, which a retry sends again.
pub record HttpRequest (Q : Type 0) : Type 0 where
  pub method : Bytes
  pub url : HttpUrl Q
  pub body : Option Bytes
  pub headers : Headers

abbrev pub parse_error : Bytes → Err → Err
parse_error full e = wrap (codes "parsing url " ++ quoted full ++ codes ": ") e []

abbrev pub build_error : {Q : Type 0} → UrlLib Q → RequestSpec → HttpUrl Q → Err → Err
build_error lib spec u e =
    wrap (codes "building request " ++ spec.method ++ codes " " ++ lib.redacted u ++ codes ": ") e
      []

-- `BuildRequest`
unfoldable pub build_request :
    {Q : Type 0} → UrlLib Q → Bytes → RequestSpec → Result Err (HttpRequest Q)
build_request lib endpoint spec = do
  let full = request_url endpoint spec.path
  parsed ← map_err (parse_error full) (lib.parse full)
  let u = with_query lib spec.query parsed
  url ← map_err (build_error lib spec u) (lib.new_request spec.method u)
  ok (record {
    method = spec.method;
    url = url;
    body = if spec.has_body then some spec.body else none;
    headers = request_headers spec.has_body spec.headers;
  })

-- The value of the last pair with a key, in the order in which the map is walked.
abbrev pub last_of : List (Bytes × Bytes) → Bytes → Option Bytes
last_of [] key = none
last_of ((name, value) ∷ rest) key = elim (last_of rest key) [
  | some later ↦ some later
  | none ↦ if bytes_eq name key then some value else none
]

abbrev pub or_values : Option Bytes → Option (List Bytes) → Option (List Bytes)
or_values (some value) other = some (value ∷ [])
or_values none other = other

values_get-delete_values :
    (key name : Bytes) (values : Values)
    → values_get key (delete_values name values)
      ≡ (if bytes_eq name key then none else values_get key values)
unfolding values_get delete_values
values_get-delete_values key name [] = ground arith
values_get-delete_values key name ((other, vs) ∷ rest) = ground (
  arith,
  values_get-delete_values key name rest,
  bytes_eq_iff other key,
  bytes_eq_iff name key,
  bytes_eq_iff other name,
)

values_get-values_set :
    (key name value : Bytes) (values : Values)
    → values_get key (values_set name value values)
      ≡ (if bytes_eq name key then some (value ∷ []) else values_get key values)
unfolding values_set values_get
values_get-values_set key name value values =
    ground (arith, values_get-delete_values key name values)

values_get-set_query :
    (key : Bytes) (query : List (Bytes × Bytes)) (values : Values)
    → values_get key (set_query query values)
      ≡ or_values (last_of query key) (values_get key values)
unfolding set_query
values_get-set_query key [] values = refl
values_get-set_query key ((name, value) ∷ rest) values =
    values_get-set_query key rest (values_set name value values)
    ∙ ground (arith, values_get-values_set key name value values)

-- Each key has a value; a key with none is not written by `Encode`.
abbrev pub AreFull : Values → Type 0
AreFull values = All (λ (entry : Bytes × List Bytes). is_empty entry.1 ≡ false) values

delete_values-AreFull :
    (key : Bytes) (values : Values) → AreFull values → AreFull (delete_values key values)
unfolding delete_values
delete_values-AreFull key [] h = tt
delete_values-AreFull key ((name, vs) ∷ rest) (h, hs) = elim (Bool-cases (bytes_eq name key)) [
  | inl same ↦ rw same (delete_values-AreFull key rest hs)
  | inr apart ↦ rw apart (h, delete_values-AreFull key rest hs)
]

set_query-AreFull :
    (query : List (Bytes × Bytes)) (values : Values)
    → AreFull values
    → AreFull (set_query query values)
unfolding set_query values_set
set_query-AreFull [] values h = h
set_query-AreFull ((key, value) ∷ rest) values h =
    set_query-AreFull rest (values_set key value values) (refl, delete_values-AreFull key values h)

-- What the standard library promises: a query gives each of its keys a value, and is read back as it
-- was written if each key has one; and a request on the print of a parsed URL has that URL's query,
-- also when an encoded one was put in its place. The rest of the URL may come out another than it
-- was, as an empty port does.
pub record IsUrlLib {Q : Type 0} (lib : UrlLib Q) : Type 0 where
  pub parse_query-AreFull : (raw : Q) → AreFull (lib.parse_query raw)
  pub parse_query-encode :
      (key : Bytes) (values : Values)
      → AreFull values
      → values_get key (lib.parse_query (lib.encode values)) ≡ values_get key values
  pub keeps_query :
      (method text : Bytes) (u out : HttpUrl Q)
      → lib.parse text ≡ ok u
      → lib.new_request method u ≡ ok out
      → out.raw_query ≡ u.raw_query
  pub keeps_encoded :
      (method text : Bytes) (values : Values) (u out : HttpUrl Q)
      → lib.parse text ≡ ok u
      → lib.new_request method (record u { raw_query = lib.encode values }) ≡ ok out
      → out.raw_query ≡ lib.encode values

module _ {Q : Type 0} (lib : UrlLib Q) where
  -- What a built request asks for: what `http.NewRequest` makes of the URL of endpoint and path with
  -- another query at most, and a query that has the values of the spec, and else those of the path.
  pub record IsAsked (endpoint : Bytes) (spec : RequestSpec) (req : HttpRequest Q) : Type 0 where
    pub path_url : HttpUrl Q
    pub path_parsed : lib.parse (request_url endpoint spec.path) ≡ ok path_url
    pub asked_url : HttpUrl Q
    pub same_base : asked_url.base ≡ path_url.base
    pub same_query : req.url.raw_query ≡ asked_url.raw_query
    pub made : lib.new_request spec.method asked_url ≡ ok req.url
    pub query :
        (key : Bytes)
        → values_get key (lib.parse_query req.url.raw_query)
          ≡ or_values (last_of spec.query key) (values_get key (lib.parse_query path_url.raw_query))
    pub body : req.body ≡ (if spec.has_body then some spec.body else none)

  with_query-values_get :
      (query : List (Bytes × Bytes)) (u : HttpUrl Q) (key : Bytes)
      → IsUrlLib lib
      → values_get key (lib.parse_query (with_query lib query u).raw_query)
        ≡ or_values (last_of query key) (values_get key (lib.parse_query u.raw_query))
  unfolding with_query
  with_query-values_get [] u key good = refl
  with_query-values_get (entry ∷ query) u key good =
      good.parse_query-encode key (set_query (entry ∷ query) (lib.parse_query u.raw_query)) (
        set_query-AreFull (entry ∷ query) (lib.parse_query u.raw_query)
          (good.parse_query-AreFull u.raw_query))
      ∙ values_get-set_query key (entry ∷ query) (lib.parse_query u.raw_query)

  with_query-base :
      (query : List (Bytes × Bytes)) (u : HttpUrl Q) → (with_query lib query u).base ≡ u.base
  unfolding with_query
  with_query-base [] u = refl
  with_query-base (entry ∷ query) u = refl

  -- The query that goes into a request comes out of it.
  new_request-raw_query :
      (query : List (Bytes × Bytes)) (method text : Bytes) (u out : HttpUrl Q)
      → IsUrlLib lib
      → lib.parse text ≡ ok u
      → lib.new_request method (with_query lib query u) ≡ ok out
      → out.raw_query ≡ (with_query lib query u).raw_query
  unfolding with_query
  new_request-raw_query [] method text u out good parsed h =
      good.keeps_query method text u out parsed h
  new_request-raw_query (entry ∷ query) method text u out good parsed h =
      good.keeps_encoded method text (set_query (entry ∷ query) (lib.parse_query u.raw_query)) u out
        parsed h

  -- A request that is built goes to what `http.NewRequest` makes of the URL of endpoint and path, of
  -- which the query alone may be another. In the query that is sent, a key of the spec has the spec's
  -- value alone, and any other key keeps what the path says. The body is the spec's, if the spec has
  -- one.
  pub build_request-IsAsked :
      (endpoint : Bytes) (spec : RequestSpec) (req : HttpRequest Q)
      → IsUrlLib lib
      → build_request lib endpoint spec ≡ ok req
      → IsAsked endpoint spec req
  unfolding build_request
  build_request-IsAsked endpoint spec req good h =
      let full = request_url endpoint spec.path in
      let (path_url, h1, r1) = >>=-eq-ok (map_err (parse_error full) (lib.parse full)) _ h in
      let parsed = map_err-eq-ok _ (lib.parse full) h1 in
      let u = with_query lib spec.query path_url in
      let (url, h2, r2) =
        >>=-eq-ok (map_err (build_error lib spec u) (lib.new_request spec.method u)) _ r1 in
      let made = map_err-eq-ok _ (lib.new_request spec.method u) h2 in
      let same = new_request-raw_query spec.query spec.method full path_url url good parsed made in
      subst (IsAsked endpoint spec) (ok-injective r2) (record {
        path_url = path_url;
        path_parsed = parsed;
        asked_url = u;
        same_base = with_query-base spec.query path_url;
        same_query = same;
        made = made;
        query = λ key.
            ap (λ raw. values_get key (lib.parse_query raw)) same
            ∙ with_query-values_get spec.query path_url key good;
        body = refl;
      })
