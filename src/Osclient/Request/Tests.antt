-- ===== src/Osclient/Request/Tests.antt =====
-- A request that is built, with a query of its own.
use opensearch_api.Osclient.Address.{
  RequestSpec, cut_scheme, drop_userinfo, override_headers, request_headers, request_url,
  span_until, strip_userinfo, trim_left_slashes, trim_right_slashes,
}
use opensearch_api.Osclient.Request.{
  AreFull, HttpRequest, HttpUrl, IsAsked, IsUrlLib, UrlLib, Values, build_request,
  build_request-IsAsked, delete_values, set_query, values_get, values_set, with_query,
}
use opensearch_api.Prelude.{
  Bytes, [], ap, codes, cut_at, false, if◌then◌else◌, none, ok, ok-injective, refl, sym, ◌==◌, ◌∷◌,
  ◌≡◌,
}

-- A url package for addresses without a query of their own, in which a query is its values, and a key
-- without a value is not read. An empty port at the end of an address is lost when it is read again.
abbrev full_values : Values → Values
full_values [] = []
full_values ((name, []) ∷ rest) = full_values rest
full_values ((name, value ∷ values) ∷ rest) = (name, value ∷ values) ∷ full_values rest

abbrev without_empty_port : Bytes → Bytes
without_empty_port [] = []
without_empty_port (c ∷ []) = if c == b':' then [] else c ∷ []
without_empty_port (c ∷ d ∷ s) = c ∷ without_empty_port (d ∷ s)

abbrev plain_urls : UrlLib Values
plain_urls = record {
  parse = λ text. ok (record { base = text; raw_query = [] });
  redacted = λ u. u.base;
  parse_query = full_values;
  encode = λ values. values;
  new_request = λ method u. ok (record u { base = without_empty_port u.base });
}

full_values-AreFull : (values : Values) → AreFull (full_values values)
full_values-AreFull [] = tt
full_values-AreFull ((name, []) ∷ rest) = full_values-AreFull rest
full_values-AreFull ((name, value ∷ values) ∷ rest) = (refl, full_values-AreFull rest)

AreFull-full_values : (values : Values) → AreFull values → full_values values ≡ values
AreFull-full_values [] h = refl
AreFull-full_values ((name, []) ∷ rest) (h, hs) = absurd (cc)
AreFull-full_values ((name, value ∷ values) ∷ rest) (h, hs) =
    ap (λ r. (name, value ∷ values) ∷ r) (AreFull-full_values rest hs)

plain_urls-IsUrlLib : IsUrlLib plain_urls
plain_urls-IsUrlLib = record {
  parse_query-AreFull = full_values-AreFull;
  parse_query-encode = λ key values full. ap (values_get key) (AreFull-full_values values full);
  keeps_query =
      λ method text u out parsed h. ap (λ (v : HttpUrl Values). v.raw_query) (sym (ok-injective h));
  keeps_encoded = λ method text values u out parsed h.
      ap (λ (v : HttpUrl Values). v.raw_query) (sym (ok-injective h));
}

abbrev search_spec : RequestSpec
search_spec = record {
  method = codes "GET";
  path = codes "/_search";
  has_body = false;
  query = (codes "size", codes "1") ∷ [];
  headers = [];
  body = [];
}

abbrev search_request : HttpRequest Values
search_request = record {
  method = codes "GET";
  url = record { base = codes "http://h/_search"; raw_query = (codes "size", codes "1" ∷ []) ∷ [] };
  body = none;
  headers = [];
}

builds_search : build_request plain_urls (codes "http://u:p@h/") search_spec ≡ ok search_request
unfolding build_request cut_at cut_scheme delete_values drop_userinfo override_headers
    request_headers request_url set_query span_until strip_userinfo trim_left_slashes
    trim_right_slashes values_set with_query
builds_search = refl

build_request-IsAsked_example :
    IsAsked plain_urls (codes "http://u:p@h/") search_spec search_request
build_request-IsAsked_example =
    build_request-IsAsked plain_urls (codes "http://u:p@h/") search_spec search_request
      plain_urls-IsUrlLib builds_search
