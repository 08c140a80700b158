-- ===== src/Osclient/Tests.antt =====
-- A client of one endpoint, and an upsert of a document that is there.
use opensearch_api.Prelude.{
  Bytes, Option, [], codes, cut_at, equal_fold, false, is_empty, none, ok, pos, refl, some,
  to_lower, to_upper, true, ◌≡◌, ◌⊎◌,
}
use opensearch_api.Retry.Attempt.{Attempted, responded}
use opensearch_api.Osclient.Address.{
  RequestSpec, cut_scheme, drop_userinfo, request_url, span_until, strip_userinfo,
  trim_left_slashes, trim_right_slashes,
}
use opensearch_api.Osclient.Address.Userinfo.{IsStripped, drop_userinfo-IsStripped}
use opensearch_api.Osclient.Client.{
  AuthTransport, Options, Request, Url, build_tls_config, effective_port, new_client,
  origin_matches, origin_of, parse_origin, round_trip, system_roots, with_user_agent,
}
use opensearch_api.Osclient.Client.Auth.{IsSameOrigin, new_client-round_trip}
use opensearch_api.Osclient.Upsert.{Server, after_get}
use opensearch_api.Osclient.Upsert.Conditions.{IsGuarded, after_get-IsGuarded}

two_at_signs : strip_userinfo (codes "https://user:p@ss@host:9200") ≡ codes "https://ss@host:9200"
unfolding strip_userinfo cut_scheme drop_userinfo span_until cut_at
two_at_signs = refl

joined :
    request_url (codes "http://u:p@host:9200/") (codes "/_cat/indices")
    ≡ codes "http://host:9200/_cat/indices"
unfolding request_url trim_right_slashes trim_left_slashes strip_userinfo cut_scheme drop_userinfo
    span_until cut_at
joined = refl

drop_userinfo-IsStripped_example :
    IsStripped (codes "user:p@ss@host/a") (drop_userinfo (codes "user:p@ss@host/a"))
drop_userinfo-IsStripped_example = drop_userinfo-IsStripped (codes "user:p@ss@host/a")

abbrev endpoint_url : Url
endpoint_url = record { scheme = codes "https"; hostname = codes "host"; port = codes "9200" }

abbrev parse_url : Bytes → Option Url
parse_url text = some endpoint_url

abbrev options : Options
options = record {
  endpoint = codes "https://host:9200";
  username = codes "admin";
  password = codes "secret";
  ca_cert_path = [];
  insecure = false;
  has_warn = false;
}

abbrev transport : AuthTransport
transport = record {
  trust = system_roots;
  username = codes "admin";
  password = codes "secret";
  origin = record { scheme = codes "https"; host = codes "host"; port = codes "9200" };
}

made : new_client parse_url (λ path. none) options ≡ ok transport
unfolding new_client parse_origin origin_of effective_port build_tls_config to_lower
made = refl

abbrev elsewhere : Request
elsewhere = record {
  url = record endpoint_url { hostname = codes "evil" };
  user_agent = [];
  basic_auth = none;
}

not_sent_elsewhere : (round_trip transport elsewhere).basic_auth ≡ none
unfolding round_trip with_user_agent origin_matches equal_fold effective_port to_lower to_upper
not_sent_elsewhere = refl

new_client-round_trip_example :
    ((round_trip transport elsewhere).basic_auth ≡ none)
    ⊎ ((endpoint : Url) × (parse_url (codes "https://host:9200") ≡ some endpoint)
        × (is_empty endpoint.scheme ≡ false)
        × (is_empty endpoint.hostname ≡ false)
        × IsSameOrigin endpoint elsewhere.url
        × ((round_trip transport elsewhere).basic_auth ≡ some (codes "admin", codes "secret"))
        × (is_empty (codes "admin") ≡ false)
        × (is_empty (codes "secret") ≡ false))
new_client-round_trip_example =
    new_client-round_trip parse_url (λ path. none) options transport elsewhere made

abbrev document : RequestSpec
document = record {
  method = codes "PUT";
  path = codes "/p/1";
  has_body = true;
  query = [];
  headers = [];
  body = codes "{}";
}

abbrev found : Attempted
found = responded (record { status = 200; body = record { unread = codes "{}"; failure = none } })

abbrev server : Server
server = record {
  build = λ spec. none;
  get_reply = found;
  put_reply = λ spec. found;
  decode_doc = λ body. ok (some (pos 7), some (pos 1));
}

after_get-IsGuarded_example :
    IsGuarded server document none found (after_get server document none found)
after_get-IsGuarded_example = after_get-IsGuarded server document none found
