-- ===== src/Osclient/Client.antt =====
-- internal/osclient/client.go: the origin that credentials may go to, and the transport that adds
-- them. `url.Parse` is an argument: it gives the parts of a URL that the program reads.
pub mod Auth
use opensearch_api.Prelude.{
  Bool, Bytes, List, Option, Result, [], bytes_eq, codes, equal_fold, err, false, from_option,
  guard, if◌then◌else◌, is_empty, none, not, ok, refl, some, to_lower, ◌&&◌, ◌>>=◌, ◌>>◌, ◌||◌, ◌∷◌,
  ◌≡◌,
}

pub record Url : Type 0 where
  pub scheme : Bytes
  pub hostname : Bytes
  pub port : Bytes

pub record Origin : Type 0 where
  pub scheme : Bytes
  pub host : Bytes
  pub port : Bytes

unfoldable pub effective_port : Url → Bytes
effective_port u =
    if not (is_empty u.port)
    then u.port
    else if bytes_eq (to_lower u.scheme) (codes "https")
    then codes "443"
    else if bytes_eq (to_lower u.scheme) (codes "http")
    then codes "80"
    else []

pub data ClientError : Type 0 where
  no_endpoint : ClientError
  bad_endpoint : Bytes → ClientError
  bad_ca : Bytes → ClientError

unfoldable pub origin_of : Bytes → Url → Result ClientError Origin
origin_of endpoint u =
    if is_empty u.scheme || is_empty u.hostname
    then err (bad_endpoint endpoint)
    else ok
        (record { scheme = to_lower u.scheme; host = to_lower u.hostname; port = effective_port u })

unfoldable pub parse_origin : (Bytes → Option Url) → Bytes → Result ClientError Origin
parse_origin parse endpoint =
    from_option (bad_endpoint endpoint) (parse endpoint) >>= origin_of endpoint

unfoldable pub origin_matches : Origin → Url → Bool
origin_matches o u =
    equal_fold u.scheme o.scheme
    && equal_fold u.hostname o.host
    && bytes_eq (effective_port u) o.port

pub record Options : Type 0 where
  pub endpoint : Bytes
  pub username : Bytes
  pub password : Bytes
  pub ca_cert_path : Bytes
  pub insecure : Bool
  pub has_warn : Bool

-- What the TLS settings verify a server by.
pub data Trust : Type 0 where
  system_roots unverified : Trust
  pool : Bytes → Trust

pub data ClientWarning : Type 0 where
  insecure_warning : Bool → ClientWarning
  no_password_warning : ClientWarning

-- `buildTLSConfig`, over the read of the certificates, which are `none` if there is none in it.
unfoldable pub build_tls_config : (Bytes → Option Bytes) → Options → Result ClientError Trust
build_tls_config read_pem opts =
    if opts.insecure
    then ok unverified
    else if is_empty opts.ca_cert_path
    then ok system_roots
    else elim (read_pem opts.ca_cert_path) [
      | none ↦ err (bad_ca opts.ca_cert_path)
      | some pem ↦ ok (pool pem)
    ]

unfoldable pub tls_warnings : Options → List ClientWarning
tls_warnings opts =
    if opts.insecure && opts.has_warn
    then insecure_warning (not (is_empty opts.ca_cert_path)) ∷ []
    else []

unfoldable pub password_warnings : Options → List ClientWarning
password_warnings opts =
    if not (is_empty opts.username) && is_empty opts.password && opts.has_warn
    then no_password_warning ∷ []
    else []

pub record AuthTransport : Type 0 where
  pub trust : Trust
  pub username : Bytes
  pub password : Bytes
  pub origin : Origin

-- `New`, without its warnings.
unfoldable pub new_client :
    (Bytes → Option Url) → (Bytes → Option Bytes) → Options → Result ClientError AuthTransport
new_client parse read_pem opts = do
  guard (not (is_empty opts.endpoint)) no_endpoint
  origin ← parse_origin parse opts.endpoint
  trust ← build_tls_config read_pem opts
  ok (record { trust = trust; username = opts.username; password = opts.password; origin = origin })

-- A request as the transport sees it.
pub record Request : Type 0 where
  pub url : Url
  pub user_agent : Bytes
  pub basic_auth : Option (Bytes × Bytes)

unfoldable pub with_user_agent : Request → Request
with_user_agent req =
    if is_empty req.user_agent then record req { user_agent = codes "osapi" } else req

-- The request that `RoundTrip` passes on.
unfoldable pub round_trip : AuthTransport → Request → Request
round_trip t req =
    let clone = with_user_agent req in
    if not (is_empty t.username) && not (is_empty t.password) && origin_matches t.origin clone.url
    then record clone { basic_auth = some (t.username, t.password) }
    else clone

unfoldable pub redact_options : Options → Options
redact_options o = if is_empty o.password then o else record o { password = codes "***" }

-- `String` and `GoString`, over the two prints of options by the fmt package.
unfoldable pub options_string : (Options → Bytes) → Options → Bytes
options_string print o = print (redact_options o)

-- Printed options are the same whatever the password is, as long as there is one.
options_string-hides :
    (print : Options → Bytes) (o : Options) (p q : Bytes)
    → is_empty p ≡ false
    → is_empty q ≡ false
    → options_string print (record o { password = p })
      ≡ options_string print (record o { password = q })
unfolding options_string redact_options
options_string-hides print o p q given given2 = rw (given, given2) refl
