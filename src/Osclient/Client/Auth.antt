-- ===== src/Osclient/Client/Auth.antt =====
-- Where the credentials go.
use opensearch_api.Prelude.{
  >>=-eq-ok, Bool-cases, Bytes, Option, ap, arith, bytes_eq_sound, equal_fold, false, from_option,
  from_option-eq-ok, guard, inl, inr, is_empty, not, ok, ok-injective, refl, some, subst, sym,
  to_lower, true, ◌&&◌, ◌||◌, ◌∙◌, ◌≡◌, ◌⊎◌,
}
use opensearch_api.Osclient.Client.{
  AuthTransport, Options, Origin, Request, Url, bad_endpoint, build_tls_config, effective_port,
  new_client, no_endpoint, origin_matches, origin_of, parse_origin, round_trip, with_user_agent,
}

-- The request goes to the scheme, host and port of the endpoint that the client was made for.
abbrev pub IsSameOrigin : Url → Url → Type 0
IsSameOrigin endpoint u =
    (equal_fold u.scheme (to_lower endpoint.scheme) ≡ true)
    × (equal_fold u.hostname (to_lower endpoint.hostname) ≡ true)
    × (effective_port u ≡ effective_port endpoint)

origin_of_lem :
    (text : Bytes) (u : Url) (o : Origin)
    → origin_of text u ≡ ok o
    → ((is_empty u.scheme ≡ false) × (is_empty u.hostname ≡ false))
      × ((o.scheme ≡ to_lower u.scheme)
          × ((o.host ≡ to_lower u.hostname) × (o.port ≡ effective_port u)))
unfolding origin_of
origin_of_lem text u o h = elim (Bool-cases (is_empty u.scheme || is_empty u.hostname)) [
  | inl bad ↦ absurd (cc (rw bad at h))
  | inr good ↦
      let same = ok-injective (rw good at h) in
      (
        (ground arith, ground arith),
        (ap (λ x. x.scheme) (sym same), (ap (λ x. x.host) (sym same), ap (λ x. x.port) (sym same))),
      )
]

-- What a client is made of.
new_client_lem :
    (parse : Bytes → Option Url) (read_pem : Bytes → Option Bytes) (opts : Options)
    (t : AuthTransport)
    → new_client parse read_pem opts ≡ ok t
    → (u : Url) × (parse opts.endpoint ≡ some u)
      × (origin_of opts.endpoint u ≡ ok t.origin)
      × ((t.username ≡ opts.username) × (t.password ≡ opts.password))
unfolding new_client parse_origin
new_client_lem parse read_pem opts t h =
    let (_, _, h1) = >>=-eq-ok (guard (not (is_empty opts.endpoint)) no_endpoint) _ h in
    let (o, ho, h2) = >>=-eq-ok (parse_origin parse opts.endpoint) _ h1 in
    let (u, hu, h3) =
      >>=-eq-ok (from_option (bad_endpoint opts.endpoint) (parse opts.endpoint)) _ ho in
    let (trust, ht, h4) = >>=-eq-ok (build_tls_config read_pem opts) _ h2 in
    let same = ok-injective h4 in
    (
      u,
      from_option-eq-ok _ (parse opts.endpoint) hu,
      h3 ∙ ap (λ x. ok x.origin) same,
      (ap (λ x. x.username) (sym same), ap (λ x. x.password) (sym same)),
    )

with_user_agent_lem :
    (req : Request)
    → ((with_user_agent req).basic_auth ≡ req.basic_auth) × ((with_user_agent req).url ≡ req.url)
unfolding with_user_agent
with_user_agent_lem req = elim (Bool-cases (is_empty req.user_agent)) [
  | inl unset ↦ rw unset (refl, refl)
  | inr set ↦ rw set (refl, refl)
]

-- What the transport does, by its own origin.
round_trip_lem :
    (t : AuthTransport) (req : Request)
    → ((round_trip t req).basic_auth ≡ req.basic_auth)
      ⊎ (((round_trip t req).basic_auth ≡ some (t.username, t.password))
          × ((is_empty t.username ≡ false)
              × ((is_empty t.password ≡ false) × (origin_matches t.origin req.url ≡ true))))
unfolding round_trip
round_trip_lem t req =
    let (same_auth, same_url) = with_user_agent_lem req in
    elim (Bool-cases (
      not (is_empty t.username)
      && not (is_empty t.password)
      && origin_matches t.origin (with_user_agent req).url)) [
        | inl sent ↦ inr (rw sent refl, ground arith)
        | inr kept ↦ inl (rw kept same_auth)
      ]

origin_matches_lem :
    (o : Origin) (u : Url)
    → origin_matches o u ≡ true
    → (equal_fold u.scheme o.scheme ≡ true)
      × ((equal_fold u.hostname o.host ≡ true) × (effective_port u ≡ o.port))
unfolding origin_matches
origin_matches_lem o u h =
    (ground arith, (ground arith, bytes_eq_sound (effective_port u) o.port (ground arith)))

-- A client adds credentials to a request only if both are there and the request goes to the endpoint
-- that the client was made for, which has a scheme and a host; any other request keeps what it had.
pub new_client-round_trip :
    (parse : Bytes → Option Url) (read_pem : Bytes → Option Bytes) (opts : Options)
    (t : AuthTransport) (req : Request)
    → new_client parse read_pem opts ≡ ok t
    → ((round_trip t req).basic_auth ≡ req.basic_auth)
      ⊎ ((endpoint : Url) × (parse opts.endpoint ≡ some endpoint)
          × (is_empty endpoint.scheme ≡ false)
          × (is_empty endpoint.hostname ≡ false)
          × IsSameOrigin endpoint req.url
          × ((round_trip t req).basic_auth ≡ some (opts.username, opts.password))
          × (is_empty opts.username ≡ false)
          × (is_empty opts.password ≡ false))
new_client-round_trip parse read_pem opts t req h =
    let (u, parsed, is_origin, (same_user, same_password)) =
      new_client_lem parse read_pem opts t h in
    let ((scheme, host), (scheme_is, (host_is, port_is))) =
      origin_of_lem opts.endpoint u t.origin is_origin in
    elim (round_trip_lem t req) [
      | inl kept ↦ inl kept
      | inr (sent, (user, (password, matched))) ↦
          let (a, (b, c)) = origin_matches_lem t.origin req.url matched in
          inr (
            u,
            parsed,
            scheme,
            host,
            (
              subst (λ x. equal_fold req.url.scheme x ≡ true) scheme_is a,
              subst (λ x. equal_fold req.url.hostname x ≡ true) host_is b,
              c ∙ port_is,
            ),
            sent
                ∙ ap (λ x. some (x, t.password)) same_user
                ∙ ap (λ x. some (opts.username, x)) same_password,
            subst (λ x. is_empty x ≡ false) same_user user,
            subst (λ x. is_empty x ≡ false) same_password password,
          )
    ]
