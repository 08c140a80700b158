-- ===== src/Config/Resolve/Precedence.antt =====
-- Which source decides each field, and when the resolution fails.
use opensearch_api.Prelude.{
  >>=-eq-ok, Bool, Bool-cases, Bytes, Option, [], ap, arith, false, inl, inr, int_ltb, none, ok,
  ok-injective, pos, some, sym, ◌∙◌, ◌≡◌,
}
use opensearch_api.Config.Types.{Config, Duration, defaults}
use opensearch_api.Config.Env.{env_endpoint, env_password, env_timeout, env_username}
use opensearch_api.Config.Resolve.Defs.{
  Sources, apply_env, apply_flags, changed, field_endpoint, field_password, field_timeout,
  field_username, finish, or_default_endpoint, or_else, pick, resolve, resolve_password_source,
}

-- The value of a field that has a flag, an environment variable and a default.
abbrev pub decided {ℓ} : {A : Type ℓ} → Bool → A → Option A → A → A
decided set flag env default = pick set flag (or_else env default)

module _ (parse_duration : Bytes → Option Duration) (s : Sources) where
  -- The duration that OSAPI_TIMEOUT spells, if it is set and spells one.
  abbrev pub env_duration : Option Duration
  env_duration = elim (env_timeout s.env) [ none ↦ none | some v ↦ parse_duration v ]

  -- The timeout that flag, environment and default decide.
  abbrev pub decided_timeout : Duration
  decided_timeout = decided (changed s field_timeout) s.flags.timeout env_duration (pos 0)

  -- What the sources decide for a field that the environment can set.
  pub record Decides (cfg : Config) : Type 0 where
    pub endpoint :
        cfg.endpoint
        ≡ or_default_endpoint
            (decided (changed s field_endpoint) s.flags.endpoint (env_endpoint s.env) [])
    pub username :
        cfg.username ≡ decided (changed s field_username) s.flags.username (env_username s.env) []
    pub password :
        cfg.password ≡ decided (changed s field_password) s.flags.password (env_password s.env) []
    pub timeout : cfg.timeout ≡ decided_timeout
    pub timeout_sign : int_ltb cfg.timeout (pos 0) ≡ false

  record Finished (from_env out : Config) : Type 0 where
    endpoint :
        out.endpoint
        ≡ or_default_endpoint (pick (changed s field_endpoint) s.flags.endpoint from_env.endpoint)
    username : out.username ≡ pick (changed s field_username) s.flags.username from_env.username
    password :
        out.password
        ≡ pick
            (changed s field_password)
            s.flags.password
            (or_else (env_password s.env) from_env.password)
    timeout : out.timeout ≡ pick (changed s field_timeout) s.flags.timeout from_env.timeout
    timeout_sign : int_ltb out.timeout (pos 0) ≡ false

  apply_env_lem :
      (cfg out : Config)
      → apply_env parse_duration cfg s.env ≡ ok out
      → (out.endpoint ≡ or_else (env_endpoint s.env) cfg.endpoint)
        × (out.username ≡ or_else (env_username s.env) cfg.username)
        × (out.password ≡ cfg.password)
        × (out.timeout ≡ or_else env_duration cfg.timeout)
  unfolding apply_env
  apply_env_lem cfg out h = ground arith

  finish_lem : (from_env out : Config) → finish s from_env ≡ ok out → Finished from_env out
  unfolding finish apply_flags resolve_password_source
  finish_lem from_env out h = elim (Bool-cases (int_ltb (apply_flags from_env s).timeout (pos 0))) [
    | inl negative ↦ let bad = rw negative at h in absurd (cc)
    | inr sign ↦
        let e = ok-injective (rw sign at h) in
        record {
          endpoint = ap (λ (c : Config). c.endpoint) (sym e);
          username = ap (λ (c : Config). c.username) (sym e);
          password = ap (λ (c : Config). c.password) (sym e);
          timeout = ap (λ (c : Config). c.timeout) (sym e);
          timeout_sign = ap (λ (c : Config). int_ltb c.timeout (pos 0)) (sym e) ∙ sign;
        }
  ]

  -- Whenever the sources resolve, each field that the environment can set is what a flag says if that
  -- flag was set, else what the environment says if it says something, else the default; an empty
  -- endpoint becomes the default one, and the timeout is not negative.
  pub resolve_precedence : (cfg : Config) → resolve parse_duration s ≡ ok cfg → Decides cfg
  unfolding resolve defaults
  resolve_precedence cfg h =
      let (c1, h1, h2) = >>=-eq-ok (apply_env parse_duration defaults s.env) _ h in
      let (endpoint, username, password, timeout) = apply_env_lem defaults c1 h1 in
      let f = finish_lem c1 cfg h2 in ground arith
