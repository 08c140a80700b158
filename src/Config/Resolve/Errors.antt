-- ===== src/Config/Resolve/Errors.antt =====
-- When the resolution fails, and with which error; and when a password is asked for.
use mathlib.Core.Option.{Option}
use mathlib.Core.Option.{Option}
use mathlib.Core.Option.{Option}
use mathlib.Core.Option.{Option}
use mathlib.Core.Option.{Option}
use opensearch_api.Config.Resolve.Defs.{
  ResolveError, Sources, apply_env, apply_flags, finish, invalid_env_timeout, negative_timeout,
  no_password, prompt_failed, resolve, resolve_password,
}
use opensearch_api.Prelude.{
  Bool, Bool-cases, Bytes, Option, Result, ap, arith, err, false, if◌then◌else◌, inl, inr, int_ltb,
  is_empty, is_empty-nil, map_err, none, not, ok, pos, refl, some, sym, true, ◌≡◌, ◌⊎◌,
}
use opensearch_api.Config.Types.{Config, Duration, defaults}
use opensearch_api.Config.Env.{env_timeout}
use opensearch_api.Config.Resolve.Precedence.{decided_timeout}

abbrev pub error_of : {E A : Type 0} → Result E A → Option E
error_of (ok a) = none
error_of (err e) = some e

module _ (parse_duration : Bytes → Option Duration) (s : Sources) where
  abbrev pub sign_error : Duration → Option ResolveError
  sign_error d = if int_ltb d (pos 0) then some (negative_timeout d) else none

  -- The error that the sources call for: OSAPI_TIMEOUT is checked first, whatever the flags say.
  abbrev pub expected_error : Option ResolveError
  expected_error = elim (env_timeout s.env) [
    | none ↦ sign_error (decided_timeout parse_duration s)
    | some v ↦ elim (parse_duration v) [
      | none ↦ some (invalid_env_timeout v)
      | some d ↦ sign_error (decided_timeout parse_duration s)
    ]
  ]

  -- Resolve fails with exactly that error, and succeeds where there is none: a bad OSAPI_TIMEOUT is
  -- an error even when a flag overrides it, and a negative timeout is one wherever it comes from.
  pub error_of-resolve : error_of (resolve parse_duration s) ≡ expected_error
  unfolding resolve finish apply_env apply_flags defaults
  error_of-resolve = ground arith

-- ResolvePassword fails without asking exactly when there is a user name, no password, and nobody
-- to ask; it asks exactly when there is somebody.
abbrev pub NeedsPassword : Config → Type 0
NeedsPassword cfg = (is_empty cfg.password ≡ true) × (is_empty cfg.username ≡ false)

-- The prompt's answer where it may be asked.
abbrev pub asked : Bool → Option (Result Bytes Bytes) → Option (Result Bytes Bytes)
asked is_tty prompt = if is_tty then prompt else none

asked_lem :
    (user : Bytes) (is_tty : Bool) (prompt : Option (Result Bytes Bytes))
    → (if not is_tty then err (no_password user) else elim prompt [
      | none ↦ err (no_password user)
      | some answer ↦ map_err prompt_failed answer
    ])
      ≡ elim (asked is_tty prompt) [
        | none ↦ err (no_password user)
        | some answer ↦ map_err prompt_failed answer
      ]
asked_lem user true prompt = refl
asked_lem user false prompt = refl

-- A password that is needed is what the prompt answers at a terminal, and an error without one; a
-- password that is not needed is the one at hand, whatever the terminal and the prompt.
pub resolve_password_lem :
    (cfg : Config) (prompt : Option (Result Bytes Bytes)) (is_tty : Bool)
    → (NeedsPassword cfg
        × (resolve_password cfg prompt is_tty ≡ elim (asked is_tty prompt) [
          | none ↦ err (no_password cfg.username)
          | some answer ↦ map_err prompt_failed answer
        ]))
      ⊎ ((NeedsPassword cfg → ⊥) × (resolve_password cfg prompt is_tty ≡ ok cfg.password))
unfolding resolve_password
resolve_password_lem cfg prompt is_tty = elim (Bool-cases (is_empty cfg.password)) [
  | inl empty ↦ elim (Bool-cases (is_empty cfg.username)) [
    | inl anonymous ↦ inr (
      (λ h. cc (h.1, anonymous)),
      rw (empty, anonymous) (ap ok (sym (is_empty-nil cfg.password empty))),
    )
    | inr named ↦ inl ((empty, named), rw (empty, named) (asked_lem cfg.username is_tty prompt))
  ]
  | inr given ↦ inr ((λ h. cc (h.0, given)), rw given refl)
]
