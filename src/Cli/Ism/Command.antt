-- ===== src/Cli/Ism/Command.antt =====
-- internal/cli/ism.go, newISMSession and ismSession.do, and with them runISMSet of ism_policy.go as a
-- whole: the attempts of the upsert under the retry policy, and the last response on stdout.
use opensearch_api.Cli.Ism.Set.{SetFlags, SetWorld, hook_of, prepare_set, put_spec}
use opensearch_api.Prelude.{
  Bool, Bytes, List, Option, Result, [], err, map_err, ok, some, ◌>>=◌, ◌∷◌, ◌≡◌,
}
use opensearch_api.Errors.{Err}
use opensearch_api.Config.Types.{Config}
use opensearch_api.Osclient.Address.{RequestSpec}
use opensearch_api.Osclient.Client.{AuthTransport, new_client}
use opensearch_api.Osclient.Upsert.{Server, Upserted, after_get, upsert}
use opensearch_api.Retry.Attempt.{Round, failed}
use opensearch_api.Cli.Resolve.{Predicates, RetryFlags, load_env, resolve_config}
use opensearch_api.Config.Env.{load_env_file}
use opensearch_api.Cli.Request.{
  Ended, Refusal, RequestWorld, bad_flags, client_options, do_with_retry, ended, no_client, no_env,
  refused, stream_body,
}
use opensearch_api.Cli.Request.Answered.{IsAnswered, quiet, refusal_error}
use opensearch_api.Cli.Ism.Policy.{JsonLib}
use opensearch_api.Json.{Members}

-- The flags that every policy command has; `conn` is what connFlags.config gives.
pub record IsmFlags : Type 0 where
  pub conn : Config
  pub retry : RetryFlags
  pub env_file : Bytes
  pub verbose : Bool

pub record IsmSession : Type 0 where
  pub cfg : Config
  pub preds : Predicates
  pub verbose : Bool
  pub client : AuthTransport

-- What a set is answered: whether a session can build a request, and at each attempt what the server
-- replies to the GET and the PUT, with the rest of the engine's round.
pub record SetReplies : Type 0 where
  pub build : IsmSession → RequestSpec → Option Err
  pub replies : IsmSession → List (Server × Round)

module _ {Q : Type 0} (w : RequestWorld Q) where
  -- `newISMSession`
  unfoldable pub new_ism_session : IsmFlags → Result Refusal IsmSession
  new_ism_session f = do
    env ← map_err no_env (load_env (load_env_file w.read_file w.parse_env) w.process_env f.env_file)
    resolved ←
        map_err bad_flags (resolve_config (record w.surroundings { env = env }) f.conn f.retry)
    client ← map_err no_client (new_client w.parse_url w.read_pem (client_options resolved.0))
    ok (record { cfg = resolved.0; preds = resolved.1; verbose = f.verbose; client = client })

  -- `ismSession.do`, on what happens to each attempt.
  unfoldable pub ism_do : IsmSession → List Round → Ended
  ism_do s rounds = stream_body w s.cfg.timeout (do_with_retry w s.verbose s.cfg s.preds rounds)

  abbrev pub set_world : JsonLib → Result Refusal IsmSession → SetWorld
  set_world lib session = record {
    stdin = w.stdin;
    read_file = w.read_file;
    lib = lib;
    session = map_err refusal_error session >>= λ s. ok tt;
  }

  -- Each round with the attempt that the upsert makes in it.
  unfoldable pub set_rounds :
      (RequestSpec → Option Err)
      → RequestSpec
      → Option (Bytes → Bool)
      → List (Server × Round)
      → List Round
  set_rounds build spec unchanged [] = []
  set_rounds build spec unchanged ((server, round) ∷ rest) =
      let at = record server { build = build } in
      record round { attempted = (after_get at spec unchanged at.get_reply).1 }
      ∷ set_rounds build spec unchanged rest

  -- A server that `Upsert` is handed before there is an attempt: only its requests are built.
  abbrev unasked : (RequestSpec → Option Err) → Server
  unasked build = record {
    build = build;
    get_reply = failed quiet;
    put_reply = λ spec. failed quiet;
    decode_doc = λ text. err quiet;
  }

  abbrev pub attempts_of :
      JsonLib → SetReplies → SetFlags → Bytes → IsmSession → Members → Bytes → List Round
  attempts_of lib r f id s policy body =
      set_rounds (r.build s) (put_spec id body) (hook_of (set_world lib (ok s)) f policy)
        (r.replies s)

  abbrev pub fails : Err → Ended
  fails e = ended [] (record { out = []; errw = []; error = some e })

  abbrev pub unless_failed : {A : Type 0} → Result Err A → (A → Ended) → Ended
  unless_failed (err e) rest = fails e
  unless_failed (ok a) rest = rest a

  -- The session is there when the policy is, as prepare_set asks for it last.
  abbrev pub set_with :
      JsonLib → SetReplies → SetFlags → Bytes → Members × Bytes → Result Refusal IsmSession → Ended
  set_with lib r f id prepared (err why) = refused why
  set_with lib r f id (policy, body) (ok s) =
      unless_failed
        (upsert (unasked (r.build s)) (put_spec id body) (hook_of (set_world lib (ok s)) f policy))
        (λ _. ism_do s (attempts_of lib r f id s policy body))

  -- `runISMSet`
  unfoldable pub ism_set : JsonLib → SetReplies → IsmFlags → SetFlags → Bytes → Ended
  ism_set lib r flags f id =
      let session = new_ism_session flags in
      unless_failed (prepare_set (set_world lib session) f id)
        (λ prepared. set_with lib r f id prepared session)

  -- A set that was prepared, whose session is there and builds its requests, and whose last answer is a
  -- success.
  pub record IsStored (lib : JsonLib) (r : SetReplies) (flags : IsmFlags) (f : SetFlags)
      (id : Bytes) : Type 0 where
    pub session : IsmSession
    pub is_session : new_ism_session flags ≡ ok session
    pub policy : Members
    pub body : Bytes
    pub is_prepared : prepare_set (set_world lib (ok session)) f id ≡ ok (policy, body)
    pub attempt : Unit {0} → Upserted
    pub is_built :
        upsert
          (unasked (r.build session))
          (put_spec id body)
          (hook_of (set_world lib (ok session)) f policy)
        ≡ ok attempt
    pub answered :
        IsAnswered w session.verbose session.cfg session.preds
          (attempts_of lib r f id session policy body)
