-- ===== src/Cli/Ism/Set.antt =====
-- internal/cli/ism_policy.go, runISMSet: the policy that is set, and each attempt of the upsert that it
-- hands to the retry engine. The session that the flags give is an argument.
use opensearch_api.Cli.Ism.Held.{IsHeld}
use opensearch_api.Cli.Ism.Held.Unchanged.{policy_unchanged-IsHeld-iff}
use opensearch_api.Prelude.{
  >>=-eq-ok, Bool, Bytes, List, Option, Option-cases, Result, [], ap, codes, false, guard,
  if◌then◌else◌, inl, inr, is_empty, none, not, ok, ok-injective, refl, some, subst, sym, true, ℤ,
  ◌&&◌, ◌>>=◌, ◌>>◌, ◌∙◌, ◌≡◌,
}
use opensearch_api.Errors.{Err, other}
use opensearch_api.Json.{Json, Members, end, member, obj}
use opensearch_api.Osclient.Address.{RequestSpec, read_body}
use opensearch_api.Osclient.Upsert.{Server, Upserted, after_body, after_get, get_spec, upsert}
use opensearch_api.Osclient.Upsert.Conditions.{IsGuarded, puts}
use opensearch_api.Retry.Body.{Response, read_all}
use opensearch_api.Retry.Attempt.{responded}
use opensearch_api.Cli.Ism.Names.{policy_path, valid_name}
use opensearch_api.Cli.Ism.Policy.{JsonLib, build_policy, marshal_raw, policy_unchanged}
use opensearch_api.Cli.Ism.Policy.Stored.{GivesMaps}

pub record SetFlags : Type 0 where
  pub body : Bytes
  pub targets : List Bytes
  pub priority : ℤ
  pub has_priority : Bool
  pub force : Bool

-- Standard input, the files, the JSON library, and whether the flags give a session.
pub record SetWorld : Type 0 where
  pub stdin : Option (Result Err Bytes)
  pub read_file : Bytes → Result Err Bytes
  pub lib : JsonLib
  pub session : Result Err (Unit {0})

abbrev pub put_spec : Bytes → Bytes → RequestSpec
put_spec id body = record {
  method = codes "PUT";
  path = policy_path id;
  has_body = true;
  query = [];
  headers = [];
  body = body;
}

abbrev pub policy_doc : Members → Json
policy_doc policy = obj (member (codes "policy") (obj policy) end)

-- The policy and the text of the PUT.
unfoldable pub prepare_set : SetWorld → SetFlags → Bytes → Result Err (Members × Bytes)
prepare_set w f id = do
  valid_name (codes "policy id") id
  guard (not (f.has_priority && is_empty f.targets)) (other (codes "--priority needs --target"))
  raw ← read_body w.stdin w.read_file f.body
  policy ← build_policy w.lib raw.0 f.targets f.priority
  body ← marshal_raw w.lib (policy_doc policy)
  w.session
  ok (policy, body)

abbrev pub hook_of : SetWorld → SetFlags → Members → Option (Bytes → Bool)
hook_of w f policy = if f.force then none else some (policy_unchanged w.lib policy)

-- `runISMSet` up to the attempt that it runs under the retry policy.
unfoldable pub run_ism_set : SetWorld → Server → SetFlags → Bytes → Result Err (Unit {0} → Upserted)
run_ism_set w server f id = prepare_set w f id >>= λ prepared.
    upsert server (put_spec id prepared.1) (hook_of w f prepared.0)

-- What a set that gets to its attempts was given.
pub record IsPrepared (w : SetWorld) (f : SetFlags) (id : Bytes) (policy : Members) (body : Bytes)
    : Type 0 where
  pub raw : Bytes × Bool
  pub name : valid_name (codes "policy id") id ≡ ok tt
  pub read : read_body w.stdin w.read_file f.body ≡ ok raw
  pub built : build_policy w.lib raw.0 f.targets f.priority ≡ ok policy
  pub text : marshal_raw w.lib (policy_doc policy) ≡ ok body

prepare_set-IsPrepared :
    (w : SetWorld) (f : SetFlags) (id : Bytes) (prepared : Members × Bytes)
    → prepare_set w f id ≡ ok prepared
    → IsPrepared w f id prepared.0 prepared.1
unfolding prepare_set
prepare_set-IsPrepared w f id prepared h =
    let (_, h1, r1) = >>=-eq-ok (valid_name (codes "policy id") id) _ h in
    let (_, h2, r2) =
      >>=-eq-ok
        (guard (not (f.has_priority && is_empty f.targets))
          (other (codes "--priority needs --target")))
        _ r1 in
    let (raw, h3, r3) = >>=-eq-ok (read_body w.stdin w.read_file f.body) _ r2 in
    let (policy, h4, r4) = >>=-eq-ok (build_policy w.lib raw.0 f.targets f.priority) _ r3 in
    let (body, h5, r5) = >>=-eq-ok (marshal_raw w.lib (policy_doc policy)) _ r4 in
    let (_, h6, r6) = >>=-eq-ok w.session _ r5 in
    subst (λ p. IsPrepared w f id p.0 p.1) (ok-injective r6)
      (record { raw = raw; name = h1; read = h3; built = h4; text = h5 })

upsert-after_get :
    (server : Server) (spec : RequestSpec) (unchanged : Option (Bytes → Bool))
    (attempt : Unit {0} → Upserted)
    → upsert server spec unchanged ≡ ok attempt
    → attempt tt ≡ after_get server spec unchanged server.get_reply
unfolding upsert
upsert-after_get server spec unchanged attempt h =
    elim (Option-cases (server.build (get_spec spec))) [
      | inr (e, bad) ↦ absurd (cc (rw bad at h))
      | inl fine ↦ elim (Option-cases (server.build spec)) [
        | inr (e, bad) ↦ absurd (cc (rw (fine, bad) at h))
        | inl fine2 ↦ sym (ap (λ a. a tt) (ok-injective (rw (fine, fine2) at h)))
      ]
    ]

-- What one attempt of a set does: a PUT of the prepared policy to its path, at most once, if there was
-- none or if the stored one is another; the attempt is forced if there is no test.
pub record IsSetting (w : SetWorld) (server : Server) (f : SetFlags) (id : Bytes) (out : Upserted)
    : Type 0 where
  pub policy : Members
  pub body : Bytes
  pub prepared : IsPrepared w f id policy body
  pub guarded : IsGuarded server (put_spec id body) (hook_of w f policy) server.get_reply out

after_get-unchanged :
    (server : Server) (spec : RequestSpec) (test : Bytes → Bool) (r : Response) (body : Bytes)
    → (r.status ≡ 200)
    → read_all r.body ≡ ok body
    → test body ≡ true
    → puts (after_get server spec (some test) (responded r)).0 ≡ []
unfolding after_get after_body
after_get-unchanged server spec test r body status read same = rw (status, read, same) refl

-- Setting a policy again sends no PUT: if the GET is answered by a document that holds the policy
-- which is set, in whatever order its members come, with fields of the server's own and times in its
-- template's entries, then an attempt that is not forced sends nothing more.
pub run_ism_set_again :
    (w : SetWorld) (server : Server) (f : SetFlags) (id : Bytes) (attempt : Unit {0} → Upserted)
    (policy : Members) (text : Bytes) (r : Response) (body : Bytes)
    → GivesMaps w.lib
    → prepare_set w f id ≡ ok (policy, text)
    → run_ism_set w server f id ≡ ok attempt
    → f.force ≡ false
    → server.get_reply ≡ responded r
    → r.status ≡ 200
    → read_all r.body ≡ ok body
    → IsHeld w.lib body policy
    → puts (attempt tt).0 ≡ []
unfolding run_ism_set
run_ism_set_again w server f id attempt policy text r body gives_maps prepared ran unforced reply
      good read held =
    let made = prepare_set-IsPrepared w f id (policy, text) prepared in
    let spec = put_spec id text in
    let upserts : upsert server spec (hook_of w f policy) ≡ ok attempt = rw prepared at ran in
    let hook : hook_of w f policy ≡ some (policy_unchanged w.lib policy) = rw unforced refl in
    let test = policy_unchanged w.lib policy in
    ap (λ (o : Upserted). puts o.0)
      (upsert-after_get server spec (hook_of w f policy) attempt upserts)
    ∙ ap (λ hook. puts (after_get server spec hook server.get_reply).0) hook
    ∙ ap (λ answer. puts (after_get server spec (some test) answer).0) reply
    ∙ after_get-unchanged server spec test r body good read (
        (policy_unchanged-IsHeld-iff w.lib gives_maps made.raw.0 f.targets f.priority policy body
            made.built).1
          held)
