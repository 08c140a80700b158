-- ===== src/Cli/Ism/Tests.antt =====
-- A policy that is set twice, and a reapply on two indices.
use opensearch_api.Cli.Request.Tests.{answered, request_flags}
use opensearch_api.Cli.Ism.Command.{IsmFlags, SetReplies}
use opensearch_api.Prelude.{
  Bool, Bytes, Result, [], codes, decimal, digits_from, equal_fold, err, false, format_int,
  insert_by, none, ok, ok-injective, pos, refl, some, sort_by, sort_texts, split_on, subst,
  to_lower, to_upper, true, ◌>>=◌, ◌↔◌, ◌∷◌, ◌≡◌,
}
use opensearch_api.Cli.Ism.Names.{
  IsSegment, ism_policies_path, ism_prefix, policy_path, policy_path-split_on, valid_name,
}
use opensearch_api.Cli.Ism.Value.{IsMaps, deep_equal, delete_member, get_member, set_member}
use opensearch_api.Osclient.Upsert.{
  Server, Upserted, after_body, after_get, put_if, upsert, with_condition,
}
use opensearch_api.Cli.Ism.Policy.{
  JsonLib, apply_targets, build_policy, decode_json, delete_members, ism_server_fields, marshal_raw,
  normalize_members, normalize_policy, policy_unchanged, stored_policy, strip_entries,
  target_template, template_entries, trim_right_newlines, with_template,
}
use opensearch_api.Osclient.Address.{read_body}
use opensearch_api.Cli.Ism.Managed.Entries.{IsManagement, managed_by-IsManagement}
use opensearch_api.Cli.Ism.Managed.{
  entry_policy_id, is_managed, managed_by, managed_names, read_map, read_policy_id, to_map,
}
use opensearch_api.Errors.{Err, other}
use opensearch_api.Json.{Items, Json, Members, arr, cons, end, member, nil, num, obj, str}
use opensearch_api.Osclient.Upsert.Conditions.{puts}
use opensearch_api.Retry.Body.{Response, read_all}
use opensearch_api.Retry.Attempt.{failed, responded}
use opensearch_api.Cli.Ism.Policy.Stored.{GivesMaps}
use opensearch_api.Cli.Ism.Held.{IsHeld}
use opensearch_api.Cli.Ism.Held.Unchanged.{policy_unchanged-IsHeld-iff}
use opensearch_api.Cli.Ism.Set.{
  SetFlags, SetWorld, prepare_set, put_spec, run_ism_set, run_ism_set_again,
}
use opensearch_api.Cli.Ism.Change.{ReapplyWorld}

policy_path-split_on_example :
    (split_on b'/' (policy_path (codes "logs"))
      ≡ codes "_plugins" ∷ codes "_ism" ∷ codes "policies" ∷ codes "logs" ∷ [])
    × IsSegment (codes "logs")
policy_path-split_on_example = policy_path-split_on (codes "policy id") (codes "logs") accepted
  where
    accepted : valid_name (codes "policy id") (codes "logs") ≡ ok tt
    accepted = unfold valid_name in refl

abbrev entry : Members
entry = member (codes "index_patterns") (arr nil) end

abbrev stamped : Items
stamped = cons (obj (member (codes "last_updated_time") (num (codes "1")) entry)) nil

abbrev about : Members
about = member (codes "description") (str (codes "d")) end

abbrev stored : Members
stored = member (codes "description") (str (codes "d")) (
    member (codes "policy_id") (str (codes "logs"))
      (member (codes "ism_template") (arr stamped) end))

abbrev doc : Members
doc = member (codes "policy") (obj stored) end

abbrev want : Members
want = member (codes "ism_template") (arr (cons (obj entry) nil)) about

-- Every text is that one document.
abbrev lib : JsonLib
lib = record { decode = λ raw. ok (obj doc, true); encode = λ v. ok (codes "{}\n") }

doc-IsMaps : IsMaps (obj doc)
doc-IsMaps = (
  (refl, tt),
  (
    ((refl, (refl, (refl, tt))), (tt, (tt, (((((refl, (refl, tt)), (tt, (tt, tt)))), tt), tt)))),
    tt,
  ),
)

lib-GivesMaps : GivesMaps lib
lib-GivesMaps raw v at_end h = subst (λ (p : Json × Bool). IsMaps p.0) (ok-injective h) doc-IsMaps

abbrev set_world : SetWorld
set_world = record {
  stdin = none;
  read_file = λ path. err (other path);
  lib = lib;
  session = ok tt;
}

abbrev flags : SetFlags
flags = record {
  body = codes "{}";
  targets = [];
  priority = pos 0;
  has_priority = false;
  force = false;
}

abbrev answer : Response
answer = record { status = 200; body = record { unread = codes "{}"; failure = none } }

abbrev server : Server
server = record {
  build = λ spec. none;
  get_reply = responded answer;
  put_reply = λ spec. failed (other []);
  decode_doc = λ body. ok (some (pos 1), some (pos 1));
}

builds : build_policy lib (codes "{}") [] (pos 0) ≡ ok want
unfolding apply_targets build_policy decode_json delete_member delete_members get_member
    ism_server_fields normalize_members normalize_policy set_member strip_entries template_entries
    with_template
builds = refl

same : policy_unchanged lib want (codes "{}") ≡ true
unfolding decode_json deep_equal delete_member delete_members get_member ism_server_fields
    normalize_members normalize_policy policy_unchanged set_member stored_policy strip_entries
    template_entries with_template
same = refl

policy_unchanged-IsHeld-iff_example :
    (policy_unchanged lib want (codes "{}") ≡ true) ↔ IsHeld lib (codes "{}") want
policy_unchanged-IsHeld-iff_example =
    policy_unchanged-IsHeld-iff lib lib-GivesMaps (codes "{}") [] (pos 0) want (codes "{}") builds

abbrev attempt : Unit {0} → Upserted
attempt _ =
    after_get server (put_spec (codes "logs") (codes "{}")) (some (policy_unchanged lib want))
      (responded answer)

prepares : prepare_set set_world flags (codes "logs") ≡ ok (want, codes "{}")
unfolding apply_targets build_policy decode_json delete_member delete_members get_member
    ism_server_fields marshal_raw normalize_members normalize_policy prepare_set read_body
    set_member strip_entries template_entries trim_right_newlines valid_name with_template
prepares = refl

sets : run_ism_set set_world server flags (codes "logs") ≡ ok attempt
unfolding after_body after_get apply_targets build_policy decimal decode_json deep_equal
    delete_member delete_members digits_from format_int get_member ism_policies_path ism_prefix
    ism_server_fields marshal_raw normalize_members normalize_policy policy_path policy_unchanged
    prepare_set put_if read_all read_body run_ism_set set_member stored_policy strip_entries
    target_template template_entries trim_right_newlines upsert valid_name with_condition
    with_template
sets = refl

held : IsHeld lib (codes "{}") want
held =
    (policy_unchanged-IsHeld-iff lib lib-GivesMaps (codes "{}") [] (pos 0) want (codes "{}")
        builds).0
      same

reads : read_all answer.body ≡ ok (codes "{}")
unfolding read_all
reads = refl

run_ism_set_again_example : puts (attempt tt).0 ≡ []
run_ism_set_again_example =
    run_ism_set_again set_world server flags (codes "logs") attempt want (codes "{}") answer
      (codes "{}") lib-GivesMaps prepares sets refl refl refl reads held

-- An explain body of three indices, of which two are managed by the policy.
abbrev managed : Bytes → Json
managed id = obj (member (codes "policy_id") (str id) end)

abbrev explain : Json
explain = obj (
    member (codes "b") (managed (codes "logs")) (
      member (codes "c") (managed (codes "metrics")) (
        member (codes "a") (managed (codes "logs"))
          (member (codes "total_managed_indices") (num (codes "3")) end))))

abbrev parse_explain : Bytes → Result Err Json
parse_explain body = ok explain

lists : managed_by parse_explain (other []) [] (codes "logs") ≡ ok (codes "a" ∷ (codes "b" ∷ []))
unfolding delete_member entry_policy_id equal_fold insert_by is_managed managed_by managed_names
    read_map read_policy_id set_member sort_by sort_texts to_lower to_map to_upper
lists = refl

managed_by-IsManagement_example :
    (all : Members) × ((parse_explain [] >>= read_map (other [])) ≡ ok all)
    × IsManagement (codes "logs") all (codes "a" ∷ (codes "b" ∷ []))
managed_by-IsManagement_example =
    managed_by-IsManagement parse_explain (other []) [] (codes "logs")
      (codes "a" ∷ (codes "b" ∷ [])) refl lists

abbrev reapply_world : ReapplyWorld
reapply_world = record {
  build = λ spec. none;
  exchange = λ i. record {
    body = some (record { unread = codes "{}"; failure = none });
    do_err = none;
    context = none;
  };
  print = λ d. [];
  timeout = pos 0;
  parse = parse_explain;
  mismatch = other [];
  lib = lib;
  decode_change =
      λ body. ok (record { updated_indices = pos 1; failures = false; failed_indices = [] });
  success_when = none;
  stdout_err = none;
  ctx_at_match = none;
  ctx_at_judge = none;
}

abbrev ism_flags : IsmFlags
ism_flags = record {
  conn = request_flags.conn;
  retry = request_flags.retry;
  env_file = [];
  verbose = false;
}

abbrev set_replies : SetReplies
set_replies = record { build = λ s spec. none; replies = λ s. (server, answered) ∷ [] }
