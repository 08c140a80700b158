-- ===== src/Apispec/Tests.antt =====
-- Lookups in a table of three paths, and a table that is generated.
use opensearch_api.Apispec.Gen.{
  Operation, Paths, body_fields, collect_endpoints, contains, endpoints_of, pick_json,
  pick_json_from, scalar_type,
}
use opensearch_api.Apispec.Gen.Table.{IsEntry, endpoints_of-IsEntry, item_of, lookup}
use opensearch_api.Prelude.{
  Bytes, IsSorted, List, [], codes, insert_by, none, refl, some, sort_by, sort_texts, split_on,
  to_upper, ◌∷◌, ◌≡◌,
}
use opensearch_api.Apispec.Match.{
  Endpoint, best_of, is_param, match_endpoint, match_segments, match_template, segments,
  take_better, trim_slash,
}
use opensearch_api.Apispec.Match.Best.{Answers, match_template-Answers}

abbrev table : List Endpoint
table =
    record { template = codes "/_cat/indices"; methods = codes "GET" ∷ [] }
    ∷ record { template = codes "/{index}/{id}"; methods = codes "PUT" ∷ [] }
    ∷ record { template = codes "/{index}/_doc"; methods = codes "POST" ∷ [] }
    ∷ []

literal_wins : match_template table (codes "logs/_doc") ≡ some (codes "/{index}/_doc")
unfolding match_template trim_slash split_on best_of take_better match_endpoint match_segments
    is_param
literal_wins = refl

match_template-Answers_example :
    Answers (segments (codes "logs/_doc")) table (match_template table (codes "logs/_doc"))
unfolding trim_slash
match_template-Answers_example = match_template-Answers table (codes "logs/_doc") refl

abbrev search_body : Operation
search_body = record {
  content = some (
      (
        codes "application/json",
        record {
          schema = some (record {
            types = codes "object" ∷ [];
            properties = some ((codes "size", some (codes "integer" ∷ [])) ∷ []);
          });
        },
      )
      ∷ []);
}

abbrev document : Paths
document =
    (codes "/b", (codes "put", record { content = none }) ∷ (codes "get", search_body) ∷ [])
    ∷ (codes "/none", [])
    ∷ (codes "/a", (codes "post", search_body) ∷ [])
    ∷ []

abbrev written_table : List Endpoint
written_table =
    record { template = codes "/a"; methods = codes "POST" ∷ [] }
    ∷ record { template = codes "/b"; methods = codes "GET" ∷ codes "PUT" ∷ [] }
    ∷ []

generates : endpoints_of document ≡ written_table
unfolding collect_endpoints endpoints_of insert_by sort_by sort_texts to_upper
generates = refl

scaffold :
    body_fields search_body ≡ record { name = codes "size"; type_name = codes "integer" } ∷ []
unfolding body_fields contains pick_json pick_json_from scalar_type
scaffold = refl

endpoints_of-IsEntry_example :
    IsSorted (λ ep. ep.template) (endpoints_of document)
    × ((t : Bytes) → IsEntry (item_of t document) (lookup t (endpoints_of document)))
endpoints_of-IsEntry_example = endpoints_of-IsEntry document (refl, (refl, (refl, tt)))
