-- ===== src/Runbook/Load/Captured.antt =====
-- The captures that parseCaptures of internal/runbook/runbook.go accepts.

use opensearch_api.Prelude.{
  >>=-eq-ok, All, List, Option, guard, guard-eq-ok, map_err, none, ok, ok-injective, some, subst,
  true, ◌≡◌,
}
use opensearch_api.Runbook.Load.Node.{
  Node, Nodes, content_of, is_mapping, kind_of, more_nodes, no_nodes, value_of,
}
use opensearch_api.Runbook.Capture.{Capture}
use opensearch_api.Runbook.Load.Checks.{
  Outside, Ref, bad_capture, bad_capture_name, captures_not_mapping, is_capture_name, parse_capture,
  parse_captures, parse_pairs,
}

parse_pairs-All :
    (outside : Outside) (ref : Ref) (content : Nodes) (captures : List Capture)
    → parse_pairs outside ref content ≡ ok captures
    → All (λ c. is_capture_name c.name ≡ true) captures
unfolding parse_pairs parse_capture
parse_pairs-All outside ref no_nodes captures h = subst (All _) (ok-injective h) tt
parse_pairs-All outside ref (more_nodes name no_nodes) captures h =
    subst (All _) (ok-injective h) tt
parse_pairs-All outside ref (more_nodes name (more_nodes expr rest)) captures h =
    let (first, h1, r1) =
      >>=-eq-ok (parse_capture outside ref (value_of name) (value_of expr)) _ h in
    let (others, h2, r2) = >>=-eq-ok (parse_pairs outside ref rest) _ r1 in
    let (_, h3, r3) =
      >>=-eq-ok (guard (is_capture_name (value_of name)) (bad_capture_name ref (value_of name))) _
        h1 in
    let (code, h4, r4) =
      >>=-eq-ok
        (map_err (bad_capture ref (value_of name)) (outside.compile_capture (value_of expr))) _
        r3 in
    let e : first.name ≡ value_of name = cc (ok-injective r4) in
    subst (All (λ c. is_capture_name c.name ≡ true)) (ok-injective r2)
      (rw e (guard-eq-ok _ _ h3), parse_pairs-All outside ref rest others h2)

pub parse_captures-All :
    (outside : Outside) (ref : Ref) (item : Option Node) (captures : List Capture)
    → parse_captures outside ref item ≡ ok captures
    → All (λ c. is_capture_name c.name ≡ true) captures
unfolding parse_captures
parse_captures-All outside ref none captures h = subst (All _) (ok-injective h) tt
parse_captures-All outside ref (some item) captures h =
    let (_, h1, r1) =
      >>=-eq-ok (guard (is_mapping (kind_of item)) (captures_not_mapping ref)) _ h in
    parse_pairs-All outside ref (content_of item) captures r1
