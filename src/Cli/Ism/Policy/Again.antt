-- ===== src/Cli/Ism/Policy/Again.antt =====
-- How often the hook of policyUnchanged of internal/cli/ism_policy.go says that a policy is unchanged.
use opensearch_api.Prelude.{Bytes, List, [], arith, false, refl, true, ◌∷◌, ◌≡◌, ◌≤◌}
use opensearch_api.Cli.Ism.Policy.{JsonLib, reports_of, unchanged_hook}
use opensearch_api.Json.{Members}

reports_of-reported :
    (lib : JsonLib) (want : Members) (bodies : List Bytes) → reports_of lib want bodies true ≡ 0
unfolding reports_of unchanged_hook
reports_of-reported lib want [] = refl
reports_of-reported lib want (body ∷ bodies) = ground (arith, reports_of-reported lib want bodies)

-- However many attempts find the policy unchanged, it is reported once.
pub reports_of-le :
    (lib : JsonLib) (want : Members) (bodies : List Bytes) → reports_of lib want bodies false ≤ 1
unfolding reports_of unchanged_hook
reports_of-le lib want [] = omega arith
reports_of-le lib want (body ∷ bodies) =
    ground (arith, reports_of-reported lib want bodies, reports_of-le lib want bodies)
