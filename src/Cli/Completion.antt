-- ===== src/Cli/Completion.antt =====
-- internal/cli/completion.go: what the shell is offered for --path and --method.
use opensearch_api.Prelude.{Bool, Bytes, List, Option, [], codes, if◌then◌else◌, some, ◌∷◌}
use opensearch_api.Apispec.Match.{Endpoint, methods_for}
use opensearch_api.Apispec.Suggest.{suggest}

abbrev pub standard_methods : List Bytes
standard_methods =
    codes "GET" ∷ codes "POST" ∷ codes "PUT" ∷ codes "DELETE" ∷ codes "HEAD" ∷ codes "PATCH" ∷ []

-- The method counts only when its flag was set.
unfoldable pub complete_path : List Endpoint → Bool → Bytes → Bytes → List Bytes
complete_path paths method_changed method to_complete =
    suggest paths to_complete (if method_changed then method else [])

-- The methods of a template, or the standard ones where there are none.
abbrev pub or_standard : Option (List Bytes) → List Bytes
or_standard (some (m ∷ methods)) = m ∷ methods
or_standard _ = standard_methods

unfoldable pub complete_method : List Endpoint → Bytes → List Bytes
complete_method paths path = or_standard (methods_for paths path)
