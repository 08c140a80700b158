-- ===== src/Config/Env.antt =====
-- internal/config/env.go and envfile.go: environment lookups. A nil `EnvLookup` is `none`. The
-- parse of an env file is a third-party package's; LayeredEnv takes the map that it returns.
use opensearch_api.Errors.{Err, other, wrap}
use opensearch_api.Prelude.{
  Bytes, Option, Result, [], arith, codes, from_option, if◌then◌else◌, is_empty, map_err, none,
  some, ◌++◌, ◌>>=◌, ◌≡◌,
}

abbrev pub Lookup : Type 0
Lookup = Bytes → Option Bytes

abbrev pub EnvLookup : Type 0
EnvLookup = Option Lookup

-- `if v, ok := …; ok && v != ""`
unfoldable pub non_empty : Option Bytes → Option Bytes
non_empty none = none
non_empty (some v) = if is_empty v then none else some v

unfoldable pub lookup_env : EnvLookup → Bytes → Option Bytes
lookup_env none key = none
lookup_env (some env) key = non_empty (env key)

unfoldable pub env_endpoint : EnvLookup → Option Bytes
env_endpoint env = lookup_env env (codes "OPENSEARCH_URL")

unfoldable pub env_timeout : EnvLookup → Option Bytes
env_timeout env = lookup_env env (codes "OSAPI_TIMEOUT")

unfoldable pub env_username : EnvLookup → Option Bytes
env_username env = lookup_env env (codes "OPENSEARCH_USERNAME")

unfoldable pub env_password : EnvLookup → Option Bytes
env_password env = lookup_env env (codes "OPENSEARCH_PASSWORD")

from_base : EnvLookup → Bytes → Option Bytes
from_base none key = none
from_base (some base) key = base key

unfoldable pub layered_env : Lookup → EnvLookup → EnvLookup
unfolding from_base
layered_env file_vars base =
    some λ key. elim (non_empty (file_vars key)) [ some v ↦ some v | none ↦ from_base base key ]

-- The first of two values that is there.
unfoldable pub first_some : Option Bytes → Option Bytes → Option Bytes
first_some none second = second
first_some (some v) second = some v

-- An env file stands before the process environment, key by key, and an empty value in either is
-- as if it were not set.
pub lookup_env-layered_env :
    (file_vars : Lookup) (base : EnvLookup) (key : Bytes)
    → lookup_env (layered_env file_vars base) key
      ≡ first_some (lookup_env (some file_vars) key) (lookup_env base key)
unfolding lookup_env layered_env first_some non_empty
lookup_env-layered_env file_vars none key = ground arith
lookup_env-layered_env file_vars (some base) key = ground arith

abbrev pub malformed_env : Bytes → Err
malformed_env path = other (
    codes "parsing env file "
    ++ path
    ++ codes ": malformed contents (check for lines without '=' or unterminated quotes)")

-- `LoadEnvFile`. The read of a file and the parser of the third-party package are arguments; what the
-- parser says of a line that it refuses is not passed on.
unfoldable pub load_env_file :
    (Bytes → Result Err Bytes) → (Bytes → Option Lookup) → Bytes → Result Err Lookup
load_env_file read_file parse path = do
  text ← map_err (λ e. wrap (codes "reading env file " ++ path ++ codes ": ") e []) (read_file path)
  from_option (malformed_env path) (parse text)
