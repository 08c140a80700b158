-- ===== src/Runbook/Load/Headers.antt =====
-- internal/runbook/runbook.go, mergeHeaders and headerOverridden: a call's headers over those of the
-- defaults. A map of the YAML file is the list of its pairs in the order in which it is walked.
use opensearch_api.Prelude.{
  Bool, Bytes, List, Option, [], arith, bytes_eq, false, if◌then◌else◌, is_some, none, refl, some,
  ◌||◌, ◌∙◌, ◌∷◌, ◌≡◌,
}
use opensearch_api.Osclient.Address.{Headers}
use opensearch_api.Osclient.Header.{canonical_key, header_get, header_get-header_set, header_set}

abbrev pub TextMap : Type 0
TextMap = List (Bytes × Bytes)

unfoldable pub set_all : TextMap → Headers → Headers
set_all [] headers = headers
set_all ((key, value) ∷ rest) headers = set_all rest (header_set key value headers)

unfoldable pub merge_headers : TextMap → TextMap → Headers
merge_headers defaults own = set_all own (set_all defaults [])

unfoldable pub header_overridden : TextMap → Bytes → Bool
header_overridden [] key = false
header_overridden ((name, value) ∷ own) key =
    bytes_eq (canonical_key name) (canonical_key key) || header_overridden own key

-- The value of the last pair whose name has a canonical spelling.
abbrev pub last_value : TextMap → Bytes → Option Bytes
last_value [] key = none
last_value ((name, value) ∷ rest) key = elim (last_value rest key) [
  | some later ↦ some later
  | none ↦ if bytes_eq (canonical_key name) key then some value else none
]

abbrev pub or_else : Option Bytes → Option Bytes → Option Bytes
or_else (some value) other = some value
or_else none other = other

abbrev pub as_values : Option Bytes → Option (List Bytes)
as_values none = none
as_values (some value) = some (value ∷ [])

abbrev pub or_values : Option Bytes → Option (List Bytes) → Option (List Bytes)
or_values (some value) other = some (value ∷ [])
or_values none other = other

header_get-set_all :
    (key : Bytes) (pairs : TextMap) (headers : Headers)
    → header_get key (set_all pairs headers)
      ≡ or_values (last_value pairs key) (header_get key headers)
unfolding set_all
header_get-set_all key [] headers = refl
header_get-set_all key ((name, value) ∷ rest) headers =
    header_get-set_all key rest (header_set name value headers)
    ∙ ground (arith, header_get-header_set key name value headers)

-- The header that a call sends under a name is the call's own, however its name is spelled there, else
-- that of the defaults.
pub header_get-merge_headers :
    (key : Bytes) (defaults own : TextMap)
    → header_get key (merge_headers defaults own)
      ≡ as_values (or_else (last_value own key) (last_value defaults key))
unfolding merge_headers header_get
header_get-merge_headers key defaults own =
    header_get-set_all key own (set_all defaults [])
    ∙ ground (arith, header_get-set_all key defaults [])

-- A header of the defaults is overridden exactly when the call has its own of that name.
pub header_overridden-is_some :
    (own : TextMap) (key : Bytes)
    → header_overridden own key ≡ is_some (last_value own (canonical_key key))
unfolding header_overridden
header_overridden-is_some [] key = refl
header_overridden-is_some ((name, value) ∷ own) key =
    ground (arith, header_overridden-is_some own key)
