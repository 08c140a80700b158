-- ===== src/Runbook/Load/Node.antt =====
-- internal/runbook/runbook.go, reading a YAML node: rawNodeField, rawStringField, mappingHasKey,
-- checkAllowedKeys and the tables of keys. A node is as the YAML package parsed it.
use opensearch_api.Prelude.{
  Bool, Bytes, List, Option, [], arith, bytes_eq, codes, false, if◌then◌else◌, is_listed, is_some,
  none, not, refl, some, true, ℕ, ◌&&◌, ◌||◌, ◌∷◌, ◌≡◌,
}

-- `yaml.Kind`; `zero_kind` is that of a node that was never set.
pub data Kind : Type 0 where
  zero_kind document_kind sequence_kind mapping_kind scalar_kind alias_kind : Kind

-- `yaml.Node`: its kind, tag, value and line, and its content.
mutual
  pub data Node : Type 0 where
    node : Kind → Bytes → Bytes → ℕ → Nodes → Node

  pub data Nodes : Type 0 where
    no_nodes : Nodes
    more_nodes : Node → Nodes → Nodes

abbrev pub kind_of : Node → Kind
kind_of (node kind tag value line content) = kind

abbrev pub tag_of : Node → Bytes
tag_of (node kind tag value line content) = tag

abbrev pub value_of : Node → Bytes
value_of (node kind tag value line content) = value

abbrev pub line_of : Node → ℕ
line_of (node kind tag value line content) = line

abbrev pub content_of : Node → Nodes
content_of (node kind tag value line content) = content

abbrev pub is_zero_kind : Kind → Bool
is_zero_kind zero_kind = true
is_zero_kind _ = false

abbrev pub is_mapping : Kind → Bool
is_mapping mapping_kind = true
is_mapping _ = false

abbrev pub is_sequence : Kind → Bool
is_sequence sequence_kind = true
is_sequence _ = false

-- The loop over the pairs of a mapping's content; a key without a value ends it.
unfoldable pub pair_field : Nodes → Bytes → Option Node
pair_field no_nodes key = none
pair_field (more_nodes name no_nodes) key = none
pair_field (more_nodes name (more_nodes value rest)) key =
    let later = pair_field rest key in if bytes_eq (value_of name) key then some value else later

unfoldable pub raw_node_field : Node → Bytes → Option Node
raw_node_field item key =
    if is_mapping (kind_of item) then pair_field (content_of item) key else none

abbrev pub value_or_empty : Option Node → Bytes
value_or_empty none = []
value_or_empty (some value) = value_of value

unfoldable pub raw_string_field : Node → Bytes → Bytes
raw_string_field item key = value_or_empty (raw_node_field item key)

unfoldable pub has_pair : Nodes → Bytes → Bool
has_pair no_nodes key = false
has_pair (more_nodes name no_nodes) key = false
has_pair (more_nodes name (more_nodes value rest)) key =
    bytes_eq (value_of name) key || has_pair rest key

unfoldable pub mapping_has_key : Option Node → Bytes → Bool
mapping_has_key none key = false
mapping_has_key (some item) key = is_mapping (kind_of item) && has_pair (content_of item) key

-- The first key of a mapping that is not allowed.
unfoldable pub unknown_key : (Bytes → Bool) → Nodes → Option Bytes
unknown_key allowed no_nodes = none
unknown_key allowed (more_nodes name no_nodes) = none
unknown_key allowed (more_nodes name (more_nodes value rest)) =
    let later = unknown_key allowed rest in
    if allowed (value_of name) then later else some (value_of name)

unfoldable pub call_allowed_keys : List Bytes
call_allowed_keys =
    codes "name"
    ∷ codes "method"
    ∷ codes "path"
    ∷ codes "body"
    ∷ codes "query"
    ∷ codes "headers"
    ∷ codes "retry"
    ∷ codes "backoff"
    ∷ codes "backoff-initial"
    ∷ codes "backoff-max"
    ∷ codes "backoff-jitter"
    ∷ codes "abort-on"
    ∷ codes "retry-on"
    ∷ codes "retry-when"
    ∷ codes "success-when"
    ∷ codes "capture"
    ∷ codes "continue-on-failure"
    ∷ codes "max-body-buffer"
    ∷ []

unfoldable pub is_call_key : Bytes → Bool
is_call_key key = is_listed call_allowed_keys key

-- The keys of a call less name, path and capture.
unfoldable pub is_defaults_key : Bytes → Bool
is_defaults_key key =
    is_call_key key && not (is_listed (codes "name" ∷ codes "path" ∷ codes "capture" ∷ []) key)

-- `mappingHasKey` and `rawNodeField` agree on what a mapping has.
pub has_pair-is_some :
    (content : Nodes) (key : Bytes) → has_pair content key ≡ is_some (pair_field content key)
unfolding has_pair pair_field
has_pair-is_some no_nodes key = refl
has_pair-is_some (more_nodes name no_nodes) key = refl
has_pair-is_some (more_nodes name (more_nodes value rest)) key =
    ground (arith, has_pair-is_some rest key)
