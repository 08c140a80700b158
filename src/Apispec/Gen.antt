-- ===== src/Apispec/Gen.antt =====
-- internal/apispec/gen/main.go: the generator of the tables of paths and of body fields, from an
-- OpenAPI document as the third-party reader gives it. The print of a quoted text is an argument.
pub mod Table
use opensearch_api.Prelude.{
  Bool, Bytes, List, Option, [], bytes_eq, codes, has_prefix, if◌then◌else◌, is_empty, is_listed,
  map, none, some, sort_by, sort_texts, to_upper, ◌++◌, ◌||◌, ◌∷◌,
}
use opensearch_api.Apispec.Match.{BodyField, Endpoint}

-- A schema as far as it is read: its types, and its properties with the types of their schemas, where
-- there are such.
pub record Schema : Type 0 where
  pub types : List Bytes
  pub properties : Option (List (Bytes × Option (List Bytes)))

pub record MediaType : Type 0 where
  pub schema : Option Schema

-- An operation's content by media type, if it has a body with content.
pub record Operation : Type 0 where
  pub content : Option (List (Bytes × MediaType))

-- The operations of a path by method.
abbrev pub PathItem : Type 0
PathItem = List (Bytes × Operation)

-- The paths of a document by template, in its order.
abbrev pub Paths : Type 0
Paths = List (Bytes × PathItem)

-- `strings.Contains`
unfoldable pub contains : Bytes → Bytes → Bool
contains [] part = is_empty part
contains (c ∷ s) part = has_prefix (c ∷ s) part || contains s part

abbrev pub or_first : Option MediaType → MediaType → Option MediaType
or_first none mt = some mt
or_first (some first) mt = some first

-- The loop of pickJSON.
unfoldable pub pick_json_from : Option MediaType → List (Bytes × MediaType) → Option MediaType
pick_json_from first [] = first
pick_json_from first ((media, mt) ∷ rest) =
    let later = pick_json_from (or_first first mt) rest in
    if contains media (codes "json") then some mt else later

unfoldable pub pick_json : List (Bytes × MediaType) → Option MediaType
pick_json content = pick_json_from none content

abbrev pub json_types : List Bytes
json_types =
    codes "string"
    ∷ codes "integer"
    ∷ codes "number"
    ∷ codes "boolean"
    ∷ codes "object"
    ∷ codes "array"
    ∷ []

unfoldable pub scalar_type : Option (List Bytes) → Bytes
scalar_type (some (t ∷ [])) = if is_listed json_types t then t else []
scalar_type _ = []

abbrev pub field_of : Bytes × Option (List Bytes) → BodyField
field_of (name, types) = record { name = name; type_name = scalar_type types }

abbrev pub properties_of : Option MediaType → List (Bytes × Option (List Bytes))
properties_of none = []
properties_of (some mt) = elim mt.schema [
  | none ↦ []
  | some schema ↦ elim schema.properties [ none ↦ [] | some properties ↦ properties ]
]

-- `bodyFields`, where no fields stand for nil.
unfoldable pub body_fields : Operation → List BodyField
body_fields op = elim op.content [
  | none ↦ []
  | some content ↦ map field_of (properties_of (pick_json content))
]

abbrev pub methods_of : PathItem → List Bytes
methods_of item = sort_texts (map (λ op. to_upper op.0) item)

-- The loop of writePaths: a path without operations is passed over.
unfoldable pub collect_endpoints : Paths → List Endpoint
collect_endpoints [] = []
collect_endpoints ((template, item) ∷ rest) =
    let later = collect_endpoints rest in
    if is_empty item
    then later
    else record { template = template; methods = methods_of item } ∷ later

unfoldable pub endpoints_of : Paths → List Endpoint
endpoints_of paths = sort_by (λ ep. ep.template) (collect_endpoints paths)

-- The map of writeBodies as a list, in which a key that is set again stands once.
abbrev pub Bodies : Type 0
Bodies = List (Bytes × List BodyField)

unfoldable pub set_fields : Bytes → List BodyField → Bodies → Bodies
set_fields key fields [] = (key, fields) ∷ []
set_fields key fields ((name, old) ∷ rest) =
    let others = set_fields key fields rest in
    if bytes_eq name key then (key, fields) ∷ rest else (name, old) ∷ others

unfoldable pub collect_operations : Bytes → PathItem → Bodies → Bodies
collect_operations template [] bodies = bodies
collect_operations template ((method, op) ∷ rest) bodies = collect_operations template rest (
    if is_empty (body_fields op)
    then bodies
    else set_fields (to_upper method ++ codes " " ++ template) (body_fields op) bodies)

unfoldable pub collect_bodies : Paths → Bodies → Bodies
collect_bodies [] bodies = bodies
collect_bodies ((template, item) ∷ rest) bodies =
    collect_bodies rest (collect_operations template item bodies)

unfoldable pub bodies_of : Paths → Bodies
bodies_of paths = sort_by (λ entry. entry.0) (collect_bodies paths [])

module _ (quote : Bytes → Bytes) where
  -- `quoteList`
  unfoldable pub quote_list : List Bytes → Bytes
  quote_list [] = []
  quote_list (s ∷ []) = quote s
  quote_list (s ∷ t ∷ rest) = quote s ++ codes ", " ++ quote_list (t ∷ rest)

  abbrev pub generated_header : Bytes
  generated_header =
      codes "// Code generated by internal/apispec/gen. DO NOT EDIT."
      ++ (10 ∷ 10 ∷ [])
      ++ codes "package apispec"
      ++ (10 ∷ 10 ∷ [])

  unfoldable pub endpoint_lines : List Endpoint → Bytes
  endpoint_lines [] = []
  endpoint_lines (ep ∷ rest) =
      (9 ∷ codes "{Template: ")
      ++ quote ep.template
      ++ codes ", Methods: []string{"
      ++ quote_list ep.methods
      ++ codes "}},"
      ++ (10 ∷ endpoint_lines rest)

  -- The text of writePaths before it is formatted.
  unfoldable pub write_paths : Paths → Bytes
  write_paths paths =
      generated_header
      ++ codes "var Paths = []Endpoint{"
      ++ (10 ∷ [])
      ++ endpoint_lines (endpoints_of paths)
      ++ codes "}"
      ++ (10 ∷ [])

  unfoldable pub field_texts : List BodyField → Bytes
  field_texts [] = []
  field_texts (f ∷ rest) =
      codes "{Name: "
      ++ quote f.name
      ++ codes ", Type: "
      ++ quote f.type_name
      ++ codes "}, "
      ++ field_texts rest

  unfoldable pub body_lines : Bodies → Bytes
  body_lines [] = []
  body_lines ((key, fields) ∷ rest) =
      (9 ∷ quote key) ++ codes ": {" ++ field_texts fields ++ codes "}," ++ (10 ∷ body_lines rest)

  -- The text of writeBodies before it is formatted.
  unfoldable pub write_bodies : Paths → Bytes
  write_bodies paths =
      generated_header
      ++ codes "var Bodies = map[string][]BodyField{"
      ++ (10 ∷ [])
      ++ body_lines (bodies_of paths)
      ++ codes "}"
      ++ (10 ∷ [])
