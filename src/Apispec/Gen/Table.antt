-- ===== src/Apispec/Gen/Table.antt =====
-- What the table of paths that internal/apispec/gen/main.go writes has in it.
use opensearch_api.Prelude.{
  AreDistinct, Bool-cases, Bytes, IsSorted, List, Option, [], ap, arith, bytes_eq, bytes_eq_iff,
  bytes_eq_sound, bytes_leb, false, if◌then◌else◌, inl, inr, insert_by, insert_text, is_empty,
  is_listed, map, none, refl, some, sort_by, sort_by-IsSorted, sort_texts, sort_texts-IsSorted,
  subst, suc, sym, to_upper, ℕ, ◌∙◌, ◌∷◌, ◌≡◌,
}
use opensearch_api.Apispec.Match.{Endpoint}
use opensearch_api.Apispec.Gen.{PathItem, Paths, collect_endpoints, endpoints_of, methods_of}

-- The methods of a template in a table of endpoints.
abbrev pub lookup : Bytes → List Endpoint → Option (List Bytes)
lookup t [] = none
lookup t (ep ∷ rest) = if bytes_eq ep.template t then some ep.methods else lookup t rest

abbrev pub methods_or_none : PathItem → Option (List Bytes)
methods_or_none item = if is_empty item then none else some (methods_of item)

abbrev documented : Bytes → Paths → Option (List Bytes)
documented t [] = none
documented t ((template, item) ∷ rest) =
    if bytes_eq template t then methods_or_none item else documented t rest

-- The operations of a template in a document, none if it does not name the template.
abbrev pub item_of : Bytes → Paths → PathItem
item_of t [] = []
item_of t ((template, item) ∷ rest) = if bytes_eq template t then item else item_of t rest

-- How often a text stands in a list.
abbrev pub times : Bytes → List Bytes → ℕ
times m [] = 0
times m (x ∷ xs) = if bytes_eq x m then suc (times m xs) else times m xs

-- How many operations of a path have a method, in whatever case the document spells it.
abbrev pub operations : Bytes → PathItem → ℕ
operations m [] = 0
operations m ((method, op) ∷ rest) =
    if bytes_eq (to_upper method) m then suc (operations m rest) else operations m rest

-- What a table has for a path: nothing if it has no operations, and otherwise its methods, in order,
-- each as often as there are operations with it.
abbrev pub IsEntry : PathItem → Option (List Bytes) → Type 0
IsEntry [] entry = entry ≡ none
IsEntry (op ∷ item) entry =
    (methods : List Bytes) × (entry ≡ some methods)
    × IsSorted (λ s. s) methods
    × ((m : Bytes) → times m methods ≡ operations m (op ∷ item))

times-insert_text : (m x : Bytes) (xs : List Bytes) → times m (insert_text x xs) ≡ times m (x ∷ xs)
unfolding insert_text insert_by
times-insert_text m x [] = refl
times-insert_text m x (y ∷ ys) = ground (arith, times-insert_text m x ys)

times-sort_texts : (m : Bytes) (xs : List Bytes) → times m (sort_texts xs) ≡ times m xs
unfolding sort_texts sort_by insert_text
times-sort_texts m [] = refl
times-sort_texts m (x ∷ xs) =
    times-insert_text m x (sort_texts xs) ∙ ground (arith, times-sort_texts m xs)

times-operations :
    (m : Bytes) (item : PathItem) → times m (map (λ op. to_upper op.0) item) ≡ operations m item
times-operations m [] = refl
times-operations m ((method, op) ∷ rest) = ground (arith, times-operations m rest)

methods_of-IsEntry : (item : PathItem) → IsEntry item (methods_or_none item)
methods_of-IsEntry [] = refl
methods_of-IsEntry (op ∷ item) = (
  methods_of (op ∷ item),
  refl,
  sort_texts-IsSorted (map (λ op. to_upper op.0) (op ∷ item)),
  λ m. times-sort_texts m (map (λ op. to_upper op.0) (op ∷ item)) ∙ times-operations m (op ∷ item),
)

documented-IsEntry : (t : Bytes) (paths : Paths) → IsEntry (item_of t paths) (documented t paths)
documented-IsEntry t [] = refl
documented-IsEntry t ((template, item) ∷ rest) = elim (Bool-cases (bytes_eq template t)) [
  | inl same ↦ rw same (methods_of-IsEntry item)
  | inr apart ↦ rw apart (documented-IsEntry t rest)
]

abbrev pub templates : Paths → List Bytes
templates paths = map (λ path. path.0) paths

abbrev template_of_endpoint : Endpoint → Bytes
template_of_endpoint ep = ep.template

absent :
    (t : Bytes) (paths : Paths) → is_listed (templates paths) t ≡ false → documented t paths ≡ none
absent t [] h = refl
absent t ((template, item) ∷ rest) h = elim (Bool-cases (bytes_eq template t)) [
  | inl same ↦ absurd (ground (arith, h, same))
  | inr apart ↦ rw apart (absent t rest (rw apart at h))
]

lookup-insert_by :
    (t : Bytes) (ep : Endpoint) (eps : List Endpoint)
    → lookup ep.template eps ≡ none
    → lookup t (insert_by (λ e. e.template) ep eps) ≡ lookup t (ep ∷ eps)
unfolding insert_by
lookup-insert_by t ep [] fresh = refl
lookup-insert_by t ep (y ∷ ys) fresh = elim (Bool-cases (bytes_eq y.template ep.template)) [
  | inl same ↦ absurd (never (rw same at fresh))
  | inr apart ↦
      let ih = lookup-insert_by t ep ys (rw apart at fresh) in
      elim (Bool-cases (bytes_leb ep.template y.template)) [
        | inl before ↦ rw before refl
        | inr after ↦ elim (Bool-cases (bytes_eq y.template t)) [
          | inr other ↦ rw (after, other) ih
          | inl here ↦ elim (Bool-cases (bytes_eq ep.template t)) [
            | inr differ ↦ rw (after, here, differ) refl
            | inl both ↦ absurd (
                cc (
                  apart,
                  (bytes_eq_iff y.template ep.template).1
                      (bytes_eq_sound y.template t here ∙ sym (bytes_eq_sound ep.template t both)),
                ))
          ]
        ]
      ]
]
  where
    never : {ms : List Bytes} → some ms ≡ none → ⊥
    never h = cc

lookup-absent :
    (t : Bytes) (eps : List Endpoint)
    → is_listed (map template_of_endpoint eps) t ≡ false
    → lookup t eps ≡ none
lookup-absent t [] h = refl
lookup-absent t (ep ∷ eps) h = elim (Bool-cases (bytes_eq ep.template t)) [
  | inl same ↦ absurd (ground (arith, h, same))
  | inr apart ↦ rw apart (lookup-absent t eps (rw apart at h))
]

lookup-sort_by :
    (eps : List Endpoint)
    → AreDistinct (map template_of_endpoint eps)
    → (t : Bytes) → lookup t (sort_by (λ ep. ep.template) eps) ≡ lookup t eps
unfolding sort_by
lookup-sort_by [] h t = refl
lookup-sort_by (ep ∷ eps) (fresh, h) t =
    lookup-insert_by t ep (sort_by (λ e. e.template) eps)
      (lookup-sort_by eps h ep.template ∙ lookup-absent ep.template eps fresh)
    ∙ ap (λ o. if bytes_eq ep.template t then some ep.methods else o) (lookup-sort_by eps h t)

lookup-collect_endpoints :
    (t : Bytes) (paths : Paths)
    → AreDistinct (templates paths)
    → lookup t (collect_endpoints paths) ≡ documented t paths
unfolding collect_endpoints
lookup-collect_endpoints t [] h = refl
lookup-collect_endpoints t ((template, item) ∷ rest) (fresh, h) =
    let ih = lookup-collect_endpoints t rest h in
    elim (Bool-cases (bytes_eq template t)) [
      | inl same ↦
          let gone = absent t rest (
            subst (λ k. is_listed (templates rest) k ≡ false) (bytes_eq_sound template t same)
              fresh) in
          elim (Bool-cases (is_empty item)) [
            | inl empty ↦ rw (empty, same) (ih ∙ gone)
            | inr full ↦ rw (full, same) refl
          ]
      | inr apart ↦ elim (Bool-cases (is_empty item)) [
        | inl empty ↦ rw (empty, apart) ih
        | inr full ↦ rw (full, apart) ih
      ]
    ]

is_listed-collect_endpoints :
    (t : Bytes) (paths : Paths)
    → is_listed (templates paths) t ≡ false
    → is_listed (map template_of_endpoint (collect_endpoints paths)) t ≡ false
unfolding collect_endpoints
is_listed-collect_endpoints t [] h = refl
is_listed-collect_endpoints t ((template, item) ∷ rest) h =
    elim (Bool-cases (bytes_eq template t)) [
      | inl same ↦ absurd (ground (arith, h, same))
      | inr apart ↦
          let ih = is_listed-collect_endpoints t rest (rw apart at h) in
          elim (Bool-cases (is_empty item)) [
            | inl empty ↦ rw empty ih
            | inr full ↦ rw (full, apart) ih
          ]
    ]

collect_endpoints-AreDistinct :
    (paths : Paths)
    → AreDistinct (templates paths)
    → AreDistinct (map template_of_endpoint (collect_endpoints paths))
unfolding collect_endpoints
collect_endpoints-AreDistinct [] h = tt
collect_endpoints-AreDistinct ((template, item) ∷ rest) (fresh, h) =
    let ih = collect_endpoints-AreDistinct rest h in
    elim (Bool-cases (is_empty item)) [
      | inl empty ↦ rw empty ih
      | inr full ↦ rw full (is_listed-collect_endpoints template rest fresh, ih)
    ]

-- The table of paths that the generator writes is in the order of its templates, and has for each
-- template what the document says of it: nothing where it names no operation, and otherwise the methods
-- of the operations, in upper case, in order, and each as often as the document has it; the document
-- names no template twice.
pub endpoints_of-IsEntry :
    (paths : Paths)
    → AreDistinct (templates paths)
    → IsSorted (λ ep. ep.template) (endpoints_of paths)
      × ((t : Bytes) → IsEntry (item_of t paths) (lookup t (endpoints_of paths)))
unfolding endpoints_of
endpoints_of-IsEntry paths h = (
  sort_by-IsSorted (λ ep. ep.template) (collect_endpoints paths),
  λ t.
      let found =
        lookup-sort_by (collect_endpoints paths) (collect_endpoints-AreDistinct paths h) t
        ∙ lookup-collect_endpoints t paths h in
      subst (IsEntry (item_of t paths)) (sym found) (documented-IsEntry t paths),
)
