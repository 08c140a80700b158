-- ===== src/Runbook/Call/References.antt =====
-- What References of internal/runbook/runbook.go lists, which a dry run shows.
use opensearch_api.Prelude.{
  AreDistinct, Bool, Bool-cases, Bytes, IsSorted, List, [], ap, arith, bytes_eq, bytes_eq_sound,
  err, false, inl, inr, is_listed, is_listed-sort_texts, ok, refl, sort_texts-AreDistinct,
  sort_texts-IsSorted, sym, true, ◌||◌, ◌∙◌, ◌∷◌, ◌≡◌,
}
use opensearch_api.Runbook.Template.{Scanned, write}
use opensearch_api.Runbook.Template.Pieces.{
  Piece, broken, pieces, ref, render, scan_template-pieces, text,
}
use opensearch_api.Runbook.Call.{
  Call, collect, collect_all, from_nothing, header_values, note_name, query_values, references,
}

-- A reference to a name among the pieces of a text.
abbrev pub has_ref : Bytes → List Piece → Bool
has_ref name [] = false
has_ref name (text t ∷ ps) = has_ref name ps
has_ref name (ref other ∷ ps) = bytes_eq other name || has_ref name ps
has_ref name (broken i ∷ ps) = false

-- The names that are noted behind a text, with those before it.
abbrev pub Notes : (List Bytes → List Bytes) → (Bytes → Bool) → Type 0
Notes step mentions =
    (names : List Bytes)
    → AreDistinct names
    → AreDistinct (step names)
      × ((name : Bytes) → is_listed (step names) name ≡ (is_listed names name || mentions name))

write-state : {S E : Type 0} (t : Bytes) (r : Scanned S E) → (write t r).1 ≡ r.1
write-state t (ok out, st) = refl
write-state t (err e, st) = refl

is_listed-note_name :
    (name other : Bytes) (names : List Bytes)
    → is_listed (note_name name names) other ≡ (is_listed names other || bytes_eq name other)
is_listed-note_name name other names = elim (Bool-cases (bytes_eq name other)) [
  | inl same ↦ elim (Bool-cases (is_listed names name)) [
    | inl old ↦
        let e = bytes_eq_sound name other same in
        rw (old, same) (ap (is_listed names) (sym e) ∙ old ∙ sym (or_true (is_listed names other)))
    | inr new ↦ rw new (rw same (sym (or_true (is_listed names other))))
  ]
  | inr differ ↦ elim (Bool-cases (is_listed names name)) [
    | inl old ↦ rw (old, differ) (sym (or_false (is_listed names other)))
    | inr new ↦ rw new (rw differ (sym (or_false (is_listed names other))))
  ]
]
  where
    or_true : (b : Bool) → (b || true) ≡ true
    or_true true = refl
    or_true false = refl

    or_false : (b : Bool) → (b || false) ≡ b
    or_false true = refl
    or_false false = refl

note_name-AreDistinct :
    (name : Bytes) (names : List Bytes) → AreDistinct names → AreDistinct (note_name name names)
note_name-AreDistinct name names h = elim (Bool-cases (is_listed names name)) [
  | inl old ↦ rw old h
  | inr new ↦ rw new (new, h)
]

or_assoc : (a b c : Bool) → ((a || b) || c) ≡ (a || (b || c))
or_assoc true b c = refl
or_assoc false b c = refl

Notes-render :
    (ps : List Piece) → Notes (λ names. (render from_nothing ps names).1) (λ name. has_ref name ps)
Notes-render [] names h = (h, λ name. ground arith)
Notes-render (text t ∷ ps) names h =
    let (distinct, listed) = Notes-render ps names h in
    rw (write-state t (render from_nothing ps names)) (distinct, listed)
Notes-render (ref name ∷ ps) names h =
    let (distinct, listed) =
      Notes-render ps (note_name name names) (note_name-AreDistinct name names h) in
    rw (write-state [] (render from_nothing ps (note_name name names))) (
      distinct,
      λ other.
          listed other
          ∙ ap (λ b. b || has_ref other ps) (is_listed-note_name name other names)
          ∙ or_assoc (is_listed names other) (bytes_eq name other) (has_ref other ps),
    )
Notes-render (broken i ∷ ps) names h = (h, λ name. ground arith)

collect-render :
    (s : Bytes) (names : List Bytes) → collect s names ≡ (render from_nothing (pieces s) names).1
unfolding collect
collect-render s names = ap (λ out. out.1) (scan_template-pieces from_nothing s names)

Notes-collect : (s : Bytes) → Notes (collect s) (λ name. has_ref name (pieces s))
Notes-collect s names h = rw (collect-render s names) (Notes-render (pieces s) names h)

-- A text of the list refers to a name.
abbrev pub any_refers : List Bytes → Bytes → Bool
any_refers [] name = false
any_refers (s ∷ rest) name = has_ref name (pieces s) || any_refers rest name

Notes-then :
    (f g : List Bytes → List Bytes) (m n : Bytes → Bool)
    → Notes f m
    → Notes g n
    → Notes (λ names. g (f names)) (λ name. m name || n name)
Notes-then f g m n first second names h =
    let (d1, l1) = first names h in
    let (d2, l2) = second (f names) d1 in
    (
      d2,
      λ name.
          l2 name
          ∙ ap (λ b. b || n name) (l1 name)
          ∙ or_assoc (is_listed names name) (m name) (n name),
    )

Notes-collect_all : (texts : List Bytes) → Notes (collect_all texts) (any_refers texts)
unfolding collect_all
Notes-collect_all [] names h = (h, λ name. ground arith)
Notes-collect_all (s ∷ rest) names h =
    Notes-then (collect s) (collect_all rest) _ (any_refers rest) (Notes-collect s)
      (Notes-collect_all rest) names h

-- The texts of a call that a run fills.
abbrev pub refers : Call → Bytes → Bool
refers call name =
    has_ref name (pieces call.path)
    || (any_refers (query_values call.query) name
        || (any_refers (header_values call.headers) name || has_ref name (pieces call.body)))

-- References lists, in order and each once, exactly the names to which the call's path, query values,
-- header values and body refer.
pub references-refers :
    (call : Call)
    → IsSorted (λ s. s) (references call)
      × AreDistinct (references call)
      × ((name : Bytes) → is_listed (references call) name ≡ refers call name)
unfolding references
references-refers call =
    let query_step = collect_all (query_values call.query) in
    let header_step = collect_all (header_values call.headers) in
    let (distinct, listed) =
      Notes-then (collect call.path) (λ names. collect call.body (header_step (query_step names))) _
        _ (Notes-collect call.path)
        (Notes-then query_step (λ names. collect call.body (header_step names)) _ _
          (Notes-collect_all (query_values call.query))
          (Notes-then header_step (collect call.body) _ _
            (Notes-collect_all (header_values call.headers)) (Notes-collect call.body)))
        [] tt in
    (
      sort_texts-IsSorted _,
      sort_texts-AreDistinct _ distinct,
      λ name. is_listed-sort_texts _ name ∙ listed name,
    )
