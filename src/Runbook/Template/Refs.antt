-- ===== src/Runbook/Template/Refs.antt =====
-- What the load-time check of references, checkRefs of runbook.go, promises for the run.
use opensearch_api.Prelude.{
  All, Bool-cases, Bytes, List, Option, [], ap, arith, err, false, inl, inr, none, ok, refl, some,
  subst, sym, ◌++◌, ◌↔◌, ◌∙◌, ◌∷◌, ◌≡◌,
}
use opensearch_api.Runbook.Template.{
  CapDecl, Declared, RefError, Scanned, Store, check_decl, check_refs, from_declared, from_store,
  resolve_then, scan_error, store_get, substitute, write,
}
use opensearch_api.Runbook.Template.Reads.{Reads, Reads-pieces, pieces-Reads}
use opensearch_api.Runbook.Template.Pieces.{
  Piece, broken, pieces, ref, render, scan_template-pieces, text,
}

-- A piece that a run can fill: no broken reference, and a name that a call declares which stops the
-- run when it fails.
abbrev pub IsFillable : Declared → Piece → Type 0
IsFillable declared (text t) = Unit
IsFillable declared (ref name) =
    (d : CapDecl) × (declared name ≡ some d) × (d.continue_on_failure ≡ false)
IsFillable declared (broken i) = ⊥

-- The text of a template whose references are replaced by stored values.
abbrev pub filled : Store → List Piece → Bytes
filled store [] = []
filled store (text t ∷ ps) = t ++ filled store ps
filled store (ref name ∷ ps) = store_get store name ++ filled store ps
filled store (broken i ∷ ps) = []

scan_error-write :
    {S E : Type 0} (t : Bytes) (r : Scanned S E) → scan_error (write t r) ≡ scan_error r
scan_error-write t (ok out, st) = refl
scan_error-write t (err e, st) = refl

scan_error-check_decl :
    (name : Bytes) (o : Option CapDecl) (rest : Unit {0} → Scanned (Unit {0}) RefError)
    → scan_error (resolve_then (check_decl name o, tt) rest) ≡ none
    → ((d : CapDecl) × (o ≡ some d) × (d.continue_on_failure ≡ false))
      × (scan_error (rest tt) ≡ none)
scan_error-check_decl name none rest h = cc
scan_error-check_decl name (some d) rest h = elim (Bool-cases d.continue_on_failure) [
  | inl tolerant ↦ ground arith
  | inr stops ↦ ((d, refl, stops), ground arith)
]

module _ (declared : Declared) where
  render-All :
      (ps : List Piece)
      → scan_error (render (from_declared declared) ps tt) ≡ none
      → All (IsFillable declared) ps
  render-All [] h = tt
  render-All (text t ∷ ps) h = (tt, render-All ps (sym (scan_error-write t _) ∙ h))
  render-All (ref name ∷ ps) h =
      let (declared_once, rest) =
        scan_error-check_decl name (declared name) (render (from_declared declared) ps) h in
      (declared_once, render-All ps rest)
  render-All (broken i ∷ ps) h = cc

  All-render :
      (ps : List Piece)
      → All (IsFillable declared) ps
      → scan_error (render (from_declared declared) ps tt) ≡ none
  All-render [] h = refl
  All-render (text t ∷ ps) (_, hs) = scan_error-write t _ ∙ All-render ps hs
  All-render (ref name ∷ ps) ((d, found, stops), hs) =
      rw (found, stops) (scan_error-write [] _ ∙ All-render ps hs)
  All-render (broken i ∷ ps) (h, hs) = absurd h

  check_refs-render :
      (s : Bytes)
      → check_refs s declared ≡ scan_error (render (from_declared declared) (pieces s) tt)
  unfolding check_refs
  check_refs-render s = ap scan_error (scan_template-pieces (from_declared declared) s tt)

  -- The check accepts a text exactly when all its pieces can be filled.
  pub check_refs-pieces :
      (s : Bytes) → (check_refs s declared ≡ none) ↔ All (IsFillable declared) (pieces s)
  check_refs-pieces s = (
    λ h. render-All (pieces s) (sym (check_refs-render s) ∙ h),
    λ h. check_refs-render s ∙ All-render (pieces s) h,
  )

  -- checkRefs accepts a text exactly when it reads, by the grammar of templates, as pieces of which
  -- none is a `${` without a `}` behind it, and each reference is to a capture that a call declared
  -- which does not continue on failure. An escaped `$${` is plain text in that grammar.
  pub check_refs_iff :
      (s : Bytes)
      → (check_refs s declared ≡ none)
        ↔ ((ps : List Piece) × Reads 0 s ps × All (IsFillable declared) ps)
  check_refs_iff s = (
    λ h. (pieces s, pieces-Reads s, (check_refs-pieces s).0 h),
    λ (ps, reads, fillable).
        (check_refs-pieces s).1
          (subst (All (IsFillable declared)) (Reads-pieces s ps reads) fillable),
  )

module _ (declared : Declared) (store : Store) where
  render-filled :
      (ps : List Piece)
      → All (IsFillable declared) ps
      → render (from_store store) ps tt ≡ (ok (filled store ps), tt)
  render-filled [] h = refl
  render-filled (text t ∷ ps) (_, hs) = rw (render-filled ps hs) refl
  render-filled (ref name ∷ ps) (_, hs) = rw (render-filled ps hs) refl
  render-filled (broken i ∷ ps) (h, hs) = absurd h

  -- A text that checkRefs accepted is filled at run time piece by piece, each reference by the value
  -- in the store: the error that substitute drops never comes up.
  pub check_refs-substitute :
      (s : Bytes) → check_refs s declared ≡ none → substitute s store ≡ filled store (pieces s)
  unfolding substitute
  check_refs-substitute s h =
      rw
        (
          scan_template-pieces (from_store store) s tt,
          render-filled (pieces s) ((check_refs-pieces declared s).0 h),
        )
        refl
