-- ===== src/Runbook/Template/Path.antt =====
-- What substitutePath of capture.go promises: a captured value cannot change the shape of a path.
use opensearch_api.Prelude.{
  Bool, Bool-cases, Bytes, List, [], any, arith, err, false, if◌then◌else◌, inl, inr, is_one_of, ok,
  ok-injective, refl, split_on, suc, sym, true, ℕ, ◌++◌, ◌+◌, ◌==◌, ◌||◌, ◌∷◌, ◌≡◌,
}
use opensearch_api.Runbook.Template.{
  PathError, Scanned, Store, check_segments, from_store_safely, is_dot_segment, is_path_safe,
  path_bytes, scan_template, store_get, substitute_path, write,
}
use opensearch_api.Runbook.Template.Pieces.{
  Piece, broken, pieces, ref, render, scan_template-pieces, text,
}

abbrev pub count : ℕ → Bytes → ℕ
count b [] = 0
count b (c ∷ s) = if c == b then suc (count b s) else count b s

-- How often the author of a template wrote a byte outside its references.
abbrev pub count_written : ℕ → List Piece → ℕ
count_written b [] = 0
count_written b (text t ∷ ps) = count b t + count_written b ps
count_written b (ref name ∷ ps) = count_written b ps
count_written b (broken i ∷ ps) = 0

abbrev pub has_refs : List Piece → Bool
has_refs [] = false
has_refs (text t ∷ ps) = has_refs ps
has_refs (ref name ∷ ps) = true
has_refs (broken i ∷ ps) = false

count-append : (b : ℕ) (s t : Bytes) → count b (s ++ t) ≡ count b s + count b t
count-append b [] t = omega arith
count-append b (c ∷ s) t = ground (arith, count-append b s t)

count-is_path_safe :
    (b : ℕ) (v : Bytes) → is_one_of path_bytes b ≡ true → is_path_safe v ≡ true → count b v ≡ 0
count-is_path_safe b [] hb h = refl
count-is_path_safe b (c ∷ v) hb h = ground (arith, count-is_path_safe b v)

-- What a scan that succeeds leaves: no more of the byte than was written, and the variable that says
-- whether there was a reference.
abbrev IsKept : ℕ → List Piece → Bool → Scanned Bool PathError → Type 0
IsKept b ps st (ok out, substituted) =
    (count b out ≡ count_written b ps) × (substituted ≡ (st || has_refs ps))
IsKept b ps st (err e, substituted) = Unit

write-IsKept :
    (b : ℕ) (t : Bytes) (ps : List Piece) (st : Bool) (r : Scanned Bool PathError)
    → IsKept b ps st r
    → IsKept b (text t ∷ ps) st (write t r)
write-IsKept b t ps st (ok out, substituted) (counts, flag) =
    (omega (arith, count-append b t out, counts), flag)
write-IsKept b t ps st (err e, substituted) _ = tt

resolve-IsKept :
    (b : ℕ) (name value : Bytes) (ps : List Piece) (st : Bool) (r : Scanned Bool PathError)
    → count b value ≡ 0
    → IsKept b ps true r
    → IsKept b (ref name ∷ ps) st (write value r)
resolve-IsKept b name value ps st (ok out, substituted) none_in (counts, flag) =
    (omega (arith, count-append b value out, none_in, counts), ground arith)
resolve-IsKept b name value ps st (err e, substituted) none_in _ = tt

module _ (store : Store) (b : ℕ) (special : is_one_of path_bytes b ≡ true) where
  render-IsKept :
      (ps : List Piece) (st : Bool) → IsKept b ps st (render (from_store_safely store) ps st)
  render-IsKept [] st = (refl, ground arith)
  render-IsKept (text t ∷ ps) st = write-IsKept b t ps st _ (render-IsKept ps st)
  render-IsKept (ref name ∷ ps) st = elim (Bool-cases (is_path_safe (store_get store name))) [
    | inl safe ↦ rw safe (
        resolve-IsKept b name (store_get store name) ps st _
          (count-is_path_safe b (store_get store name) special safe) (render-IsKept ps true))
    | inr unsafe ↦ rw unsafe tt
  ]
  render-IsKept (broken i ∷ ps) st = tt

-- What a path has after a substitution that succeeds: each byte that would change its shape as often
-- as the template wrote it, and no dot segment if a value was put in.
abbrev pub IsShaped : Bytes → Bytes → Type 0
IsShaped s out =
    ((b : ℕ) → is_one_of path_bytes b ≡ true → count b out ≡ count_written b (pieces s))
    × (has_refs (pieces s) ≡ true → any is_dot_segment (split_on b'/' out) ≡ false)

check_segments-substituted :
    (path out : Bytes)
    → check_segments (ok path, true) ≡ ok out
    → (path ≡ out) × (any is_dot_segment (split_on b'/' path) ≡ false)
unfolding check_segments
check_segments-substituted path out h = ground arith

check_segments-ok :
    (r : Scanned Bool PathError) (s out : Bytes)
    → check_segments r ≡ ok out
    → ((b : ℕ) → is_one_of path_bytes b ≡ true → IsKept b (pieces s) false r)
    → IsShaped s out
unfolding check_segments
check_segments-ok (err e, substituted) s out h kept = cc
check_segments-ok (ok path, false) s out h kept = (
  λ b special. rw (ok-injective (sym h)) (kept b special).0,
  λ refs. absurd (cc ((kept b'/' refl).1, refs)),
)
check_segments-ok (ok path, true) s out h kept =
    let (same, undotted) = check_segments-substituted path out h in
    (λ b special. rw (sym same) (kept b special).0, λ refs. rw (sym same) undotted)

-- A path that substitutePath gives has as many `/`, `?`, `#` and `%` as its template has outside
-- its references, and no segment `.` or `..` if the template has a reference.
pub substitute_path-IsShaped :
    (s : Bytes) (store : Store) (out : Bytes) → substitute_path s store ≡ ok out → IsShaped s out
unfolding substitute_path
substitute_path-IsShaped s store out h =
    check_segments-ok (scan_template (from_store_safely store) s false) s out h (λ b special.
      rw (scan_template-pieces (from_store_safely store) s false)
        (render-IsKept store b special (pieces s) false))
