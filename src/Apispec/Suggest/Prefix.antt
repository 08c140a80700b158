-- ===== src/Apispec/Suggest/Prefix.antt =====
-- Every suggestion goes on from what was typed.
use opensearch_api.Prelude.{
  All, All-append, Bool, Bool-cases, Bytes, List, [], any, append_assoc, arith, bytes_eq, codes,
  drop, false, has_prefix, inl, inr, is_empty, length, not, refl, subst, to_upper, true, ◌&&◌, ◌++◌,
  ◌||◌, ◌∷◌, ◌≡◌,
}
use opensearch_api.Apispec.Match.{Endpoint, trim_slash}
use opensearch_api.Apispec.Suggest.{
  accepts, add_candidate, add_new, candidates, insert_text, last_segment, mirror_slash,
  next_segment, sort_texts, suggest, text_leb, typed_candidate, with_slash,
}

abbrev pub Extends : Bytes → Bytes → Type 0
Extends typed s = has_prefix s typed ≡ true

has_prefix-append : (s t : Bytes) → has_prefix (s ++ t) s ≡ true
has_prefix-append [] t = refl
has_prefix-append (c ∷ s) t = ground (arith, has_prefix-append s t)

has_prefix-append_both : (s t u : Bytes) → has_prefix ((s ++ t) ++ u) s ≡ true
has_prefix-append_both s t u = rw (append_assoc s t u) (has_prefix-append s (t ++ u))

typed_candidate-Extends : (typed tmpl : Bytes) → Extends typed (typed_candidate typed tmpl)
unfolding with_slash
typed_candidate-Extends typed tmpl =
    let out = next_segment (drop (length typed) tmpl) in
    elim (Bool-cases (out.1 && not (has_prefix (last_segment (typed ++ out.0)) (codes "{")))) [
      | inl slash ↦ rw slash (has_prefix-append_both typed out.0 (b'/' ∷ []))
      | inr plain ↦ rw plain (has_prefix-append typed out.0)
    ]

module _ (whole : Bytes) where
  insert_text-All :
      (s : Bytes) (ts : List Bytes)
      → Extends whole s
      → All (Extends whole) ts
      → All (Extends whole) (insert_text s ts)
  insert_text-All s [] h hs = (h, tt)
  insert_text-All s (t ∷ ts) h (ht, hs) = elim (Bool-cases (text_leb s t)) [
    | inl first ↦ rw first (h, (ht, hs))
    | inr later ↦ rw later (ht, insert_text-All s ts h hs)
  ]

  sort_texts-All : (ts : List Bytes) → All (Extends whole) ts → All (Extends whole) (sort_texts ts)
  unfolding sort_texts
  sort_texts-All [] h = tt
  sort_texts-All (t ∷ ts) (h, hs) = insert_text-All t (sort_texts ts) h (sort_texts-All ts hs)

  add_new-All :
      (out : List Bytes) (s : Bytes)
      → All (Extends whole) out
      → Extends whole s
      → All (Extends whole) (add_new out s)
  add_new-All out s hs h = elim (Bool-cases (any (λ seen. bytes_eq seen s) out)) [
    | inl old ↦ rw old hs
    | inr new ↦ rw new (All-append (Extends whole) out (s ∷ []) hs (h, tt))
  ]

-- What was typed, with the slash that it may begin with.
mirror_slash-trim_slash :
    (typed : Bytes) → mirror_slash (has_prefix typed (codes "/")) (trim_slash typed) ≡ typed
unfolding trim_slash
mirror_slash-trim_slash [] = refl
mirror_slash-trim_slash (c ∷ s) = ground arith

mirror_slash-Extends :
    (leading : Bool) (typed s : Bytes)
    → Extends typed s
    → Extends (mirror_slash leading typed) (mirror_slash leading s)
mirror_slash-Extends true typed s h = h
mirror_slash-Extends false typed s h = h

add_candidate-All :
    (leading : Bool) (typed method : Bytes) (out : List Bytes) (ep : Endpoint)
    → All (Extends (mirror_slash leading typed)) out
    → All (Extends (mirror_slash leading typed)) (add_candidate leading typed method out ep)
unfolding add_candidate
add_candidate-All leading typed method out ep h =
    let tmpl = trim_slash ep.template in
    elim (Bool-cases (not (accepts method ep) || not (has_prefix tmpl typed))) [
      | inl skipped ↦ rw skipped h
      | inr taken ↦ elim (Bool-cases (is_empty (typed_candidate typed tmpl))) [
        | inl empty ↦ rw (taken, empty) h
        | inr some_candidate ↦
            rw (taken, some_candidate)
              (add_new-All (mirror_slash leading typed) out _ h
                (mirror_slash-Extends leading typed _ (typed_candidate-Extends typed tmpl)))
      ]
    ]

candidates-All :
    (leading : Bool) (typed method : Bytes) (out : List Bytes) (eps : List Endpoint)
    → All (Extends (mirror_slash leading typed)) out
    → All (Extends (mirror_slash leading typed)) (candidates leading typed method out eps)
unfolding candidates
candidates-All leading typed method out [] h = h
candidates-All leading typed method out (ep ∷ eps) h =
    candidates-All leading typed method (add_candidate leading typed method out ep) eps
      (add_candidate-All leading typed method out ep h)

-- Every completion that Suggest gives starts with the very text that was typed, its leading slash
-- included, so a shell keeps it.
pub suggest-All :
    (paths : List Endpoint) (typed method : Bytes)
    → All (Extends typed) (suggest paths typed method)
unfolding suggest
suggest-All paths typed method = sort_texts-All typed _ (
    subst
      (λ whole.
        All (Extends whole)
          (candidates (has_prefix typed (codes "/")) (trim_slash typed) (to_upper method) [] paths))
      (mirror_slash-trim_slash typed)
      (candidates-All (has_prefix typed (codes "/")) (trim_slash typed) (to_upper method) [] paths
        tt))
