-- ===== src/Apispec/Match/Best.antt =====
-- MatchTemplate finds a template exactly when one fits, and none that fits has fewer parameters.
use opensearch_api.Prelude.{
  ==_refl, All, Any, Bool-cases, Bytes, List, Option, Option-cases, [], all, ap, arith, bytes_eq,
  bytes_eq_refl, bytes_eq_sound, false, if◌then◌else◌, inl, inr, is_empty, length, ltb, ltb→lt,
  none, refl, some, suc, true, ℕ, ◌==◌, ◌∷◌, ◌≡◌, ◌≤◌, ◌⊎◌,
}
use opensearch_api.Apispec.Match.{
  Best, Endpoint, best_of, is_param, match_endpoint, match_segments, match_template, segments,
  take_better, template_of, trim_slash,
}

-- A template fits a path segment by segment: a parameter fits anything.
abbrev pub Fits : List Bytes → List Bytes → Type 0
Fits [] [] = Unit
Fits [] (seg ∷ segs) = ⊥
Fits (t ∷ ts) [] = ⊥
Fits (t ∷ ts) (seg ∷ segs) = ((is_param t ≡ true) ⊎ (t ≡ seg)) × Fits ts segs

abbrev pub count_params : List Bytes → ℕ
count_params [] = 0
count_params (t ∷ ts) = if is_param t then suc (count_params ts) else count_params ts

match_segments_sound :
    (ts segs : List Bytes) (n : ℕ)
    → length ts ≡ length segs
    → match_segments ts segs ≡ some n
    → Fits ts segs × (n ≡ count_params ts)
unfolding match_segments
match_segments_sound [] [] n len h = (tt, ground arith)
match_segments_sound [] (seg ∷ segs) n len h = absurd (omega arith)
match_segments_sound (t ∷ ts) [] n len h = absurd (omega arith)
match_segments_sound (t ∷ ts) (seg ∷ segs) n len h = elim (Bool-cases (is_param t)) [
  | inl param ↦ elim (Option-cases (match_segments ts segs)) [
    | inl miss ↦ absurd (cc (rw (param, miss) at h))
    | inr (m, hit) ↦
        let (fits, count) = match_segments_sound ts segs m (omega (arith, len)) hit in
        let counted : some (suc m) ≡ some n = rw (param, hit) at h in
        ((inl param, fits), rw param (ground (arith, counted, count)))
  ]
  | inr literal ↦ elim (Bool-cases (bytes_eq t seg)) [
    | inl same ↦
        let (fits, count) =
          match_segments_sound ts segs n (omega (arith, len)) (rw (literal, same) at h) in
        ((inr (bytes_eq_sound t seg same), fits), rw literal count)
    | inr differ ↦ absurd (cc (rw (literal, differ) at h))
  ]
]

match_segments_complete :
    (ts segs : List Bytes) → Fits ts segs → match_segments ts segs ≡ some (count_params ts)
unfolding match_segments
match_segments_complete [] [] h = refl
match_segments_complete [] (seg ∷ segs) h = absurd h
match_segments_complete (t ∷ ts) [] h = absurd h
match_segments_complete (t ∷ ts) (seg ∷ segs) (inl param, fits) =
    rw (param, match_segments_complete ts segs fits) refl
match_segments_complete (t ∷ ts) (seg ∷ segs) (inr same, fits) = elim (Bool-cases (is_param t)) [
  | inl param ↦ rw (param, match_segments_complete ts segs fits) refl
  | inr literal ↦ rw (literal, same, bytes_eq_refl seg, match_segments_complete ts segs fits) refl
]

length-Fits : (ts segs : List Bytes) → Fits ts segs → length ts ≡ length segs
length-Fits [] [] h = refl
length-Fits [] (seg ∷ segs) h = absurd h
length-Fits (t ∷ ts) [] h = absurd h
length-Fits (t ∷ ts) (seg ∷ segs) (_, h) = ap suc (length-Fits ts segs h)

module _ (segs : List Bytes) where
  abbrev FitsEndpoint : Endpoint → Type 0
  FitsEndpoint ep = Fits (segments ep.template) segs

  abbrev params_of : Endpoint → ℕ
  params_of ep = count_params (segments ep.template)

  match_endpoint_sound :
      (ep : Endpoint) (n : ℕ)
      → match_endpoint segs ep ≡ some n
      → FitsEndpoint ep × (n ≡ params_of ep)
  unfolding match_endpoint
  match_endpoint_sound ep n h = elim (Bool-cases (length (segments ep.template) == length segs)) [
    | inl same ↦ match_segments_sound (segments ep.template) segs n (ground arith) (rw same at h)
    | inr differ ↦ absurd (cc (rw differ at h))
  ]

  match_endpoint_complete :
      (ep : Endpoint) → FitsEndpoint ep → match_endpoint segs ep ≡ some (params_of ep)
  unfolding match_endpoint
  match_endpoint_complete ep h =
      rw
        (
          length-Fits (segments ep.template) segs h,
          ==_refl (length segs),
          match_segments_complete (segments ep.template) segs h,
        )
        refl

  -- A number that is at most a cost, if there is one.
  abbrev pub AtMost : ℕ → Option ℕ → Type 0
  AtMost n none = Unit
  AtMost n (some m) = n ≤ m

  abbrev cost_of : Best → Option ℕ
  cost_of none = none
  cost_of (some (template, params)) = some params

  -- What the loop promises of its result, for the best template so far and the endpoints that it
  -- has still to see.
  abbrev IsBest : Best → List Endpoint → Best → Type 0
  IsBest best eps none = (best ≡ none) × All (λ ep. match_endpoint segs ep ≡ none) eps
  IsBest best eps (some (template, n)) =
      ((best ≡ some (template, n))
        ⊎ Any (λ ep. (ep.template ≡ template) × (match_endpoint segs ep ≡ some n)) eps)
      × (AtMost n (cost_of best) × All (λ ep. AtMost n (match_endpoint segs ep)) eps)

  IsBest-fresh :
      (best : Best) (ep : Endpoint) (p : ℕ) (eps : List Endpoint) (out : Best)
      → match_endpoint segs ep ≡ some p
      → ((n : ℕ) → n ≤ p → AtMost n (cost_of best))
      → IsBest (some (ep.template, p)) eps out
      → IsBest best (ep ∷ eps) out
  IsBest-fresh best ep p eps none c under (b, all) = cc
  IsBest-fresh best ep p eps (some (template, n)) c under (inl b, (least, all)) =
      (inr (inl (cc b, cc (b, c))), (under n least, (rw c least, all)))
  IsBest-fresh best ep p eps (some (template, n)) c under (inr a, (least, all)) =
      (inr (inr a), (under n least, (rw c least, all)))

  IsBest-kept :
      (best : Best) (ep : Endpoint) (eps : List Endpoint) (out : Best)
      → ((n : ℕ) → AtMost n (cost_of best) → AtMost n (match_endpoint segs ep))
      → (best ≡ none → match_endpoint segs ep ≡ none)
      → IsBest best eps out
      → IsBest best (ep ∷ eps) out
  IsBest-kept best ep eps none over gone (b, all) = (b, (gone b, all))
  IsBest-kept best ep eps (some (template, n)) over gone (inl b, (least, all)) =
      (inl b, (least, (over n least, all)))
  IsBest-kept best ep eps (some (template, n)) over gone (inr a, (least, all)) =
      (inr (inr a), (least, (over n least, all)))

  IsBest-take_better :
      (best : Best) (ep : Endpoint) (cost : Option ℕ) (eps : List Endpoint) (out : Best)
      → match_endpoint segs ep ≡ cost
      → IsBest (take_better best ep cost) eps out
      → IsBest best (ep ∷ eps) out
  unfolding take_better
  IsBest-take_better best ep none eps out c h =
      IsBest-kept best ep eps out (λ n _. rw c tt) (λ _. c) h
  IsBest-take_better none ep (some p) eps out c h = IsBest-fresh none ep p eps out c (λ n _. tt) h
  IsBest-take_better (some (old, m)) ep (some p) eps out c h = elim (Bool-cases (ltb p m)) [
    | inl better ↦
        IsBest-fresh (some (old, m)) ep p eps out c
          (λ n under. omega (arith, under, ltb→lt p m better)) (rw better at h)
    | inr worse ↦
        IsBest-kept (some (old, m)) ep eps out (λ n least. rw c (ground (arith, least, worse)))
          (λ e. cc) (rw worse at h)
  ]

  best_of-IsBest : (best : Best) (eps : List Endpoint) → IsBest best eps (best_of segs best eps)
  unfolding best_of
  best_of-IsBest none [] = (refl, tt)
  best_of-IsBest (some (template, n)) [] = (inl refl, (omega arith, tt))
  best_of-IsBest best (ep ∷ eps) =
      IsBest-take_better best ep (match_endpoint segs ep) eps _ refl
        (best_of-IsBest (take_better best ep (match_endpoint segs ep)) eps)

  -- What the answer says: the template of an endpoint that fits the path with the fewest parameters,
  -- or that none fits.
  abbrev pub Answers : List Endpoint → Option Bytes → Type 0
  Answers paths none = All (λ ep. FitsEndpoint ep → ⊥) paths
  Answers paths (some template) =
      (n : ℕ) × Any (λ ep. (ep.template ≡ template) × (FitsEndpoint ep × (n ≡ params_of ep))) paths
      × All (λ ep. FitsEndpoint ep → n ≤ params_of ep) paths

  none_fit :
      (eps : List Endpoint)
      → All (λ ep. match_endpoint segs ep ≡ none) eps
      → All (λ ep. FitsEndpoint ep → ⊥) eps
  none_fit [] h = tt
  none_fit (ep ∷ eps) (h, hs) = (λ fits. cc (h, match_endpoint_complete ep fits), none_fit eps hs)

  fewest :
      (n : ℕ) (eps : List Endpoint)
      → All (λ ep. AtMost n (match_endpoint segs ep)) eps
      → All (λ ep. FitsEndpoint ep → n ≤ params_of ep) eps
  fewest n [] h = tt
  fewest n (ep ∷ eps) (h, hs) = (λ fits. rw (match_endpoint_complete ep fits) at h, fewest n eps hs)

  some_fits :
      (n : ℕ) (template : Bytes) (eps : List Endpoint)
      → Any (λ ep. (ep.template ≡ template) × (match_endpoint segs ep ≡ some n)) eps
      → Any (λ ep. (ep.template ≡ template) × (FitsEndpoint ep × (n ≡ params_of ep))) eps
  some_fits n template [] h = absurd h
  some_fits n template (ep ∷ eps) (inl (same, c)) = inl (same, match_endpoint_sound ep n c)
  some_fits n template (ep ∷ eps) (inr h) = inr (some_fits n template eps h)

  template_of-Answers :
      (paths : List Endpoint) (out : Best) → IsBest none paths out → Answers paths (template_of out)
  template_of-Answers paths none (b, all) = none_fit paths all
  template_of-Answers paths (some (template, n)) (inl b, h) = cc
  template_of-Answers paths (some (template, n)) (inr a, (_, all)) =
      (n, some_fits n template paths a, fewest n paths all)

-- For a path that is not empty or a slash, MatchTemplate gives a template of the table that fits it
-- segment by segment and has no more parameters than any other that fits; and it gives none only if
-- none fits.
pub match_template-Answers :
    (paths : List Endpoint) (path : Bytes)
    → is_empty (trim_slash path) ≡ false
    → Answers (segments path) paths (match_template paths path)
unfolding match_template
match_template-Answers paths path some_path =
    rw some_path
      (template_of-Answers (segments path) paths _ (best_of-IsBest (segments path) none paths))
