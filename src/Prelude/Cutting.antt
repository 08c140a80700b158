-- ===== src/Prelude/Cutting.antt =====
-- What `cut_at`, the cut of a text at the first byte of a kind, gives.
use Prim.Native.Nat.{ℕ}
use mathlib.Core.Path.{◌≡◌, refl, ap, ◌∙◌, subst}
use mathlib.Core.Bool.{false}
use mathlib.Core.Logic.{inl, inr}
use mathlib.Core.Option.{none, some}
use mathlib.Core.List.{◌++◌, [], ◌∷◌}
use native.Mathlib.Omega.{arith}
use opensearch_api.Prelude.Tests.{==_iff, Bool-cases, Option-cases, ◌==◌}
use opensearch_api.Prelude.Lists.{All}
use opensearch_api.Prelude.Text.{Bytes, cut_at}

pub cut_at-none : (b : ℕ) (s : Bytes) → cut_at b s ≡ none → All (λ c. (c == b) ≡ false) s
unfolding cut_at
cut_at-none b [] h = tt
cut_at-none b (c ∷ s) h = elim (Bool-cases (c == b)) [
  | inl here ↦ absurd (cc (rw here at h))
  | inr later ↦ elim (Option-cases (cut_at b s)) [
    | inl missing ↦ (later, cut_at-none b s missing)
    | inr (parts, there) ↦ absurd (cc (rw (later, there) at h))
  ]
]

-- What cutting at a byte leaves before and behind it.
pub cut_at-some :
    (b : ℕ) (s before after : Bytes)
    → cut_at b s ≡ some (before, after)
    → (s ≡ before ++ (b ∷ after)) × All (λ c. (c == b) ≡ false) before
unfolding cut_at
cut_at-some b [] before after h = absurd (cc)
cut_at-some b (c ∷ s) before after h = elim (Bool-cases (c == b)) [
  | inl here ↦
      let found : some ([], s) ≡ some (before, after) = rw here at h in
      let none_before : [] ≡ before = cc found in
      let same : s ≡ after = cc found in
      subst (λ t. (c ∷ s ≡ t ++ (b ∷ after)) × All (λ d. (d == b) ≡ false) t) none_before
        (ap (λ x. x ∷ s) ((==_iff c b).0 here) ∙ ap (λ t. b ∷ t) same, tt)
  | inr later ↦ elim (Option-cases (cut_at b s)) [
    | inl missing ↦ absurd (cc (rw (later, missing) at h))
    | inr ((before2, after2), there) ↦
        let found : some (c ∷ before2, after2) ≡ some (before, after) = rw (later, there) at h in
        let front : c ∷ before2 ≡ before = cc found in
        let same : after2 ≡ after = cc found in
        let (split, free) = cut_at-some b s before2 after2 there in
        subst (λ t. (c ∷ s ≡ t ++ (b ∷ after)) × All (λ d. (d == b) ≡ false) t) front
          (ap (λ t. c ∷ t) (split ∙ ap (λ t. before2 ++ (b ∷ t)) same), (later, free))
  ]
]

-- Text without the byte, then the byte: there it is cut.
pub cut_at-append :
    (b : ℕ) (before after : Bytes)
    → All (λ c. (c == b) ≡ false) before
    → cut_at b (before ++ (b ∷ after)) ≡ some (before, after)
unfolding cut_at
cut_at-append b [] after h = ground arith
cut_at-append b (c ∷ before) after (h, hs) = rw (cut_at-append b before after hs, h) refl

pub cut_at-none-back : (b : ℕ) (s : Bytes) → All (λ c. (c == b) ≡ false) s → cut_at b s ≡ none
unfolding cut_at
cut_at-none-back b [] h = refl
cut_at-none-back b (c ∷ s) (h, hs) = rw (cut_at-none-back b s hs, h) refl
