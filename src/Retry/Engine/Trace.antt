-- ===== src/Retry/Engine/Trace.antt =====
-- Sums over the events of a run, and the steps of a turn.
use opensearch_api.Prelude.{
  List, Option, [], arith, inl, inr, map, refl, ℕ, ◌++◌, ◌+◌, ◌∷◌, ◌≡◌, ◌⊎◌,
}
use opensearch_api.Retry.Attempt.{Event, Step, again, attempted, finish, warned}
use opensearch_api.Retry.Body.{Response}
use opensearch_api.Errors.{Err}
use opensearch_api.Retry.Classify.{Outcome, Warning, retry, success, terminal}

module _ (weight : Event → ℕ) where
  abbrev pub tally : List Event → ℕ
  tally [] = 0
  tally (x ∷ events) = weight x + tally events

  pub tally-append : (xs ys : List Event) → tally (xs ++ ys) ≡ tally xs + tally ys
  tally-append [] ys = omega arith
  tally-append (x ∷ xs) ys = omega (arith, tally-append xs ys)

  pub tally-warned :
      ((w : Warning) → weight (warned w) ≡ 0) → (ws : List Warning) → tally (map warned ws) ≡ 0
  tally-warned quiet [] = refl
  tally-warned quiet (w ∷ ws) = omega (arith, quiet w, tally-warned quiet ws)

pub Step-cases :
    (s : Step) → (s ≡ again) ⊎ ((r : Option Response) × (x : Option Err) × (s ≡ finish r x))
Step-cases again = inl refl
Step-cases (finish r x) = inr (r, x, refl)

pub Outcome-cases : (o : Outcome) → (o ≡ success) ⊎ ((o ≡ terminal) ⊎ (o ≡ retry))
Outcome-cases success = inl refl
Outcome-cases terminal = inr (inl refl)
Outcome-cases retry = inr (inr refl)

abbrev pub is_attempt : Event → ℕ
is_attempt (attempted n b) = 1
is_attempt _ = 0

abbrev pub count_attempts : List Event → ℕ
count_attempts = tally is_attempt
