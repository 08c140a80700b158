-- ===== src/Retry/Engine/Budget.antt =====
-- How many attempts a run makes, and that a run with a budget ends.
use opensearch_api.Prelude.{
  Bytes, List, Option, [], arith, err, false, inl, inr, length, none, ok, pos, refl, some, subst,
  suc, sym, ℕ, ◌+◌, ◌<◌, ◌∷◌, ◌≡◌, ◌≤◌,
}
use opensearch_api.Retry.Classify.{Engine, Outcome, Verdict, retry, success, terminal}
use opensearch_api.Retry.Engine.{
  Ending, act, decide, do_attempts, give_up, is_spent, judge, on_context, pending, proceed,
  returned, run_from, turn,
}
use opensearch_api.Retry.Attempt.{Received, Round, Step, again, finish}
use opensearch_api.Errors.{Err}
use opensearch_api.Retry.Body.{Response}
use opensearch_api.Retry.Backoff.{FloatOps}
use opensearch_api.Retry.Engine.Trace.{Step-cases, count_attempts, is_attempt, tally-append}
use opensearch_api.Retry.Engine.Quiet.{tally-turn}

abbrev IsAgain : Step → Type 0
IsAgain again = Unit
IsAgain (finish response error) = ⊥

module _ (f : FloatOps) (e : Engine) (n : ℕ) (round : Round) (got : Received) where
  give_up-ne-again : (reason : Bytes) → IsAgain (give_up e.cfg n got reason).1 → ⊥
  unfolding give_up
  give_up-ne-again reason h = ground arith

  act_again :
      (o : Outcome × Bytes)
      → IsAgain (act f e n round got o).1
      → is_spent e.cfg.max_retries n ≡ false
  unfolding act
  act_again (success, reason) h = absurd h
  act_again (terminal, reason) h = absurd h
  act_again (retry, reason) h = ground (arith, give_up-ne-again reason)

  decide_again :
      (v : Verdict) → IsAgain (decide f e n round got v).1 → is_spent e.cfg.max_retries n ≡ false
  unfolding decide
  decide_again (err c) h = absurd h
  decide_again (ok o) h = act_again o h

  on_context_again :
      (c : Option Err)
      → IsAgain (on_context f e n round got c).1
      → is_spent e.cfg.max_retries n ≡ false
  unfolding on_context judge
  on_context_again (some c) h = absurd h
  on_context_again none h = decide_again _ h

-- Only a turn within the budget is followed by another.
turn_again :
    (f : FloatOps) (e : Engine) (n : ℕ) (round : Round)
    → (turn f e n round).1 ≡ again
    → is_spent e.cfg.max_retries n ≡ false
unfolding turn
turn_again f e n round h = on_context_again f e n round _ _ (subst IsAgain (sym h) tt)

-- A turn makes one attempt.
turn_attempts :
    (f : FloatOps) (e : Engine) (n : ℕ) (round : Round) → count_attempts (turn f e n round).0 ≡ 1
turn_attempts f e n round =
    tally-turn is_attempt
      (record {
        warned = λ w. refl;
        drained = λ k. refl;
        closed = λ k. refl;
        notified = λ i. refl;
        slept = λ d. refl;
      })
      f e n round

is_spent-pos : (k n : ℕ) → is_spent (pos k) n ≡ false → n ≤ k
unfolding is_spent
is_spent-pos k n h = ground arith

-- Where a run that counts its attempts from `n` ends: at the last attempt that it made, or with
-- every round used up.
abbrev pub EndsAfter : ℕ → ℕ → ℕ → Ending → Type 0
EndsAfter n made rounds (returned m response error) = suc m ≡ n + made
EndsAfter n made rounds pending = made ≡ rounds

EndsAfter-suc :
    (n made rounds : ℕ) (x : Ending)
    → EndsAfter (suc n) made rounds x
    → EndsAfter n (1 + made) (suc rounds) x
EndsAfter-suc n made rounds (returned m response error) h = omega arith
EndsAfter-suc n made rounds pending h = omega arith

abbrev pub IsReturned : Ending → Type 0
IsReturned (returned m response error) = Unit
IsReturned pending = ⊥

returned_parts :
    (made rounds : ℕ) (x : Ending)
    → IsReturned x
    → EndsAfter 1 made rounds x
    → (m : ℕ) × (response : Option Response) × (error : Option Err) × (x
        ≡ returned m response error)
      × (made ≡ m)
returned_parts made rounds (returned m response error) h counted =
    (m, response, error, refl, omega arith)
returned_parts made rounds pending h counted = absurd h

module _ (f : FloatOps) (e : Engine) where
  run_from_count :
      (n : ℕ) (rounds : List Round)
      → EndsAfter n
          (count_attempts (run_from f e n rounds).0)
          (length rounds)
          (run_from f e n rounds).1
  unfolding run_from proceed
  run_from_count n [] = refl
  run_from_count n (round ∷ rounds) = elim (Step-cases (turn f e n round).1) [
    | inl more ↦ rw more (
        rw (tally-append is_attempt, turn_attempts f e n round)
          (EndsAfter-suc n _ _ (run_from f e (suc n) rounds).1 (run_from_count (suc n) rounds)))
    | inr (r, x, done) ↦ rw (done, turn_attempts f e n round) (omega arith)
  ]

  run_from-IsReturned :
      (k n : ℕ) (rounds : List Round)
      → e.cfg.max_retries ≡ pos k
      → suc k < n + length rounds
      → n ≤ suc k
      → IsReturned (run_from f e n rounds).1
  unfolding run_from proceed
  run_from-IsReturned k n [] budget enough start = absurd (omega arith)
  run_from-IsReturned k n (round ∷ rounds) budget enough start =
      elim (Step-cases (turn f e n round).1) [
        | inl more ↦ rw more (
            run_from-IsReturned k (suc n) rounds budget (omega arith) (
              omega (
                arith,
                is_spent-pos k n
                    (subst (λ m. is_spent m n ≡ false) budget (turn_again f e n round more)),
              )))
        | inr (r, x, done) ↦ rw done tt
      ]

  run_from_le :
      (k n : ℕ) (rounds : List Round)
      → e.cfg.max_retries ≡ pos k
      → n ≤ suc k
      → n + count_attempts (run_from f e n rounds).0 ≤ suc (suc k)
  unfolding run_from proceed
  run_from_le k n [] budget start = omega arith
  run_from_le k n (round ∷ rounds) budget start = elim (Step-cases (turn f e n round).1) [
    | inl more ↦
        let within =
          is_spent-pos k n
            (subst (λ m. is_spent m n ≡ false) budget (turn_again f e n round more)) in
        rw (more, tally-append is_attempt, turn_attempts f e n round)
          (omega (arith, run_from_le k (suc n) rounds budget (omega arith)))
    | inr (r, x, done) ↦ rw (done, turn_attempts f e n round) (omega arith)
  ]

  -- A budget of `k` retries allows no more than `k + 1` attempts, whatever the world answers.
  pub do_attempts-le :
      (k : ℕ) (rounds : List Round)
      → e.cfg.max_retries ≡ pos k
      → count_attempts (do_attempts f e rounds).0 ≤ suc k
  unfolding do_attempts
  do_attempts-le k rounds budget = omega (arith, run_from_le k 1 rounds budget (omega arith))

  -- A run with a budget of `k` retries ends: given an answer to each of `k + 1` attempts it returns,
  -- and the attempt at which it returns is the last of those that it made.
  pub do_attempts_total :
      (k : ℕ) (rounds : List Round)
      → e.cfg.max_retries ≡ pos k
      → suc k ≤ length rounds
      → (m : ℕ) × (response : Option Response) × (error : Option Err) × ((do_attempts f e rounds).1
          ≡ returned m response error)
        × (count_attempts (do_attempts f e rounds).0 ≡ m)
        × (m ≤ suc k)
  unfolding do_attempts
  do_attempts_total k rounds budget enough =
      let ends = run_from-IsReturned k 1 rounds budget (omega arith) (omega arith) in
      let counted = run_from_count 1 rounds in
      let (m, response, error, e', made) =
        returned_parts _ _ (run_from f e 1 rounds).1 ends counted in
      (m, response, error, e', made, omega (arith, run_from_le k 1 rounds budget (omega arith)))
