-- ===== src/Cli/Ism/Reapply/Requests.antt =====
-- Which requests a reapply sends.
use opensearch_api.Prelude.{
  >>=-eq-ok, Bytes, List, Option, Option-cases, Result-cases, [], ap, err, inl, inr, map, none, ok,
  refl, some, suc, take, ℕ, ◌++◌, ◌∙◌, ◌∷◌, ◌≡◌, ◌⊎◌,
}
use opensearch_api.Errors.{Err}
use opensearch_api.Osclient.Address.{RequestSpec}
use opensearch_api.Cli.Ism.Session.{
  Exchange, Fetched, IsmEvent, fetch, fetch_exchange, no_indices_managed, predicate_failed,
  requested, shown, wrote,
}
use opensearch_api.Retry.Body.{Body}
use opensearch_api.Cli.Ism.Change.{
  ChangeResult, Changed, ReapplyWorld, after_decode, after_fetch, change_each, change_spec,
  events_then,
}

abbrev pub requests : List IsmEvent → List RequestSpec
requests [] = []
requests (requested spec ∷ events) = spec ∷ requests events
requests (_ ∷ events) = requests events

pub requests-append : (xs ys : List IsmEvent) → requests (xs ++ ys) ≡ requests xs ++ requests ys
requests-append [] ys = refl
requests-append (requested spec ∷ xs) ys = ap (λ l. spec ∷ l) (requests-append xs ys)
requests-append (wrote text ∷ xs) ys = requests-append xs ys
requests-append (no_indices_managed id ∷ xs) ys = requests-append xs ys
requests-append (predicate_failed text e ∷ xs) ys = requests-append xs ys

-- A request is sent unless it could not be built, and then there is no answer.
abbrev pub IsFetch : RequestSpec → Fetched → Type 0
IsFetch spec out =
    (requests out.0 ≡ spec ∷ []) ⊎ ((requests out.0 ≡ []) × ((e : Err) × (out.1 ≡ err e)))

requests-shown : (e : Option Err) (b : Option Body) → requests (shown e b) ≡ []
requests-shown none b = refl
requests-shown (some e) none = refl
requests-shown (some e) (some b) = refl

module _ (w : ReapplyWorld) where
  pub fetch-IsFetch :
      (spec : RequestSpec) (x : Exchange) → IsFetch spec (fetch w.print w.timeout w.build spec x)
  unfolding fetch fetch_exchange
  fetch-IsFetch spec x = elim (Option-cases (w.build spec)) [
    | inr (e, bad) ↦ rw bad (inr (refl, (e, refl)))
    | inl fine ↦ rw fine (inl (ap (λ l. spec ∷ l) (requests-shown x.do_err x.body)))
  ]

  abbrev pub posts : Bytes → List Bytes → List RequestSpec
  posts body indices = map (change_spec body) indices

  -- The requests for a beginning of the list, or for all of it if all went well.
  pub record IsPrefix (body : Bytes) (indices : List Bytes) (out : Changed) : Type 0 where
    pub count : ℕ
    pub sent : requests out.0 ≡ posts body (take count indices)
    pub all_sent :
        (results : List ChangeResult) → out.1 ≡ ok results → requests out.0 ≡ posts body indices

  requests-events_then :
      (events : List IsmEvent) (out : Changed)
      → requests (events_then events out).0 ≡ requests events ++ requests out.0
  requests-events_then events (more, out) = requests-append events more

  after_fetch-IsPrefix :
      (body index text : Bytes) (indices : List Bytes) (rest : Changed)
      → IsPrefix body indices rest
      → (count : ℕ) × (requests (after_fetch w index (ok text) rest).0
          ≡ posts body (take count indices))
        × ((results : List ChangeResult)
            → (after_fetch w index (ok text) rest).1 ≡ ok results
            → requests (after_fetch w index (ok text) rest).0 ≡ posts body indices)
  unfolding after_fetch after_decode
  after_fetch-IsPrefix body index text indices (events, out) prefix =
      elim (Result-cases (w.decode_change text)) [
        | inr (e, bad) ↦ rw bad (0, refl, λ results fine. absurd (cc))
        | inl (r, good) ↦ rw good (
          prefix.count,
          prefix.sent,
          λ results fine.
              let (others, made, _) = >>=-eq-ok out (λ rs. ok (r ∷ rs)) fine in
              prefix.all_sent others made,
        )
      ]

  joined :
      (events : List IsmEvent) (out : Changed) (first others : List RequestSpec)
      → requests events ≡ first
      → requests out.0 ≡ others
      → requests (events_then events out).0 ≡ first ++ others
  joined events out first others e e2 =
      requests-events_then events out ∙ ap (λ l. l ++ requests out.0) e ∙ ap (λ l. first ++ l) e2

  step-IsPrefix :
      (body index : Bytes) (indices : List Bytes) (fetched : Fetched) (rest : Changed)
      → IsFetch (change_spec body index) fetched
      → IsPrefix body indices rest
      → IsPrefix body (index ∷ indices) (events_then fetched.0 (after_fetch w index fetched.1 rest))
  step-IsPrefix body index indices (events, err e) rest (inl sent) prefix = record {
    count = 1;
    sent =
        joined events (after_fetch w index (err e) rest) (change_spec body index ∷ []) [] sent
          (refused e);
    all_sent = λ results fine. absurd (never e fine);
  }
    where
      refused : (e : Err) → requests (after_fetch w index (err e) rest).0 ≡ []
      refused e = unfold after_fetch in refl

      never :
          {results : List ChangeResult} (e : Err)
          → (after_fetch w index (err e) rest).1 ≡ ok results
          → ⊥
      never e fine = unfold after_fetch in cc
  step-IsPrefix body index indices (events, err e) rest (inr (sent, _)) prefix = record {
    count = 0;
    sent = joined events (after_fetch w index (err e) rest) [] [] sent (unfold after_fetch in refl);
    all_sent = λ results fine. absurd (unfold after_fetch in cc);
  }
  step-IsPrefix body index indices (events, ok text) rest (inr (_, (e, bad))) prefix = absurd (cc)
  step-IsPrefix body index indices (events, ok text) rest (inl sent) prefix =
      let (count, more, all_more) = after_fetch-IsPrefix body index text indices rest prefix in
      let spec = change_spec body index ∷ [] in
      record {
        count = suc count;
        sent = joined events (after_fetch w index (ok text) rest) spec _ sent more;
        all_sent = λ results fine.
            joined events (after_fetch w index (ok text) rest) spec _ sent (all_more results fine);
      }

  pub change_each-IsPrefix :
      (body : Bytes) (i : ℕ) (indices : List Bytes)
      → IsPrefix body indices (change_each w body i indices)
  unfolding change_each
  change_each-IsPrefix body i [] = record {
    count = 0;
    sent = refl;
    all_sent = λ results fine. refl;
  }
  change_each-IsPrefix body i (index ∷ indices) =
      step-IsPrefix body index indices
        (fetch w.print w.timeout w.build (change_spec body index) (w.exchange i))
        (change_each w body (suc i) indices) (fetch-IsFetch (change_spec body index) (w.exchange i))
        (change_each-IsPrefix body (suc i) indices)
