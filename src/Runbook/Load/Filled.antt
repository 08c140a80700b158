-- ===== src/Runbook/Load/Filled.antt =====
-- What the loader's acceptance of a runbook means for a run of it.
use opensearch_api.Runbook.Call.{Call, register, register_all}
use opensearch_api.Runbook.Run.{empty_store, run}
use opensearch_api.Runbook.Run.Course.{Course, run-Course_when}
use opensearch_api.Prelude.{
  >>=-eq-ok, All, Bytes, List, [], ap, none, ok, ok-injective, refl, some, subst, ℕ, ◌++◌, ◌>>=◌,
  ◌∙◌, ◌∷◌, ◌≡◌,
}
use opensearch_api.Osclient.Header.{header_get}
use opensearch_api.Runbook.Template.{Declared, Store, check_refs}
use opensearch_api.Runbook.Sending.{CallWorld, Runner}
use opensearch_api.Runbook.Run.Reached.{
  IsFilledText, Reached, Reached-IsFilledText, nothing_declared,
}
use opensearch_api.Runbook.Load.Node.{Node, content_of}
use opensearch_api.Runbook.Load.Checks.{Outside}
use opensearch_api.Runbook.Load.Build.{Loader, load_call}
use opensearch_api.Runbook.Load.Doc.{
  Decoded, RunbookDoc, first_document, items_of, load, load_calls, load_defaults,
  reject_duplicate_names, reject_extra_documents, validate_calls_shape,
}
use opensearch_api.Runbook.Load.Accepted.{IsAccepted, load_call-IsAccepted}

-- A call of the list with the captures that were declared before it.
record IsLoadedAt (from : Declared) (past : List Call) (call : Call) : Type 0 where
  declared : Declared
  declared2 : Declared
  registered : register_all past from ≡ ok declared
  accepted : IsAccepted declared declared2 call

IsLoadedAt-cons :
    (from mid : Declared) (first : Call) (past : List Call) (call : Call)
    → register first first.capture from ≡ ok mid
    → IsLoadedAt mid past call
    → IsLoadedAt from (first ∷ past) call
unfolding register_all
IsLoadedAt-cons from mid first past call registered later = record {
  declared = later.declared;
  declared2 = later.declared2;
  registered = ap (λ r. r >>= register_all past) registered ∙ later.registered;
  accepted = later.accepted;
}

load_calls-IsLoadedAt :
    (l : Loader) (from : Declared) (items : List Node) (past : List Call) (call : Call)
    (rest : List Call)
    → load_calls l from items ≡ ok (past ++ (call ∷ rest))
    → IsLoadedAt from past call
unfolding load_calls register_all
load_calls-IsLoadedAt l from [] [] call rest h = cc
load_calls-IsLoadedAt l from [] (first ∷ past) call rest h = cc
load_calls-IsLoadedAt l from (item ∷ items) [] call rest h =
    let (made, h1, r1) = >>=-eq-ok (load_call l from item) _ h in
    let (calls, h2, r2) = >>=-eq-ok (load_calls l made.1 items) _ r1 in
    let e : made.0 ≡ call = cc (ok-injective r2) in
    record {
      declared = from;
      declared2 = made.1;
      registered = refl;
      accepted = subst (IsAccepted from made.1) e (load_call-IsAccepted l from item made h1);
    }
load_calls-IsLoadedAt l from (item ∷ items) (first ∷ past) call rest h =
    let (made, h1, r1) = >>=-eq-ok (load_call l from item) _ h in
    let (calls, h2, r2) = >>=-eq-ok (load_calls l made.1 items) _ r1 in
    let e : made.0 ≡ first = cc (ok-injective r2) in
    let e' : calls ≡ past ++ (call ∷ rest) = cc (ok-injective r2) in
    IsLoadedAt-cons from made.1 first past call
      (subst (λ c. register c c.capture from ≡ ok made.1) e
        (load_call-IsAccepted l from item made h1).registered)
      (load_calls-IsLoadedAt l made.1 items past call rest (h2 ∙ ap ok e'))

pub load-load_calls :
    (outside : Outside) (base_dir : Bytes) (first : Decoded RunbookDoc) (second : Decoded Node)
    (calls : List Call)
    → load outside base_dir first second ≡ ok calls
    → (l : Loader) × (items : List Node) × (load_calls l nothing_declared items ≡ ok calls)
unfolding load
load-load_calls outside base_dir first second calls h =
    let (doc, h1, r1) = >>=-eq-ok (first_document first) _ h in
    let (_, h2, r2) = >>=-eq-ok (reject_extra_documents second) _ r1 in
    let (defaults, h3, r3) = >>=-eq-ok (load_defaults outside base_dir doc.defaults) _ r2 in
    let (_, h4, r4) = >>=-eq-ok (validate_calls_shape doc.calls) _ r3 in
    let (_, h5, r5) = >>=-eq-ok (reject_duplicate_names (items_of (content_of doc.calls))) _ r4 in
    (
      record { outside = outside; base_dir = base_dir; defaults = defaults },
      items_of (content_of doc.calls),
      r5,
    )

-- Each reference of a call's texts has a value in a store.
pub record IsFilled (store : Store) (call : Call) : Type 0 where
  pub path : IsFilledText store call.path
  pub query : All (λ entry. IsFilledText store entry.1) call.query
  pub headers :
      (key value : Bytes)
      → header_get key call.headers ≡ some (value ∷ [])
      → IsFilledText store value
  pub body : IsFilledText store call.body

All-map :
    {A : Type 0} (P Q : A → Type 0) → ((a : A) → P a → Q a) → (xs : List A) → All P xs → All Q xs
All-map P Q f [] h = tt
All-map P Q f (x ∷ xs) (h, hs) = (f x h, All-map P Q f xs hs)

IsFilled-Reached :
    (outside : Outside) (base_dir : Bytes) (first : Decoded RunbookDoc) (second : Decoded Node)
    (past : List Call) (call : Call) (rest : List Call) (r : Runner) (w : ℕ → CallWorld)
    (good bad : ℕ) (store : Store)
    → load outside base_dir first second ≡ ok (past ++ (call ∷ rest))
    → Reached r w past good bad store
    → IsFilled store call
IsFilled-Reached outside base_dir first second past call rest r w good bad store loaded reached =
    let (l, items, made) = load-load_calls outside base_dir first second _ loaded in
    let at = load_calls-IsLoadedAt l nothing_declared items past call rest made in
    let fills = λ (s : Bytes) (checked : check_refs s at.declared ≡ none).
      Reached-IsFilledText r w past good bad store at.declared s reached at.registered checked in
    record {
      path = fills call.path at.accepted.path;
      query = All-map _ _ (λ entry. fills entry.1) call.query at.accepted.query;
      headers = λ key value sent. fills value (at.accepted.headers key value sent);
      body = fills call.body at.accepted.body;
    }

-- In every run of a runbook that Load accepts, each call that the run comes to finds its references
-- filled: every reference in its path, its query values, its header values and its body, those that it
-- inherits from the defaults included, has a value in the store that the calls before it left. None is
-- filled by the empty text of a missing key.
pub load-IsFilled :
    (outside : Outside) (base_dir : Bytes) (first : Decoded RunbookDoc) (second : Decoded Node)
    (calls : List Call) (r : Runner) (w : ℕ → CallWorld)
    → load outside base_dir first second ≡ ok calls
    → Course IsFilled r w [] calls 0 0 empty_store (run r w calls)
load-IsFilled outside base_dir first second calls r w loaded =
    run-Course_when IsFilled r w calls (λ past call rest good bad store whole reached.
      IsFilled-Reached outside base_dir first second past call rest r w good bad store
        (loaded ∙ ap ok whole) reached)
