-- ===== src/Runbook/Run/Reached.antt =====
-- The states between the calls of a run as a step relation, and what holds in each of them.
use opensearch_api.Prelude.{
  >>=-eq-ok, All, All-append, Bool-cases, Bytes, List, Option, Option-cases, [], all, arith,
  bytes_eq, bytes_eq_sound, false, inl, inr, length, length-append, none, ok, ok-injective, refl,
  some, subst, suc, sym, true, ℕ, ◌++◌, ◌+◌, ◌∷◌, ◌≡◌,
}
use opensearch_api.Errors.{Err}
use opensearch_api.Runbook.Template.Pieces.{Piece, broken, pieces, ref, text}
use opensearch_api.Runbook.Template.Reads.{Reads, pieces-Reads}
use opensearch_api.Runbook.Template.Refs.{IsFillable, check_refs-pieces}
use opensearch_api.Runbook.Call.{Call, decl_of, declare, register, register_all}
use opensearch_api.Runbook.Outcome.{is_context_err}
use opensearch_api.Runbook.Run.{empty_store}
use opensearch_api.Runbook.Sending.{CallWorld, Runner, ended, run_call}
use opensearch_api.Runbook.Template.{CapDecl, Declared, Store, check_refs}
use opensearch_api.Runbook.Capture.{Capture}
use opensearch_api.Runbook.Capture.Laws.{HasName, IsCaptured, IsGrown}
use opensearch_api.Runbook.Sending.Captures.{IsCallSound, run_call-IsCallSound}

-- The loop of Run has gone past some calls, with its two counts and its store.
pub data Reached (r : Runner) (w : ℕ → CallWorld) : List Call → ℕ → ℕ → Store → Type 0 where
  start : Reached r w [] 0 0 empty_store
  passed :
      (past : List Call) (good bad : ℕ) (store after : Store) (call : Call)
      → Reached r w past good bad store
      → (run_call r (w (length past)) call store).1 ≡ ended none after
      → Reached r w (past ++ (call ∷ [])) (good + 1) bad after
  went_on :
      (past : List Call) (good bad : ℕ) (store after : Store) (call : Call) (e : Err)
      → Reached r w past good bad store
      → (run_call r (w (length past)) call store).1 ≡ ended (some e) after
      → is_context_err (w (length past)).ctx_at_run e ≡ false
      → call.continue_on_failure ≡ true
      → Reached r w (past ++ (call ∷ [])) good (bad + 1) after

-- The captures of every call that does not continue on failure are set.
abbrev pub Holds : Store → List Call → Type 0
Holds store calls =
    All (λ call. call.continue_on_failure ≡ false → IsCaptured store call.capture) calls

IsCaptured-IsGrown :
    (before after : Store) (captures : List Capture)
    → IsGrown before after
    → IsCaptured before captures
    → IsCaptured after captures
IsCaptured-IsGrown before after [] grown h = tt
IsCaptured-IsGrown before after (c ∷ cs) grown (h, hs) =
    (grown c.name h, IsCaptured-IsGrown before after cs grown hs)

Holds-IsGrown :
    (before after : Store) (calls : List Call)
    → IsGrown before after
    → Holds before calls
    → Holds after calls
Holds-IsGrown before after [] grown h = tt
Holds-IsGrown before after (call ∷ calls) grown (h, hs) = (
  λ stops. IsCaptured-IsGrown before after call.capture grown (h stops),
  Holds-IsGrown before after calls grown hs,
)

pub length-snoc :
    (past : List Call) (call : Call) → length (past ++ (call ∷ [])) ≡ suc (length past)
length-snoc past call = omega (arith, length-append past (call ∷ []))

module _ (r : Runner) (w : ℕ → CallWorld) where
  call_sound :
      (i : ℕ) (call : Call) (store after : Store) (error : Option Err)
      → (run_call r (w i) call store).1 ≡ ended error after
      → IsCallSound call store (ended error after)
  call_sound i call store after error e = rw e at (run_call-IsCallSound r (w i) call store)

  Holds-Reached :
      (past : List Call) (good bad : ℕ) (store : Store)
      → Reached r w past good bad store
      → Holds store past
  Holds-Reached _ _ _ _ start = tt
  Holds-Reached _ _ _ _ (passed past good bad store after call before went) =
      let (grown, all) = call_sound (length past) call store after none went in
      All-append _ past (call ∷ [])
        (Holds-IsGrown store after past grown (Holds-Reached past good bad store before))
        ((λ _. all refl), tt)
  Holds-Reached _ _ _ _ (went_on past good bad store after call e before went lasting goes_on) =
      let (grown, all) = call_sound (length past) call store after (some e) went in
      All-append _ past (call ∷ [])
        (Holds-IsGrown store after past grown (Holds-Reached past good bad store before))
        ((λ stops. absurd (cc (stops, goes_on))), tt)

-- Every declared capture of a call that does not continue on failure is set.
abbrev pub IsBacked : Declared → Store → Type 0
IsBacked declared store =
    (name : Bytes) (d : CapDecl)
    → declared name ≡ some d
    → d.continue_on_failure ≡ false
    → HasName store name

IsBacked-declare :
    (declared : Declared) (store : Store) (name : Bytes) (decl : CapDecl)
    → IsBacked declared store
    → (decl.continue_on_failure ≡ false → HasName store name)
    → IsBacked (declare name decl declared) store
IsBacked-declare declared store name decl backed fresh name2 d found stops =
    elim (Bool-cases (bytes_eq name2 name)) [
      | inl same ↦
          let taken : some decl ≡ some d = rw same at found in
          subst (HasName store) (sym (bytes_eq_sound name2 name same)) (fresh (cc (taken, stops)))
      | inr differ ↦ backed name2 d (rw differ at found) stops
    ]

IsBacked-register :
    (call : Call) (captures : List Capture) (declared declared2 : Declared) (store : Store)
    → register call captures declared ≡ ok declared2
    → IsBacked declared store
    → (call.continue_on_failure ≡ false → IsCaptured store captures)
    → IsBacked declared2 store
unfolding register
IsBacked-register call [] declared declared2 store h backed set =
    subst (λ d. IsBacked d store) (ok-injective h) backed
IsBacked-register call (c ∷ cs) declared declared2 store h backed set =
    elim (Option-cases (declared c.name)) [
      | inl new ↦
          IsBacked-register call cs (declare c.name (decl_of call) declared) declared2 store
            (rw new at h)
            (IsBacked-declare declared store c.name (decl_of call) backed (λ stops. (set stops).0))
            (λ stops. (set stops).1)
      | inr (previous, again) ↦ absurd (cc (rw again at h))
    ]

IsBacked-register_all :
    (calls : List Call) (declared declared2 : Declared) (store : Store)
    → register_all calls declared ≡ ok declared2
    → IsBacked declared store
    → Holds store calls
    → IsBacked declared2 store
unfolding register_all
IsBacked-register_all [] declared declared2 store h backed holds =
    subst (λ d. IsBacked d store) (ok-injective h) backed
IsBacked-register_all (call ∷ rest) declared declared2 store h backed (set, holds) =
    let (declared1, first, then_rest) = >>=-eq-ok (register call call.capture declared) _ h in
    IsBacked-register_all rest declared1 declared2 store then_rest
      (IsBacked-register call call.capture declared declared1 store first backed set) holds

-- A piece that a store can fill with a value that was captured.
abbrev pub IsFilledBy : Store → Piece → Type 0
IsFilledBy store (text t) = Unit
IsFilledBy store (ref name) = HasName store name
IsFilledBy store (broken i) = ⊥

IsFilledBy-IsFillable :
    (declared : Declared) (store : Store) (ps : List Piece)
    → IsBacked declared store
    → All (IsFillable declared) ps
    → All (IsFilledBy store) ps
IsFilledBy-IsFillable declared store [] backed h = tt
IsFilledBy-IsFillable declared store (text t ∷ ps) backed (_, hs) =
    (tt, IsFilledBy-IsFillable declared store ps backed hs)
IsFilledBy-IsFillable declared store (ref name ∷ ps) backed ((d, found, stops), hs) =
    (backed name d found stops, IsFilledBy-IsFillable declared store ps backed hs)
IsFilledBy-IsFillable declared store (broken i ∷ ps) backed (h, hs) = absurd h

-- A text that reads, by the grammar of templates, as pieces which the store can all fill.
abbrev pub IsFilledText : Store → Bytes → Type 0
IsFilledText store s = (ps : List Piece) × Reads 0 s ps × All (IsFilledBy store) ps

abbrev pub nothing_declared : Declared
nothing_declared name = none

-- When the run has come past calls that Load accepted, each reference of a text that was checked
-- against their captures has a value in the store: none is filled by the empty text of a missing key.
pub Reached-IsFilledText :
    (r : Runner) (w : ℕ → CallWorld) (past : List Call) (good bad : ℕ) (store : Store)
    (declared : Declared) (s : Bytes)
    → Reached r w past good bad store
    → register_all past nothing_declared ≡ ok declared
    → check_refs s declared ≡ none
    → IsFilledText store s
Reached-IsFilledText r w past good bad store declared s reached loaded checked = (
  pieces s,
  pieces-Reads s,
  IsFilledBy-IsFillable declared store (pieces s)
      (IsBacked-register_all past nothing_declared declared store loaded
        (λ name d found stops. absurd (cc)) (Holds-Reached r w past good bad store reached))
      ((check_refs-pieces declared s).0 checked),
)
