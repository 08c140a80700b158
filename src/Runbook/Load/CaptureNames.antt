-- ===== src/Runbook/Load/CaptureNames.antt =====
-- The captures of a runbook that Load accepts: each name is declared by one capture alone.
use opensearch_api.Prelude.{
  >>=-eq-ok, All, AreDistinct, Bytes, List, Option-cases, [], ap, inl, inr, ok, ok-injective, refl,
  subst, sym, true, ◌++◌, ◌>>=◌, ◌∙◌, ◌∷◌, ◌≡◌,
}
use opensearch_api.Runbook.Capture.{Capture}
use opensearch_api.Runbook.Call.{Call, decl_of, declare, register, register_all}
use opensearch_api.Runbook.Template.{Declared}
use opensearch_api.Runbook.Run.Reached.{nothing_declared}
use opensearch_api.Runbook.Load.Node.{Node}
use opensearch_api.Runbook.Load.Checks.{Outside, is_capture_name}
use opensearch_api.Runbook.Load.Build.{Loader, load_call}
use opensearch_api.Runbook.Load.Doc.{Decoded, RunbookDoc, load, load_calls}
use opensearch_api.Runbook.Load.Accepted.{load_call-IsAccepted}
use opensearch_api.Runbook.Load.Filled.{load-load_calls}
use opensearch_api.Runbook.Load.Names.{AreNew, extended-AreNew}

abbrev pub capture_names : List Capture → List Bytes
capture_names [] = []
capture_names (c ∷ cs) = c.name ∷ capture_names cs

abbrev pub all_capture_names : List Call → List Bytes
all_capture_names [] = []
all_capture_names (call ∷ rest) = capture_names call.capture ++ all_capture_names rest

register-AreNew :
    (call : Call) (captures : List Capture) (declared declared2 : Declared) (others : List Bytes)
    → register call captures declared ≡ ok declared2
    → AreNew declared2 others
    → AreDistinct others
    → AreNew declared (capture_names captures ++ others)
      × AreDistinct (capture_names captures ++ others)
unfolding register
register-AreNew call [] declared declared2 others h news distinct =
    (subst (λ d. AreNew d others) (sym (ok-injective h)) news, distinct)
register-AreNew call (c ∷ cs) declared declared2 others h news distinct =
    elim (Option-cases (declared c.name)) [
      | inr (previous, again) ↦ absurd (cc (rw again at h))
      | inl new ↦
          let (news2, distinct2) =
            register-AreNew call cs (declare c.name (decl_of call) declared) declared2 others
              (rw new at h) news distinct in
          let (fresh, known) =
            extended-AreNew declared c.name (decl_of call) (capture_names cs ++ others) news2 in
          ((new, known), (fresh, distinct2))
    ]

register_all-AreDistinct :
    (calls : List Call) (declared declared2 : Declared)
    → register_all calls declared ≡ ok declared2
    → AreNew declared (all_capture_names calls) × AreDistinct (all_capture_names calls)
unfolding register_all
register_all-AreDistinct [] declared declared2 h = (tt, tt)
register_all-AreDistinct (call ∷ rest) declared declared2 h =
    let (declared1, first, then_rest) = >>=-eq-ok (register call call.capture declared) _ h in
    let (news, distinct) = register_all-AreDistinct rest declared1 declared2 then_rest in
    register-AreNew call call.capture declared declared1 (all_capture_names rest) first news
      distinct

load_calls-register_all :
    (l : Loader) (from : Declared) (items : List Node) (calls : List Call)
    → load_calls l from items ≡ ok calls
    → (to : Declared) × (register_all calls from ≡ ok to)
      × All (λ call. All (λ c. is_capture_name c.name ≡ true) call.capture) calls
unfolding load_calls register_all
load_calls-register_all l from [] calls h =
    subst
      (λ cs.
        (to : Declared) × (register_all cs from ≡ ok to)
        × All (λ call. All (λ c. is_capture_name c.name ≡ true) call.capture) cs)
      (ok-injective h) (from, refl, tt)
load_calls-register_all l from (item ∷ items) calls h =
    let (made, h1, r1) = >>=-eq-ok (load_call l from item) _ h in
    let (later, h2, r2) = >>=-eq-ok (load_calls l made.1 items) _ r1 in
    let (to, registered, names) = load_calls-register_all l made.1 items later h2 in
    let here = load_call-IsAccepted l from item made h1 in
    subst
      (λ cs.
        (to : Declared) × (register_all cs from ≡ ok to)
        × All (λ call. All (λ c. is_capture_name c.name ≡ true) call.capture) cs)
      (ok-injective r2)
      (to, ap (λ r. r >>= register_all later) here.registered ∙ registered, (here.captures, names))

-- In a runbook that Load accepts no two captures have the same name, in one call or in two, and each
-- name is a letter or underscore with letters, digits and underscores behind it.
pub load-AreDistinct :
    (outside : Outside) (base_dir : Bytes) (first : Decoded RunbookDoc) (second : Decoded Node)
    (calls : List Call)
    → load outside base_dir first second ≡ ok calls
    → AreDistinct (all_capture_names calls)
      × All (λ call. All (λ c. is_capture_name c.name ≡ true) call.capture) calls
load-AreDistinct outside base_dir first second calls h =
    let (l, items, made) = load-load_calls outside base_dir first second calls h in
    let (to, registered, names) = load_calls-register_all l nothing_declared items calls made in
    ((register_all-AreDistinct calls nothing_declared to registered).1, names)
