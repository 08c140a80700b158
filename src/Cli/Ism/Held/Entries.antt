-- ===== src/Cli/Ism/Held/Entries.antt =====
-- What is left of members and of a template's entries, for normalizePolicy of internal/cli/ism_policy.go.
use opensearch_api.Prelude.{
  >>=-eq-ok, Bool-cases, Bytes, List, [], ap, arith, bytes_eq, bytes_eq_iff, bytes_eq_sound, codes,
  false, if◌then◌else◌, inl, inr, is_listed, none, ok, ok-injective, refl, some, subst, suc, sym,
  zero, ◌∙◌, ◌∷◌, ◌≡◌,
}
use opensearch_api.Json.{
  Items, Json, Members, arr, bool, cons, end, member, nil, null, num, obj, str,
}
use opensearch_api.Cli.Ism.Value.{delete_member, get_member, items_length, set_member}
use opensearch_api.Cli.Ism.Value.Shape.{SameJson, at_index, at_key, is_arr, shape_at, shape_in}
use opensearch_api.Cli.Ism.Value.Complete.{same_rest}
use opensearch_api.Cli.Ism.Policy.{delete_members, strip_entries}
use opensearch_api.Cli.Ism.Held.{SameEntries, SameMember}

get_member-delete_member :
    (key name : Bytes) (m : Members)
    → get_member key (delete_member name m) ≡ (if bytes_eq name key then none else get_member key m)
unfolding get_member delete_member
get_member-delete_member key name end = ground arith
get_member-delete_member key name (member other value rest) = ground (
  arith,
  get_member-delete_member key name rest,
  bytes_eq_iff other key,
  bytes_eq_iff name key,
  bytes_eq_iff other name,
)

pub get_member-delete_members :
    (key : Bytes) (names : List Bytes) (m : Members)
    → get_member key (delete_members names m)
      ≡ (if is_listed names key then none else get_member key m)
unfolding delete_members
get_member-delete_members key [] m = refl
get_member-delete_members key (name ∷ names) m =
    get_member-delete_members key names (delete_member name m)
    ∙ ground (arith, get_member-delete_member key name m)

pub get_member-set_member :
    (key name : Bytes) (value : Json) (m : Members)
    → get_member key (set_member name value m)
      ≡ (if bytes_eq name key then some value else get_member key m)
unfolding set_member get_member
get_member-set_member key name value m = ground (arith, get_member-delete_member key name m)

-- A stripped list of entries is one of objects without a time.
stripped_head :
    (y : Json) (ys : Items)
    → strip_entries (cons y ys) ≡ ok (cons y ys)
    → (n : Members) × (y ≡ obj n)
      × (get_member (codes "last_updated_time") n ≡ none)
      × (strip_entries ys ≡ ok ys)
unfolding strip_entries
stripped_head (obj n) ys h =
    let (rest, e1, r1) = >>=-eq-ok (strip_entries ys) _ h in
    let e : cons (obj (delete_member (codes "last_updated_time") n)) rest ≡ cons (obj n) ys =
      ok-injective r1 in
    let same : delete_member (codes "last_updated_time") n ≡ n = cc e in
    let same_rest : rest ≡ ys = cc e in
    (
      n,
      refl,
      ap (get_member (codes "last_updated_time")) (sym same)
          ∙ get_member-delete_member (codes "last_updated_time") (codes "last_updated_time") n,
      e1 ∙ ap ok same_rest,
    )
stripped_head null ys h = absurd (cc)
stripped_head (bool b) ys h = absurd (cc)
stripped_head (num s) ys h = absurd (cc)
stripped_head (str s) ys h = absurd (cc)
stripped_head (arr xs) ys h = absurd (cc)

-- A member but for one that is deleted.
kept_member :
    (key name : Bytes) (m : Members)
    → bytes_eq name key ≡ false
    → get_member key (delete_member name m) ≡ get_member key m
kept_member key name m apart =
    get_member-delete_member key name m ∙ ap (λ b. if b then none else get_member key m) apart

pub objects_same :
    (m n : Members)
    → ((key : Bytes) → SameMember (get_member key m) (get_member key n))
    → SameJson (obj m) (obj n)
objects_same m n h [] = refl
objects_same m n h (at_index i ∷ p) = refl
objects_same m n h (at_key key ∷ p) = h key p

cons_same :
    (x y : Json) (xs ys : Items)
    → SameJson x y
    → SameJson (arr xs) (arr ys)
    → SameJson (arr (cons x xs)) (arr (cons y ys))
cons_same x y xs ys h hs [] =
    let e : some (is_arr (items_length xs)) ≡ some (is_arr (items_length ys)) = hs [] in
    ap (λ k. some (is_arr (suc k))) (cc e)
cons_same x y xs ys h hs (at_key key ∷ p) = refl
cons_same x y xs ys h hs (at_index zero ∷ p) = h p
cons_same x y xs ys h hs (at_index (suc i) ∷ p) = hs (at_index i ∷ p)

-- Stripped entries have what the wanted ones have only if the entries agree but for their times.
pub strip_entries-SameEntries :
    (xs zs ys : Items)
    → strip_entries xs ≡ ok zs
    → strip_entries ys ≡ ok ys
    → SameJson (arr zs) (arr ys)
    → SameEntries xs ys
unfolding strip_entries
strip_entries-SameEntries nil zs nil e stripped same = tt
strip_entries-SameEntries nil zs (cons y ys) e stripped same =
    let e' : nil ≡ zs = ok-injective e in
    absurd (cc (ap (λ z. some (is_arr (items_length z))) e' ∙ same []))
strip_entries-SameEntries (cons (obj m) xs) zs nil e stripped same =
    let (rest, e1, r1) = >>=-eq-ok (strip_entries xs) _ e in
    absurd (cc (ap (λ z. some (is_arr (items_length z))) (ok-injective r1) ∙ same []))
strip_entries-SameEntries (cons (obj m) xs) zs (cons y ys) e stripped same =
    let (rest, e1, r1) = >>=-eq-ok (strip_entries xs) _ e in
    let first = delete_member (codes "last_updated_time") m in
    let (n, is_obj_n, timeless, stripped_ys) = stripped_head y ys stripped in
    let both : SameJson (arr (cons (obj first) rest)) (arr (cons (obj n) ys)) = λ p.
      ap (λ z. shape_at p (arr z)) (ok-injective r1)
      ∙ same p
      ∙ ap (λ v. shape_at p (arr (cons v ys))) is_obj_n in
    subst (λ v. SameEntries (cons (obj m) xs) (cons v ys)) (sym is_obj_n)
      (
        λ key apart p.
            sym (ap (shape_in p) (kept_member key (codes "last_updated_time") m apart))
            ∙ both (at_index 0 ∷ (at_key key ∷ p)),
        strip_entries-SameEntries xs rest ys e1 stripped_ys
            (same_rest (obj first) (obj n) rest ys both),
      )
strip_entries-SameEntries (cons null xs) zs ys e stripped same = absurd (cc)
strip_entries-SameEntries (cons (bool b) xs) zs ys e stripped same = absurd (cc)
strip_entries-SameEntries (cons (num s) xs) zs ys e stripped same = absurd (cc)
strip_entries-SameEntries (cons (str s) xs) zs ys e stripped same = absurd (cc)
strip_entries-SameEntries (cons (arr x) xs) zs ys e stripped same = absurd (cc)

-- An object without its time has what a timeless one has, if all else agrees.
timeless_same :
    (m n : Members)
    → get_member (codes "last_updated_time") n ≡ none
    → ((key : Bytes)
        → bytes_eq (codes "last_updated_time") key ≡ false
        → SameMember (get_member key m) (get_member key n))
    → SameJson (obj (delete_member (codes "last_updated_time") m)) (obj n)
timeless_same m n timeless agree = objects_same (delete_member time m) n (λ key p.
    elim (Bool-cases (bytes_eq time key)) [
      | inr apart ↦ ap (shape_in p) (kept_member key time m apart) ∙ agree key apart p
      | inl same ↦ ap (shape_in p) (
          get_member-delete_member key time m
          ∙ ap (λ b. if b then none else get_member key m) same
          ∙ sym timeless
          ∙ ap (λ k. get_member k n) (bytes_eq_sound time key same))
    ])
  where
    time : Bytes
    time = codes "last_updated_time"

pub SameEntries-strip_entries :
    (xs ys : Items)
    → strip_entries ys ≡ ok ys
    → SameEntries xs ys
    → (zs : Items) × (strip_entries xs ≡ ok zs) × SameJson (arr zs) (arr ys)
unfolding strip_entries
SameEntries-strip_entries nil nil stripped same = (nil, refl, λ p. refl)
SameEntries-strip_entries (cons (obj m) xs) (cons (obj n) ys) stripped (agree, rest) =
    let (n2, is_n, timeless, stripped_ys) = stripped_head (obj n) ys stripped in
    let (zs, made, same) = SameEntries-strip_entries xs ys stripped_ys rest in
    let e : n2 ≡ n = cc in
    let first = delete_member (codes "last_updated_time") m in
    (
      cons (obj first) zs,
      rw made refl,
      cons_same (obj first) (obj n) zs ys
          (timeless_same m n (ap (get_member (codes "last_updated_time")) (sym e) ∙ timeless) agree)
          same,
    )
SameEntries-strip_entries nil (cons _ ys) stripped same = absurd same
SameEntries-strip_entries (cons null xs) ys stripped same = absurd same
SameEntries-strip_entries (cons (bool _) xs) ys stripped same = absurd same
SameEntries-strip_entries (cons (num _) xs) ys stripped same = absurd same
SameEntries-strip_entries (cons (str _) xs) ys stripped same = absurd same
SameEntries-strip_entries (cons (arr _) xs) ys stripped same = absurd same
SameEntries-strip_entries (cons (obj m) xs) nil stripped same = absurd same
SameEntries-strip_entries (cons (obj m) xs) (cons null ys) stripped same = absurd same
SameEntries-strip_entries (cons (obj m) xs) (cons (bool _) ys) stripped same = absurd same
SameEntries-strip_entries (cons (obj m) xs) (cons (num _) ys) stripped same = absurd same
SameEntries-strip_entries (cons (obj m) xs) (cons (str _) ys) stripped same = absurd same
SameEntries-strip_entries (cons (obj m) xs) (cons (arr _) ys) stripped same = absurd same
