-- ===== src/Apispec/Suggest.antt =====
-- internal/apispec/apispec.go, Suggest: completions of a path, one segment at a time. The set
-- `seen` is the list of the candidates so far.
pub mod Prefix
use opensearch_api.Prelude.{
  Bool, Bytes, List, [], any, bytes_eq, codes, cut_at, drop, equal_fold, false, has_prefix,
  if◌then◌else◌, is_empty, length, ltb, none, not, some, to_upper, true, ◌&&◌, ◌++◌, ◌/◌, ◌==◌,
  ◌||◌, ◌∷◌,
}
use opensearch_api.Apispec.Match.{Endpoint, trim_slash}

unfoldable pub contains_method : List Bytes → Bytes → Bool
contains_method methods method = any (λ m. equal_fold m method) methods

-- Up to the next slash behind what was typed, if there is one.
unfoldable pub next_segment : Bytes → Bytes × Bool
next_segment rest = elim (cut_at b'/' rest) [
  | none ↦ (rest, false)
  | some (before, after) ↦ (before, true)
]

-- What stands behind the last slash.
unfoldable pub last_segment : Bytes → Bytes
last_segment [] = []
last_segment (c ∷ s) =
    let rest = last_segment s in if c == b'/' || any (λ d. d == b'/') s then rest else c ∷ s

-- A candidate with deeper children gets a slash, but not behind a parameter.
unfoldable pub with_slash : Bytes → Bool → Bytes
with_slash candidate has_children =
    if has_children && not (has_prefix (last_segment candidate) (codes "{"))
    then candidate ++ (b'/' ∷ [])
    else candidate

abbrev pub typed_candidate : Bytes → Bytes → Bytes
typed_candidate typed tmpl =
    let (before, has_children) = next_segment (drop (length typed) tmpl) in
    with_slash (typed ++ before) has_children

unfoldable pub accepts : Bytes → Endpoint → Bool
accepts method ep = is_empty method || contains_method ep.methods method

abbrev pub mirror_slash : Bool → Bytes → Bytes
mirror_slash leading candidate = if leading then b'/' ∷ candidate else candidate

abbrev pub add_new : List Bytes → Bytes → List Bytes
add_new out candidate =
    if any (λ seen. bytes_eq seen candidate) out then out else out ++ (candidate ∷ [])

-- One round of the loop, for what was typed and the method in capitals.
unfoldable pub add_candidate : Bool → Bytes → Bytes → List Bytes → Endpoint → List Bytes
add_candidate leading typed method out ep =
    let tmpl = trim_slash ep.template in
    if not (accepts method ep) || not (has_prefix tmpl typed)
    then out
    else if is_empty (typed_candidate typed tmpl)
    then out
    else add_new out (mirror_slash leading (typed_candidate typed tmpl))

unfoldable pub candidates : Bool → Bytes → Bytes → List Bytes → List Endpoint → List Bytes
candidates leading typed method out [] = out
candidates leading typed method out (ep ∷ eps) =
    candidates leading typed method (add_candidate leading typed method out ep) eps

-- `sort.Strings`: in the order of the bytes, and an initial part first.
abbrev pub text_leb : Bytes → Bytes → Bool
text_leb [] t = true
text_leb (c ∷ s) [] = false
text_leb (c ∷ s) (d ∷ t) = ltb c d || ((c == d) && text_leb s t)

abbrev pub insert_text : Bytes → List Bytes → List Bytes
insert_text s [] = s ∷ []
insert_text s (t ∷ ts) =
    let rest = insert_text s ts in if text_leb s t then s ∷ t ∷ ts else t ∷ rest

unfoldable pub sort_texts : List Bytes → List Bytes
sort_texts [] = []
sort_texts (s ∷ ts) = insert_text s (sort_texts ts)

unfoldable pub suggest : List Endpoint → Bytes → Bytes → List Bytes
suggest paths typed method =
    sort_texts
      (candidates (has_prefix typed (codes "/")) (trim_slash typed) (to_upper method) [] paths)
