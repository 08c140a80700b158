-- ===== src/Runbook/Template.antt =====
-- internal/runbook/capture.go, the references in templates: scanTemplate, substitute and
-- substitutePath, and checkRefs of runbook.go.
pub mod Pieces
pub mod Reads
pub mod Refs
pub mod Path
use opensearch_api.Prelude.{
  Bool, Bytes, List, Option, Result, [], any, bytes_eq, codes, contains_text, cut_at, drop, err,
  false, has_prefix, if◌then◌else◌, is_one_of, length, none, not, ok, some, split_on, suc, true,
  zero, ℕ, ◌++◌, ◌+◌, ◌||◌, ◌∷◌,
}

-- What stands at the head of the text that the loop of scanTemplate still has to read.
pub data Token : Type 0 where
  done unterminated : Token
  escaped : Bytes → Token
  reference : Bytes → Bytes → Token
  literal : ℕ → Bytes → Token

-- A `${` with the text behind it.
unfoldable pub open_reference : Option (Bytes × Bytes) → Token
open_reference none = unterminated
open_reference (some (name, rest)) = reference name rest

-- The switch in the loop of scanTemplate.
unfoldable pub next : Bytes → Token
next [] = done
next (c ∷ s) =
    if has_prefix (c ∷ s) (codes "$${")
    then escaped (drop 3 (c ∷ s))
    else if has_prefix (c ∷ s) (codes "${")
    then open_reference (cut_at b'}' (drop 2 (c ∷ s)))
    else literal c s

pub data ScanError (E : Type 0) : Type 0 where
  unterminated_at : ℕ → ScanError E
  unresolved : E → ScanError E

-- A callback, with the variables that it shares with its caller.
abbrev pub Resolver : Type 0 → Type 0 → Type 0
Resolver S E = Bytes → S → Result E Bytes × S

abbrev pub Scanned : Type 0 → Type 0 → Type 0
Scanned S E = Result (ScanError E) Bytes × S

-- Text that the builder got before what is still to come; an error discards it.
abbrev pub write : {S E : Type 0} → Bytes → Scanned S E → Scanned S E
write text (ok out, st) = (ok (text ++ out), st)
write text (err e, st) = (err e, st)

abbrev pub resolve_then : {S E : Type 0} → Result E Bytes × S → (S → Scanned S E) → Scanned S E
resolve_then (ok v, st) rest = write v (rest st)
resolve_then (err e, st) rest = (err (unresolved e), st)

-- One round of the loop of scanTemplate, at byte `i`; `rest_of` is the loop that follows.
unfoldable pub scan_token :
    {S E : Type 0} → Resolver S E → (ℕ → Bytes → S → Scanned S E) → ℕ → S → Token → Scanned S E
scan_token resolve rest_of i st done = (ok [], st)
scan_token resolve rest_of i st unterminated = (err (unterminated_at i), st)
scan_token resolve rest_of i st (escaped rest) = write (codes "${") (rest_of (i + 3) rest st)
scan_token resolve rest_of i st (reference name rest) =
    resolve_then (resolve name st) (rest_of (i + (2 + length name + 1)) rest)
scan_token resolve rest_of i st (literal c rest) = write (c ∷ []) (rest_of (i + 1) rest st)

-- The loop; each round reads at least one byte, so the length of the text is fuel enough.
unfoldable pub scan : {S E : Type 0} → Resolver S E → ℕ → ℕ → Bytes → S → Scanned S E
scan resolve zero i s st = (ok [], st)
scan resolve (suc fuel) i s st = scan_token resolve (scan resolve fuel) i st (next s)

unfoldable pub scan_template : {S E : Type 0} → Resolver S E → Bytes → S → Scanned S E
scan_template resolve s st =
    if contains_text s (codes "${") then scan resolve (length s) 0 s st else (ok s, st)

-- A Go map from names to texts; reading a name that is not there gives "".
abbrev pub Store : Type 0
Store = Bytes → Option Bytes

abbrev pub store_get : Store → Bytes → Bytes
store_get store name = elim (store name) [ none ↦ [] | some v ↦ v ]

abbrev pub output_of : {S E : Type 0} → Scanned S E → Bytes
output_of (ok out, st) = out
output_of (err e, st) = []

-- The resolver of `substitute`, which shares no variable and never fails.
abbrev pub from_store : Store → Resolver (Unit {0}) ⊥
from_store store name st = (ok (store_get store name), st)

unfoldable pub substitute : Bytes → Store → Bytes
substitute s store = output_of (scan_template (from_store store) s tt)

pub data PathError : Type 0 where
  forbidden_byte : Bytes → Bytes → PathError
  dot_segment : Bytes → PathError

-- The bytes that may not come into a path.
abbrev pub path_bytes : Bytes
path_bytes = codes "/?#%"

abbrev pub is_path_safe : Bytes → Bool
is_path_safe value = not (any (is_one_of path_bytes) value)

-- The resolver of `substitutePath`: the variable is `substituted`.
abbrev pub from_store_safely : Store → Resolver Bool PathError
from_store_safely store name st =
    let value = store_get store name in
    if is_path_safe value then (ok value, true) else (err (forbidden_byte name value), true)

abbrev pub is_dot_segment : Bytes → Bool
is_dot_segment seg = bytes_eq seg (codes ".") || bytes_eq seg (codes "..")

-- What `substitutePath` does behind the scan.
unfoldable pub check_segments : Scanned Bool PathError → Result (ScanError PathError) Bytes
check_segments (err e, substituted) = err e
check_segments (ok out, false) = ok out
check_segments (ok out, true) =
    if any is_dot_segment (split_on b'/' out) then err (unresolved (dot_segment out)) else ok out

unfoldable pub substitute_path : Bytes → Store → Result (ScanError PathError) Bytes
substitute_path s store = check_segments (scan_template (from_store_safely store) s false)

-- Where a capture was declared.
pub record CapDecl : Type 0 where
  pub call_name : Bytes
  pub continue_on_failure : Bool

pub data RefError : Type 0 where
  undeclared tolerated : Bytes → RefError

abbrev pub Declared : Type 0
Declared = Bytes → Option CapDecl

abbrev pub check_decl : Bytes → Option CapDecl → Result RefError Bytes
check_decl name none = err (undeclared name)
check_decl name (some decl) = if decl.continue_on_failure then err (tolerated name) else ok []

abbrev pub from_declared : Declared → Resolver (Unit {0}) RefError
from_declared declared name st = (check_decl name (declared name), st)

abbrev pub scan_error : {S E : Type 0} → Scanned S E → Option (ScanError E)
scan_error (ok out, st) = none
scan_error (err e, st) = some e

-- `checkRefs`, without the texts that its error adds.
unfoldable pub check_refs : Bytes → Declared → Option (ScanError RefError)
check_refs s declared = scan_error (scan_template (from_declared declared) s tt)
