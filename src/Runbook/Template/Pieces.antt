-- ===== src/Runbook/Template/Pieces.antt =====
-- What a template consists of, whatever its references stand for: the reading of it that the
-- load-time check and the substitutions share.
use mathlib.Core.Path.{fun_ext}
use opensearch_api.Prelude.{
  Bool-cases, Bytes, List, [], ap, arith, codes, contains_text, err, false, inl, inr, length, ok,
  refl, suc, zero, ℕ, ◌+◌, ◌∷◌, ◌≡◌, ◌≤◌,
}
use opensearch_api.Runbook.Template.{
  Resolver, Scanned, Token, done, escaped, literal, next, reference, resolve_then, scan,
  scan_template, scan_token, unterminated, unterminated_at, write,
}

-- A piece of a template: plain text, a reference, or a `${` that is not closed, at a byte.
pub data Piece : Type 0 where
  text : Bytes → Piece
  ref : Bytes → Piece
  broken : ℕ → Piece

unfoldable pub token_pieces : (ℕ → Bytes → List Piece) → ℕ → Token → List Piece
token_pieces rest_of i done = []
token_pieces rest_of i unterminated = broken i ∷ []
token_pieces rest_of i (escaped rest) = text (codes "${") ∷ rest_of (i + 3) rest
token_pieces rest_of i (reference name rest) = ref name ∷ rest_of (i + (2 + length name + 1)) rest
token_pieces rest_of i (literal c rest) = text (c ∷ []) ∷ rest_of (i + 1) rest

unfoldable pub pieces_from : ℕ → ℕ → Bytes → List Piece
pieces_from zero i s = []
pieces_from (suc fuel) i s = token_pieces (pieces_from fuel) i (next s)

unfoldable pub pieces : Bytes → List Piece
pieces s = pieces_from (length s) 0 s

-- What a list of pieces is under a resolver: the pieces in order, up to the first error.
abbrev pub render : {S E : Type 0} → Resolver S E → List Piece → S → Scanned S E
render resolve [] st = (ok [], st)
render resolve (text t ∷ ps) st = write t (render resolve ps st)
render resolve (ref name ∷ ps) st = resolve_then (resolve name st) (render resolve ps)
render resolve (broken i ∷ ps) st = (err (unterminated_at i), st)

-- Without a `${` every byte is plain text.
next_plain :
    (c : ℕ) (s : Bytes) → contains_text (c ∷ s) (codes "${") ≡ false → next (c ∷ s) ≡ literal c s
unfolding next
next_plain c [] h = ground arith
next_plain c (d ∷ s) h = ground arith

contains_text-tail :
    (c : ℕ) (s p : Bytes) → contains_text (c ∷ s) p ≡ false → contains_text s p ≡ false
contains_text-tail c s p h = ground arith

module _ {S E : Type 0} (resolve : Resolver S E) where
  scan_token-pieces :
      (rest_of : ℕ → Bytes → S → Scanned S E) (parts : ℕ → Bytes → List Piece)
      → ((i : ℕ) (s : Bytes) (st : S) → rest_of i s st ≡ render resolve (parts i s) st)
      → (i : ℕ) (st : S) (t : Token)
      → scan_token resolve rest_of i st t ≡ render resolve (token_pieces parts i t) st
  unfolding scan_token token_pieces
  scan_token-pieces rest_of parts same i st done = refl
  scan_token-pieces rest_of parts same i st unterminated = refl
  scan_token-pieces rest_of parts same i st (escaped rest) =
      ap (write (codes "${")) (same (i + 3) rest st)
  scan_token-pieces rest_of parts same i st (reference name rest) =
      ap (resolve_then (resolve name st)) (fun_ext (same (i + (2 + length name + 1)) rest))
  scan_token-pieces rest_of parts same i st (literal c rest) =
      ap (write (c ∷ [])) (same (i + 1) rest st)

  scan-pieces_from :
      (fuel i : ℕ) (s : Bytes) (st : S)
      → scan resolve fuel i s st ≡ render resolve (pieces_from fuel i s) st
  unfolding scan pieces_from
  scan-pieces_from zero i s st = refl
  scan-pieces_from (suc fuel) i s st =
      scan_token-pieces (scan resolve fuel) (pieces_from fuel) (scan-pieces_from fuel) i st (next s)

  render-plain :
      (fuel i : ℕ) (s : Bytes) (st : S)
      → contains_text s (codes "${") ≡ false
      → length s ≤ fuel
      → render resolve (pieces_from fuel i s) st ≡ (ok s, st)
  unfolding pieces_from token_pieces
  render-plain zero i [] st h enough = refl
  render-plain zero i (c ∷ s) st h enough = absurd (omega arith)
  render-plain (suc fuel) i [] st h enough = unfold next in refl
  render-plain (suc fuel) i (c ∷ s) st h enough = rw (next_plain c s h) (
      ap (write (c ∷ []))
        (render-plain fuel (i + 1) s st (contains_text-tail c s _ h) (omega arith)))

  -- The scan resolves the pieces of its text in order, and its shortcut for text without a `${`
  -- gives what the loop would give.
  pub scan_template-pieces :
      (s : Bytes) (st : S) → scan_template resolve s st ≡ render resolve (pieces s) st
  unfolding scan_template pieces
  scan_template-pieces s st = elim (Bool-cases (contains_text s (codes "${"))) [
    | inl some? ↦ rw some? (scan-pieces_from (length s) 0 s st)
    | inr plain ↦ rw (plain, render-plain (length s) 0 s st plain (omega arith)) refl
  ]
