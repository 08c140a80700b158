-- ===== src/Runbook/Template/Reads.antt =====
-- The grammar of the templates of internal/runbook/capture.go, as its comment gives it, apart from
-- the loop that reads them.
use opensearch_api.Runbook.Template.{
  Resolver, escaped, literal, next, open_reference, scan_template,
}
use opensearch_api.Prelude.{
  ==_iff, All, Bool-cases, Bytes, List, Option-cases, [], ap, arith, codes, cut_at, cut_at-append,
  cut_at-none, cut_at-none-back, cut_at-some, drop, false, has_prefix, inl, inr, length,
  length-append, refl, subst, suc, sym, true, zero, ℕ, ◌++◌, ◌+◌, ◌==◌, ◌∙◌, ◌∷◌, ◌≡◌, ◌≤◌,
}
use opensearch_api.Runbook.Template.Pieces.{
  Piece, broken, pieces, pieces_from, ref, render, scan_template-pieces, text, token_pieces,
}

-- A text without a `}`.
abbrev pub IsUnclosed : Bytes → Type 0
IsUnclosed s = All (λ c. (c == b'}') ≡ false) s

-- The text from a byte on reads as pieces: `$${` is the text `${`, a `${` with a name up to the first
-- `}` is a reference, a `${` with no `}` behind it breaks the rest, and any other byte is itself.
pub data Reads : ℕ → Bytes → List Piece → Type 0 where
  reads_end : (i : ℕ) → Reads i [] []
  reads_byte :
      (i c : ℕ) (s : Bytes) (ps : List Piece)
      → has_prefix (c ∷ s) (codes "$${") ≡ false
      → has_prefix (c ∷ s) (codes "${") ≡ false
      → Reads (i + 1) s ps
      → Reads i (c ∷ s) (text (c ∷ []) ∷ ps)
  reads_escape :
      (i : ℕ) (s : Bytes) (ps : List Piece)
      → Reads (i + 3) s ps
      → Reads i (codes "$${" ++ s) (text (codes "${") ∷ ps)
  reads_reference :
      (i : ℕ) (name s : Bytes) (ps : List Piece)
      → IsUnclosed name
      → Reads (i + (2 + length name + 1)) s ps
      → Reads i (codes "${" ++ (name ++ (b'}' ∷ s))) (ref name ∷ ps)
  reads_broken : (i : ℕ) (s : Bytes) → IsUnclosed s → Reads i (codes "${" ++ s) (broken i ∷ [])

prefix_splits : (s p : Bytes) → has_prefix s p ≡ true → s ≡ p ++ drop (length p) s
prefix_splits s [] h = refl
prefix_splits [] (d ∷ p) h = absurd (cc)
prefix_splits (c ∷ s) (d ∷ p) h = elim (Bool-cases (c == d)) [
  | inl same ↦
      let e = prefix_splits s p (rw same at h) in
      ap (λ x. x ∷ s) ((==_iff c d).0 same) ∙ ap (λ t. d ∷ t) e
  | inr apart ↦ absurd (cc (rw apart at h))
]

next_escape :
    (c : ℕ) (s : Bytes)
    → has_prefix (c ∷ s) (codes "$${") ≡ true
    → next (c ∷ s) ≡ escaped (drop 3 (c ∷ s))
unfolding next
next_escape c s h = rw h refl

next_open :
    (c : ℕ) (s : Bytes)
    → has_prefix (c ∷ s) (codes "$${") ≡ false
    → has_prefix (c ∷ s) (codes "${") ≡ true
    → next (c ∷ s) ≡ open_reference (cut_at b'}' (drop 2 (c ∷ s)))
unfolding next
next_open c s h h2 = rw (h, h2) refl

next_literal :
    (c : ℕ) (s : Bytes)
    → has_prefix (c ∷ s) (codes "$${") ≡ false
    → has_prefix (c ∷ s) (codes "${") ≡ false
    → next (c ∷ s) ≡ literal c s
unfolding next
next_literal c s h h2 = rw (h, h2) refl

-- What the loop reads of a text, if what it reads of a shorter one is as the grammar says.
module _ (parts : ℕ → Bytes → List Piece) (i : ℕ) where
  escape-Reads :
      (s : Bytes)
      → has_prefix s (codes "$${") ≡ true
      → Reads (i + 3) (drop 3 s) (parts (i + 3) (drop 3 s))
      → Reads i s (token_pieces parts i (escaped (drop 3 s)))
  unfolding token_pieces
  escape-Reads s h r =
      subst (λ t. Reads i t (text (codes "${") ∷ parts (i + 3) (drop 3 s)))
        (sym (prefix_splits s (codes "$${") h))
        (reads_escape i (drop 3 s) (parts (i + 3) (drop 3 s)) r)

  byte-Reads :
      (c : ℕ) (s : Bytes)
      → has_prefix (c ∷ s) (codes "$${") ≡ false
      → has_prefix (c ∷ s) (codes "${") ≡ false
      → Reads (i + 1) s (parts (i + 1) s)
      → Reads i (c ∷ s) (token_pieces parts i (literal c s))
  unfolding token_pieces
  byte-Reads c s h h2 r = reads_byte i c s (parts (i + 1) s) h h2 r

  open-Reads :
      (s : Bytes)
      → has_prefix s (codes "${") ≡ true
      → ((j : ℕ) (t : Bytes) → suc (length t) ≤ length s → Reads j t (parts j t))
      → Reads i s (token_pieces parts i (open_reference (cut_at b'}' (drop 2 s))))
  unfolding token_pieces open_reference
  open-Reads s h r =
      let e = prefix_splits s (codes "${") h in
      elim (Option-cases (cut_at b'}' (drop 2 s))) [
        | inl missing ↦ rw missing (
            subst (λ t. Reads i t (broken i ∷ [])) (sym e)
              (reads_broken i (drop 2 s) (cut_at-none b'}' (drop 2 s) missing)))
        | inr ((name, rest), there) ↦
            let (split, free) = cut_at-some b'}' (drop 2 s) name rest there in
            let j = i + (2 + length name + 1) in
            let whole = e ∙ ap (λ t. codes "${" ++ t) split in
            rw there (
              subst (λ t. Reads i t (ref name ∷ parts j rest)) (sym whole)
                (reads_reference i name rest (parts j rest) free
                  (r j rest (omega (arith, ap length whole, length-append name (b'}' ∷ rest))))))
      ]

-- The text from byte `i` on is read as the grammar says.
pieces_from-Reads : (fuel i : ℕ) (s : Bytes) → length s ≤ fuel → Reads i s (pieces_from fuel i s)
unfolding pieces_from
pieces_from-Reads zero i [] enough = reads_end i
pieces_from-Reads zero i (c ∷ s) enough = absurd (omega arith)
pieces_from-Reads (suc fuel) i [] enough = unfold next token_pieces in reads_end i
pieces_from-Reads (suc fuel) i (c ∷ s) enough =
    elim (Bool-cases (has_prefix (c ∷ s) (codes "$${"))) [
      | inl escape ↦ rw (next_escape c s escape) (
          escape-Reads (pieces_from fuel) i (c ∷ s) escape (
            pieces_from-Reads fuel (i + 3) (drop 3 (c ∷ s))
              (omega (arith, ap length (prefix_splits (c ∷ s) (codes "$${") escape)))))
      | inr plain ↦ elim (Bool-cases (has_prefix (c ∷ s) (codes "${"))) [
        | inl opens ↦ rw (next_open c s plain opens) (
            open-Reads (pieces_from fuel) i (c ∷ s) opens
              (λ j t shorter. pieces_from-Reads fuel j t (omega arith)))
        | inr byte ↦ rw (next_literal c s plain byte) (
            byte-Reads (pieces_from fuel) i c s plain byte
              (pieces_from-Reads fuel (i + 1) s (omega arith)))
      ]
    ]

-- The grammar reads a text in one way.
Reads-pieces_from :
    (fuel i : ℕ) (s : Bytes) (ps : List Piece)
    → length s ≤ fuel
    → Reads i s ps
    → ps ≡ pieces_from fuel i s
unfolding pieces_from token_pieces next open_reference
Reads-pieces_from zero i _ _ enough (reads_end _) = refl
Reads-pieces_from (suc fuel) i _ _ enough (reads_end _) = refl
Reads-pieces_from zero i _ _ enough (reads_byte _ c s ps p1 p2 r) = absurd (omega arith)
Reads-pieces_from (suc fuel) i _ _ enough (reads_byte _ c s ps p1 p2 r) =
    rw (p1, p2) (ap (λ t. text (c ∷ []) ∷ t) (Reads-pieces_from fuel (i + 1) s ps (omega arith) r))
Reads-pieces_from zero i _ _ enough (reads_escape _ s ps r) = absurd (omega arith)
Reads-pieces_from (suc fuel) i _ _ enough (reads_escape _ s ps r) =
    ap (λ t. text (codes "${") ∷ t) (Reads-pieces_from fuel (i + 3) s ps (omega arith) r)
Reads-pieces_from zero i _ _ enough (reads_reference _ name s ps free r) = absurd (omega arith)
Reads-pieces_from (suc fuel) i _ _ enough (reads_reference _ name s ps free r) =
    rw (cut_at-append b'}' name s free) (
      ap (λ t. ref name ∷ t)
        (Reads-pieces_from fuel (i + (2 + length name + 1)) s ps
          (omega (arith, length-append name (b'}' ∷ s))) r))
Reads-pieces_from zero i _ _ enough (reads_broken _ s free) = absurd (omega arith)
Reads-pieces_from (suc fuel) i _ _ enough (reads_broken _ s free) =
    rw (cut_at-none-back b'}' s free) refl

pub pieces-Reads : (s : Bytes) → Reads 0 s (pieces s)
unfolding pieces
pieces-Reads s = pieces_from-Reads (length s) 0 s (omega arith)

pub Reads-pieces : (s : Bytes) (ps : List Piece) → Reads 0 s ps → ps ≡ pieces s
unfolding pieces
Reads-pieces s ps r = Reads-pieces_from (length s) 0 s ps (omega arith) r

-- Each text reads as pieces by the grammar in just one way, and scanTemplate resolves these pieces in
-- order, up to the first that fails or is broken.
pub scan_template-Reads :
    {S E : Type 0} (resolve : Resolver S E) (s : Bytes)
    → (ps : List Piece) × Reads 0 s ps
      × ((qs : List Piece) → Reads 0 s qs → qs ≡ ps)
      × ((st : S) → scan_template resolve s st ≡ render resolve ps st)
scan_template-Reads resolve s =
    (pieces s, pieces-Reads s, Reads-pieces s, scan_template-pieces resolve s)
