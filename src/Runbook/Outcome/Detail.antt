-- ===== src/Runbook/Outcome/Detail.antt =====
-- What failureDetail cuts out of the texts of the engine's errors.
use opensearch_api.Runbook.Outcome.{failure_detail, from_first, message, sentinel_text}
use opensearch_api.Errors.{message, rejected, retries_exhausted, sentinel, sentinel_text}
use opensearch_api.Retry.Engine.{with_reason}
use opensearch_api.Prelude.{
  All, Bytes, IsDigit, [], ap, append_assoc, arith, codes, decimal, decimal-All, false,
  if◌then◌else◌, is_digit, is_empty, refl, some, sym, ℕ, ◌++◌, ◌∙◌, ◌∷◌, ◌≡◌,
}

-- Digits do not begin a text that begins with another byte.
from_first-digits :
    (c : ℕ) (p digits s : Bytes)
    → is_digit c ≡ false
    → All IsDigit digits
    → from_first (c ∷ p) (digits ++ s) ≡ from_first (c ∷ p) s
unfolding from_first
from_first-digits c p [] s other _ = refl
from_first-digits c p (d ∷ digits) s other (h, hs) =
    ground (arith, from_first-digits c p digits s other hs)

append_assoc_three : (s t u v : Bytes) → s ++ t ++ u ++ v ≡ s ++ (t ++ u ++ v)
append_assoc_three s t u v =
    append_assoc (s ++ t) u v
    ∙ append_assoc s t (u ++ v)
    ∙ ap (λ x. s ++ x) (sym (append_assoc t u v))

from_first-exhausted :
    (n : ℕ) (s : Bytes)
    → from_first
        (codes "retries exhausted")
        (codes "after " ++ decimal n ++ codes " attempts: " ++ codes "retries exhausted" ++ s)
      ≡ some (codes "retries exhausted" ++ s)
unfolding from_first
from_first-exhausted n s =
    ap (λ t. from_first (codes "retries exhausted") (codes "after " ++ t))
      (append_assoc_three (decimal n) (codes " attempts: ") (codes "retries exhausted") s)
    ∙ from_first-digits b'r' (codes "etries exhausted") (decimal n)
        (codes " attempts: retries exhausted" ++ s) refl (decimal-All n)

from_first-rejected :
    (n : ℕ) (s : Bytes)
    → from_first (codes ": ") (codes "status " ++ decimal n ++ codes " " ++ codes "rejected" ++ s)
      ≡ from_first (codes ": ") s
unfolding from_first
from_first-rejected n s =
    ap (λ t. from_first (codes ": ") (codes "status " ++ t))
      (append_assoc_three (decimal n) (codes " ") (codes "rejected") s)
    ∙ from_first-digits b':' (codes " ") (decimal n) (codes " rejected" ++ s) refl (decimal-All n)

-- For a run whose retries are spent, what failureDetail shows is "retries exhausted" with the
-- reason behind it, if there is one, without the count of the attempts.
pub failure_detail-exhausted :
    (n : ℕ) (reason : Bytes)
    → failure_detail (
        with_reason
          (codes "after " ++ decimal n ++ codes " attempts: ")
          (sentinel retries_exhausted)
          reason)
      ≡ (codes "retries exhausted" ++ (if is_empty reason then [] else codes ": " ++ reason))
unfolding failure_detail message sentinel_text from_first
failure_detail-exhausted n [] = rw (from_first-exhausted n []) refl
failure_detail-exhausted n (c ∷ reason) =
    rw (from_first-exhausted n (codes ": " ++ c ∷ reason)) refl

-- For a single attempt whose status was rejected, what failureDetail shows is the reason of the
-- classification, or "rejected" where there is none.
pub failure_detail-rejected :
    (status : ℕ) (reason : Bytes)
    → failure_detail
        (with_reason (codes "status " ++ decimal status ++ codes " ") (sentinel rejected) reason)
      ≡ (if is_empty reason then codes "rejected" else reason)
unfolding failure_detail message sentinel_text from_first
failure_detail-rejected n [] = rw (from_first-rejected n []) refl
failure_detail-rejected n (c ∷ reason) = rw (from_first-rejected n (codes ": " ++ c ∷ reason)) refl
