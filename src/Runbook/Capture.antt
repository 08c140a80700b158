-- ===== src/Runbook/Capture.antt =====
-- internal/runbook/capture.go, captures: values taken out of a response into the store of a run. A
-- compiled jq program is a third-party package's: a function that gives what its iterator emits.
-- The conversions of floating point and the JSON decoder are arguments.
pub mod Laws
use opensearch_api.Prelude.{
  Bool, Bytes, List, Option, Result, [], any, bytes_eq, codes, err, false, format_int,
  if◌then◌else◌, is_empty, is_one_of, map_err, none, not, ok, quoted, some, suc, true, ℕ, ℤ, ◌++◌,
  ◌>>=◌, ◌∷◌,
}
use opensearch_api.Errors.{Err, other, wrap}
use opensearch_api.Json.{Json}
use opensearch_api.Config.Types.{Float64}
use opensearch_api.Config.Size.{format_size}
use opensearch_api.Retry.Predicate.{Context}
use opensearch_api.Runbook.Template.{Store}

-- A value of the jq interpreter, by its Go type; the last stands for null, arrays and objects.
pub data Value : Type 0 where
  string_value : Bytes → Value
  bool_value : Bool → Value
  int_value : ℤ → Value
  float_value : Float64 → Value
  number_value : Bytes → Value
  big_value : ℤ → Value
  composite_value : Json → Value

pub data CaptureEmission : Type 0 where
  captured : Value → CaptureEmission
  raised : Err → CaptureEmission

pub record Capture : Type 0 where
  pub name : Bytes
  pub expr : Bytes
  pub code : Context → Json → List CaptureEmission

-- `strconv.FormatFloat(f, 'f', -1, 64)` and `json.Number.Float64`.
pub record FloatText : Type 0 where
  pub format_float : Float64 → Bytes
  pub parse_float : Bytes → Option Float64

abbrev pub matched_nothing : Err
matched_nothing = other (codes "matched nothing")

abbrev pub not_scalar : Err
not_scalar = other (codes "not a scalar")

unfoldable pub render_json_number : FloatText → Bytes → Result Err Bytes
render_json_number floats val =
    if any (is_one_of (codes ".eE")) val
    then elim (floats.parse_float val) [
      | none ↦ err not_scalar
      | some f ↦ ok (floats.format_float f)
    ]
    else ok val

unfoldable pub render_scalar : FloatText → Value → Result Err Bytes
render_scalar floats (string_value val) = ok val
render_scalar floats (bool_value val) = ok (if val then codes "true" else codes "false")
render_scalar floats (int_value val) = ok (format_int val)
render_scalar floats (float_value val) = ok (floats.format_float val)
render_scalar floats (number_value val) = render_json_number floats val
render_scalar floats (big_value val) = ok (format_int val)
render_scalar floats (composite_value val) = err not_scalar

-- `Capture.run`: the first value that is emitted.
unfoldable pub first_value : List CaptureEmission → Result Err Value
first_value [] = err matched_nothing
first_value (raised e ∷ rest) = err e
first_value (captured v ∷ rest) = ok v

unfoldable pub run_capture : Capture → Context → Json → Result Err Value
run_capture c at input = first_value (c.code at input)

-- The decoder reads the first document of the body.
unfoldable pub decode_capture_body : (Bytes → Result Err Json) → Bytes → Bool → ℤ → Result Err Json
decode_capture_body decode body true max_buffer =
    err (
      other
        (codes "response body exceeds max-body-buffer (" ++ format_size max_buffer ++ codes ")"))
decode_capture_body decode body false max_buffer =
    if is_empty body
    then err (other (codes "empty response body"))
    else map_err (λ e. wrap (codes "response body is not valid JSON: ") e []) (decode body)

abbrev pub capture_error : Capture → Err → Err
capture_error c e =
    wrap (codes "capture " ++ quoted c.name ++ codes " (" ++ c.expr ++ codes "): ") e []

abbrev pub store_set : Bytes → Bytes → Store → Store
store_set name value store = λ other. if bytes_eq other name then some value else store other

-- What an extraction gives, with the store that it leaves, an error included.
abbrev pub Extracted : Type 0
Extracted = Result Err (Unit {0}) × Store

abbrev pub store_then : Capture → Store → Result Err Bytes → (Store → Extracted) → Extracted
store_then c store (err e) rest = (err (capture_error c e), store)
store_then c store (ok value) rest = rest (store_set c.name value store)

-- The loop over the captures; `at` is the context when each is run.
unfoldable pub extract_each :
    FloatText → (ℕ → Context) → Json → ℕ → List Capture → Store → Extracted
extract_each floats at input i [] store = (ok tt, store)
extract_each floats at input i (c ∷ cs) store =
    store_then c store (run_capture c (at i) input >>= render_scalar floats)
      (extract_each floats at input (suc i) cs)

-- The captures on a decoded body; a body that is none is the first capture's failure.
unfoldable pub extract_decoded :
    FloatText → (ℕ → Context) → Capture → List Capture → Store → Result Err Json → Extracted
extract_decoded floats at c cs store (err e) = (err (capture_error c e), store)
extract_decoded floats at c cs store (ok input) = extract_each floats at input 0 (c ∷ cs) store

unfoldable pub extract_captures :
    FloatText
    → (Bytes → Result Err Json)
    → (ℕ → Context)
    → List Capture
    → Bytes
    → Bool
    → ℤ
    → Store
    → Extracted
extract_captures floats decode at [] body truncated max_buffer store = (ok tt, store)
extract_captures floats decode at (c ∷ cs) body truncated max_buffer store =
    extract_decoded floats at c cs store (decode_capture_body decode body truncated max_buffer)
