-- ===== src/Cli/Output.antt =====
-- internal/cli/output.go: the body scaffold that goes to stdout in place of a request, and the lines
-- of the verbose hook on stderr. The print of a duration is an argument, and so are the tables.
use opensearch_api.Prelude.{
  Bytes, List, Option, [], codes, decimal, if◌then◌else◌, is_empty, none, some, to_upper, ◌++◌, ◌∷◌,
}
use opensearch_api.Errors.{Err, message}
use opensearch_api.Config.Types.{Duration}
use opensearch_api.Retry.Attempt.{RetryInfo}
use opensearch_api.Apispec.Match.{BodyField, Endpoint, body_skeleton, match_template}

-- The tables of internal/apispec, with the print of a name as JSON.
pub record ApiTables : Type 0 where
  pub paths : List Endpoint
  pub bodies : Bytes → Option (List BodyField)
  pub marshal : Bytes → Bytes

-- What a writer takes of a text, and its error.
abbrev pub Writer : Type 0
Writer = Bytes → Bytes × Option Err

-- What went to stdout and to stderr, and the error.
pub record Printed : Type 0 where
  pub out : Bytes
  pub errw : Bytes
  pub error : Option Err

abbrev newline : Bytes
newline = 10 ∷ []

abbrev pub or_path : Bytes → Option Bytes → Bytes
or_path path none = path
or_path path (some template) = template

unfoldable pub no_skeleton_note : ApiTables → Bytes → Bytes → Bytes
no_skeleton_note tables path method =
    codes "no top-level field template for "
    ++ to_upper method
    ++ codes " "
    ++ or_path path (match_template tables.paths path)
    ++ newline

abbrev printed_note : Bytes → Bytes × Option Err → Printed
printed_note note (out, none) = record { out = out; errw = note; error = none }
printed_note note (out, some e) = record { out = out; errw = []; error = some e }

abbrev printed_text : Bytes × Option Err → Printed
printed_text (out, e) = record { out = out; errw = []; error = e }

-- `printBodySkeleton`
unfoldable pub print_body_skeleton : ApiTables → Writer → Bytes → Bytes → Printed
print_body_skeleton tables out path method =
    elim (body_skeleton tables.paths tables.bodies tables.marshal path method) [
      | some skel ↦ printed_text (out (skel ++ newline))
      | none ↦ printed_note (no_skeleton_note tables path method) (out (codes "{}" ++ newline))
    ]

abbrev retrying : (Duration → Bytes) → RetryInfo → Bytes
retrying print info = codes "; retrying in " ++ print info.delay ++ newline

abbrev status_line : RetryInfo → Bytes
status_line info =
    codes "attempt " ++ decimal info.attempt ++ codes ": status " ++ decimal info.status

-- The line of `verboseHook`, where the hook is on.
unfoldable pub verbose_line : (Duration → Bytes) → RetryInfo → Bytes
verbose_line print info = elim info.cause [
  | some e ↦
      codes "attempt "
      ++ decimal info.attempt
      ++ codes " failed: "
      ++ message e
      ++ retrying print info
  | none ↦
      if is_empty info.reason
      then status_line info ++ retrying print info
      else status_line info ++ codes " (" ++ info.reason ++ codes ")" ++ retrying print info
]
