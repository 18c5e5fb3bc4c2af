-- ===== src/Tracefile/Stderr.antt =====
-- `validate_semantic_stderr` of validation_common.py, on the lines of the decoded text.
pub mod Reads
use ferricov.Base.{
  ℕ, suc, ◌≡◌, Bool, true, false, not, ◌&&◌, ◌||◌, List, [], ◌∷◌, ◌++◌, Option, none, some, Result,
  ok, err, ◌>>=◌, ◌>>◌, require, if◌then◌else◌, length, drop, ◌==◌,
}
use ferricov.Base.Bytes.{Bytes, codes, starts_with}
use ferricov.Base.Same.{Same, same, bytes_same, pair_same, list_same}

-- A level and a kind.
abbrev pub Diagnostic : Type 0
Diagnostic = Bytes × Bytes

pub data Error : Type 0 where
  missing_policy orphan unclassified policy_drift : Error

-- The text up to the next closing parenthesis, and the text from it on.
unfoldable pub span_kind : Bytes → Bytes × Bytes
span_kind [] = ([], [])
span_kind (c ∷ s) =
    let (kind, rest) = span_kind s in if c == b')' then ([], c ∷ s) else (c ∷ kind, rest)

abbrev kind_in : Bytes → Bytes × Bytes → Option Diagnostic
kind_in level ([], rest) = none
kind_in level (c ∷ kind, rest) =
    if starts_with (codes ") ") rest then some (level, c ∷ kind) else none

abbrev after : Bytes → Bytes → Bytes
after p s = drop (length p) s

abbrev level_in : Bytes → Option Diagnostic
level_in s =
    if starts_with (codes "WARNING: (") s
    then kind_in (codes "WARNING") (span_kind (after (codes "WARNING: (") s))
    else if starts_with (codes "ERROR: (") s
    then kind_in (codes "ERROR") (span_kind (after (codes "ERROR: (") s))
    else none

-- The groups of the pattern `^inspect_model.pl: (WARNING|ERROR): \(([^)]+)\) `.
unfoldable pub header : Bytes → Option Diagnostic
unfolding span_kind starts_with
header line =
    if starts_with (codes "inspect_model.pl: ") line
    then level_in (after (codes "inspect_model.pl: ") line)
    else none

pub record State : Type 0 where
  pub actual : List Diagnostic
  pub previous_was_header : Bool

abbrev pub start : State
start = record { actual = []; previous_was_header = false }

abbrev pub classified : State → Option Diagnostic → Result Error State
classified st none = err unclassified
classified st (some d) = ok (record { actual = st.actual ++ d ∷ []; previous_was_header = true })

-- One line; `if not line` comes first.
unfoldable pub read : State → Bytes → Result Error State
read st [] = ok st
read st (c ∷ s) =
    if starts_with (codes "\t") (c ∷ s)
    then (if st.previous_was_header then ok st else err orphan)
    else classified st (header (c ∷ s))

unfoldable pub read_all : State → List Bytes → Result Error State
read_all st [] = ok st
read_all st (line ∷ lines) = read st line >>= λ next. read_all next lines

-- `policy` is SEMANTIC_STDERR_POLICIES[case_id], `none` for a case that has none.
unfoldable pub validate_semantic_stderr :
    Option (List Diagnostic) → List Bytes → Result Error (Unit {0})
unfolding read_all
validate_semantic_stderr none lines = err missing_policy
validate_semantic_stderr (some expected) lines = do
  st ← read_all start lines
  require (same st.actual expected) policy_drift
