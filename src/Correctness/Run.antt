-- ===== src/Correctness/Run.antt =====
-- `validate_run` of compat/correctness/validate.py.
pub mod Accepts
use ferricov.Base.{
  ℕ, ◌≡◌, Bool, true, false, not, ◌&&◌, ◌||◌, List, [], ◌∷◌, Option, none, some, Result, ok, err,
  ◌>>=◌, ◌>>◌, require, if◌then◌else◌, length, ◌==◌,
}
use ferricov.Base.Bytes.{Bytes, codes}
use ferricov.Base.Int.{ℤ}
use ferricov.Json.Value.{Value, Float, nan, infinity, finite}
use ferricov.Correctness.Artifact
use ferricov.Correctness.Artifact.{Files, raw_artifact, content_of}
use ferricov.Correctness.FileTree
use ferricov.Correctness.FileTree.{Metrics, validate_file_tree}

-- A retained file of a run: its path, hash and length.
pub record Retained : Type 0 where
  pub artifact : Bytes
  pub sha256 : Bytes
  pub bytes : ℕ

-- The fields of a run that are looked at; None is `none`.
pub record Run : Type 0 where
  pub exit_code : Option ℤ
  pub signal : Option ℤ
  pub stdout : Retained
  pub stderr : Retained
  pub file_tree : Retained
  pub metrics : Metrics
  pub wall_seconds : Float
  pub expired : Bool
  pub termination_signal_sent : Option ℤ
  pub direct_child_reaped : Bool
  pub container_absent : Option Bool
  pub process_group_empty : Option Bool

pub data Error : Type 0 where
  artifact : Artifact.Error → Error
  tree : FileTree.Error → Error
  exit_or_signal stdout_changed stderr_changed timed_out signal_sent not_cleaned group_claimed
        wall_time :
      Error

abbrev pub is_none {ℓ} : {A : Type ℓ} → Option A → Bool
is_none none = true
is_none (some a) = false

abbrev pub same_truth : Bool → Bool → Bool
same_truth true b = b
same_truth false b = not b

-- `cleanup["container_absent"] is True`
abbrev pub is_true : Option Bool → Bool
is_true (some b) = b
is_true none = false

-- `wall_seconds <= 0`
abbrev pub at_most_zero : Float → Bool
at_most_zero nan = false
at_most_zero (infinity negative) = negative
at_most_zero (finite negative m) = negative || (m == 0)

abbrev pub failing {ℓ} : {E : Type 0} {A : Type ℓ} → (E → Error) → Result E A → Result Error A
failing f (err e) = err (f e)
failing f (ok a) = ok a

-- An error of the file system when a file that was there is gone.
abbrev pub look : Files → List Bytes → Result Error Bytes
look later path = failing artifact (content_of (later path))

-- `parse` is json.loads on the file's text, `none` where that raises; `later` is what the files hold when they
-- are looked at again after their hashes were checked.
module _ (sha256_bytes : Bytes → Bytes) (parse : Bytes → Option Value) (files later : Files) where
  abbrev pub retained : Retained → Bytes → Result Error (List Bytes)
  retained r expected =
      failing artifact (raw_artifact sha256_bytes files r.artifact expected r.sha256 r.bytes)

  -- The checks on how the run ended.
  unfoldable pub check_end : Run → Result Error (Unit {0})
  check_end run = do
    require (not run.expired) timed_out
    require (is_none run.termination_signal_sent) signal_sent
    require (run.direct_child_reaped && is_true run.container_absent) not_cleaned
    require (is_none run.process_group_empty) group_claimed
    require (not (at_most_zero run.wall_seconds)) wall_time

  unfoldable pub validate_run : Run → Result Error (Unit {0})
  unfolding check_end
  validate_run run = do
    require (not (same_truth (is_none run.exit_code) (is_none run.signal))) exit_or_signal
    stdout ← retained run.stdout (codes "reference/stdout.bin")
    stderr ← retained run.stderr (codes "reference/stderr.bin")
    file_tree ← retained run.file_tree (codes "reference/file-tree.json")
    out ← look later stdout
    require (length out == run.stdout.bytes) stdout_changed
    error_text ← look later stderr
    require (length error_text == run.stderr.bytes) stderr_changed
    text ← look later file_tree
    failing tree (validate_file_tree (parse text) run.metrics)
    check_end run
