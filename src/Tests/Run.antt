-- ===== src/Tests/Run.antt =====
-- A qualified run, for compat/correctness/validate.py.
use ferricov.Base.{◌≡◌, refl, true, false, [], ◌∷◌, ◌++◌, length, Option, none, some, if◌then◌else◌}
use ferricov.Base.Bytes.{Bytes, codes, bytes_eq, split, starts_with}
use ferricov.Base.Int.{pos}
use ferricov.Json.Value.{
  Value, finite, string, array, object, no_items, item, no_members, member, get, int_eq,
}
use ferricov.Correctness.Path.{safe_relative_path, parts, parts_of, as_posix, join}
use ferricov.Correctness.Artifact.{Files, folder, regular, raw_artifact, artifact_path, walk}
use ferricov.Correctness.FileTree.{
  path_key, kind_key, is_file, path_of, read_entry, validate_file_tree,
}
use ferricov.Correctness.Keys.{insert, sorted_and_unique}
use ferricov.Correctness.Run.{Retained, Run, validate_run, is_none, same_truth}
use ferricov.Correctness.Run.Accepts.{IsRetained, HasTree, IsFinished, validate_run-ok}

abbrev digest : Bytes → Bytes
digest content = codes "sha256:" ++ content

abbrev files : Files
files (a ∷ []) = some folder
files (a ∷ b ∷ []) =
    if bytes_eq b (codes "stdout.bin")
    then some (regular (codes "out"))
    else if bytes_eq b (codes "stderr.bin")
    then some (regular [])
    else some (regular (codes "tree"))
files _ = none

abbrev tree : Value
tree = array (
    item
      (object (
        member path_key (string (codes "6f"))
          (member kind_key (string (codes "directory")) no_members)))
      no_items)

abbrev parse : Bytes → Option Value
parse text = some tree

abbrev retained : Bytes → Bytes → Retained
retained path content = record { artifact = path; sha256 = content; bytes = length content }

abbrev run : Run
run = record {
  exit_code = some (pos 0);
  signal = none;
  stdout = retained (codes "reference/stdout.bin") (codes "out");
  stderr = retained (codes "reference/stderr.bin") [];
  file_tree = retained (codes "reference/file-tree.json") (codes "tree");
  metrics = record { output_bytes = pos 0; output_files = pos 0 };
  wall_seconds = finite false 1;
  expired = false;
  termination_signal_sent = none;
  direct_child_reaped = true;
  container_absent = some true;
  process_group_empty = none;
}

validate_run-ok_example :
    (same_truth (is_none run.exit_code) (is_none run.signal) ≡ false)
    × IsRetained digest files run.stdout (codes "reference/stdout.bin")
    × IsRetained digest files run.stderr (codes "reference/stderr.bin")
    × IsRetained digest files run.file_tree (codes "reference/file-tree.json")
    × HasTree parse files run
    × IsFinished run
unfolding validate_run read_entry insert raw_artifact artifact_path walk safe_relative_path as_posix
    parts parts_of split join starts_with bytes_eq validate_file_tree path_of is_file get
    sorted_and_unique int_eq
validate_run-ok_example = validate_run-ok digest parse files files run refl
