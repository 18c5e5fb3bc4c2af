-- ===== src/Tests/Correctness.antt =====
-- Runs of the baseline validation on small inputs.
use ferricov.Base.{◌≡◌, refl, true, false, ◌⊎◌, List, [], ◌∷◌, none, some, ok, length, all}
use ferricov.Base.Bytes.{Bytes, codes, bytes_eq, split, starts_with}
use ferricov.Base.Int.{pos}
use ferricov.Json.Value.{
  integer, string, array, object, Items, no_items, item, Members, no_members, member, get,
}
use ferricov.Correctness.Path.{
  safe_relative_path, parts, parts_of, join, as_posix, is_step, safe_relative_path-steps,
  steps-safe_relative_path,
}
use ferricov.Correctness.Artifact.{folder, regular, Files, Reference, artifact_path}
use ferricov.Correctness.Artifact.Accepts.{
  PlainWay, plain_folder, plain_file, artifact_path-ok, artifact_path-returns,
}
use ferricov.Base.Order.{bytes_lt}
use ferricov.Correctness.FileTree.{
  Metrics, path_key, kind_key, bytes_key, validate_file_tree, is_file, size_of,
}
use ferricov.Correctness.FileTree.Accepts.{
  Row, file_row, other_row, AreRows, no_rows, row, AreCounted, validate_file_tree-AreRows,
  AreRows-validate_file_tree,
}

abbrev stdout_path : Bytes
stdout_path = codes "reference/stdout.bin"

stdout_steps : all is_step (split b'/' stdout_path) ≡ true
unfolding split bytes_eq
stdout_steps = refl

steps-safe_relative_path_example :
    (stdout_path ≡ codes ".") ⊎ (all is_step (split b'/' stdout_path) ≡ true)
steps-safe_relative_path_example =
    steps-safe_relative_path stdout_path (safe_relative_path-steps stdout_path stdout_steps)

-- A path that climbs, and one that is absolute.
climbing : safe_relative_path (codes "a/../b") ≡ false
unfolding safe_relative_path as_posix parts parts_of split join starts_with bytes_eq
climbing = refl

absolute : safe_relative_path (codes "/a") ≡ false
unfolding safe_relative_path as_posix parts parts_of split join starts_with bytes_eq
absolute = refl

abbrev way : List Bytes
way = codes "reference" ∷ codes "stdout.bin" ∷ []

abbrev files : Files
files (a ∷ []) = some folder
files (a ∷ b ∷ []) = some (regular (codes "out"))
files _ = none

abbrev identity : Bytes → Bytes
identity content = content

abbrev reference : Reference
reference = record { path = stdout_path; sha256 = codes "out"; bytes = 3 }

way-parts : parts stdout_path ≡ way
unfolding parts parts_of split bytes_eq
way-parts = refl

accepted : artifact_path identity files reference ≡ ok (parts stdout_path)
unfolding parts parts_of split bytes_eq
accepted =
    artifact_path-returns identity files reference (codes "out")
      (safe_relative_path-steps stdout_path stdout_steps)
      (plain_folder, (plain_file (codes "out"), tt)) refl refl refl

artifact_path-ok_example :
    (content : Bytes) × (parts stdout_path ≡ parts stdout_path)
    × (safe_relative_path stdout_path ≡ true)
    × PlainWay files [] (parts stdout_path)
    × (files (parts stdout_path) ≡ some (regular content))
    × (length content ≡ 3)
    × (identity content ≡ codes "out")
artifact_path-ok_example = artifact_path-ok identity files reference (parts stdout_path) accepted

abbrev directory : Members
directory =
    member path_key (string (codes "6f")) (member kind_key (string (codes "directory")) no_members)

abbrev info : Members
info =
    member path_key (string (codes "6f75"))
      (member kind_key (string (codes "file")) (member bytes_key (integer (pos 7)) no_members))

abbrev entries : Items
entries = item (object directory) (item (object info) no_items)

abbrev rows : List Row
rows = (codes "6f", none) ∷ (codes "6f75", some 7) ∷ []

abbrev metrics : Metrics
metrics = record { output_bytes = pos 7; output_files = pos 1 }

entries-AreRows : AreRows entries rows
unfolding get is_file size_of bytes_eq
entries-AreRows =
    row (object directory) (codes "6f", none) (item (object info) no_items)
      ((codes "6f75", some 7) ∷ []) (other_row directory (codes "6f") refl refl)
      (row (object info) (codes "6f75", some 7) no_items []
        (file_row info (codes "6f75") 7 refl refl refl) no_rows)

entries-AreCounted : AreCounted rows metrics
unfolding bytes_lt
entries-AreCounted = record { ascending = (refl, tt); counted_bytes = refl; counted_files = refl }

AreRows-validate_file_tree_example : validate_file_tree (some (array entries)) metrics ≡ ok tt
AreRows-validate_file_tree_example =
    AreRows-validate_file_tree entries rows metrics entries-AreRows entries-AreCounted

validate_file_tree-AreRows_example :
    (vs : Items) × (rs : List Row) × (some (array entries) ≡ some (array vs))
    × AreRows vs rs
    × AreCounted rs metrics
validate_file_tree-AreRows_example =
    validate_file_tree-AreRows (some (array entries)) metrics
      (AreRows-validate_file_tree entries rows metrics entries-AreRows entries-AreCounted)
