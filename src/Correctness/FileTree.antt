-- ===== src/Correctness/FileTree.antt =====
-- `validate_file_tree` of compat/correctness/validate.py, on the document its JSON text decodes to.
pub mod Accepts
use ferricov.Base.{
  ℕ, suc, ◌+◌, ◌≡◌, Bool, true, false, not, ◌&&◌, List, [], ◌∷◌, ◌++◌, Option, none, some, Result,
  ok, err, ◌>>=◌, ◌>>◌, require, if◌then◌else◌, ◌==◌,
}
use ferricov.Base.Bytes.{Bytes, codes, bytes_eq}
use ferricov.Base.Int.{ℤ, pos, negsuc}
use ferricov.Json.Value.{
  Value, boolean, integer, string, array, object, Items, no_items, item, Members, get, int_eq,
}
use ferricov.Correctness.Keys.{sorted_and_unique}

pub data Error : Type 0 where
  invalid_json not_array not_object no_path invalid_size not_sorted totals_differ : Error

-- The three accumulators of the loop.
pub record Totals : Type 0 where
  pub keys : List Bytes
  pub output_bytes : ℕ
  pub output_files : ℕ

abbrev pub none_read : Totals
none_read = record { keys = []; output_bytes = 0; output_files = 0 }

-- run["metrics"], integers by its schema
pub record Metrics : Type 0 where
  pub output_bytes : ℤ
  pub output_files : ℤ

-- `isinstance(key, str)`
unfoldable pub path_of : Option Value → Result Error Bytes
path_of (some (string key)) = ok key
path_of _ = err no_path

-- `isinstance(size, int) and size >= 0`; a bool is an int.
unfoldable pub size_of : Option Value → Result Error ℕ
size_of (some (integer (pos n))) = ok n
size_of (some (boolean true)) = ok 1
size_of (some (boolean false)) = ok 0
size_of _ = err invalid_size

-- `entry.get("kind") == "file"`
unfoldable pub is_file : Option Value → Bool
unfolding bytes_eq
is_file (some (string kind)) = bytes_eq kind (codes "file")
is_file _ = false

abbrev pub path_key : Bytes
path_key = codes "path_bytes_hex"

abbrev pub kind_key : Bytes
kind_key = codes "kind"

abbrev pub bytes_key : Bytes
bytes_key = codes "bytes"

abbrev pub with_key : Bytes → Totals → Totals
with_key key t = record t { keys = t.keys ++ key ∷ [] }

abbrev pub with_file : ℕ → Totals → Totals
with_file n t = record t { output_bytes = t.output_bytes + n; output_files = t.output_files + 1 }

-- the part of the loop's body for a file
abbrev pub add_size : Bool → Option Value → Totals → Result Error Totals
add_size false size t = ok t
add_size true size t = size_of size >>= λ n. ok (with_file n t)

unfoldable pub read_entry : Value → Totals → Result Error Totals
unfolding get
read_entry (object fs) t = do
  key ← path_of (get path_key fs)
  add_size (is_file (get kind_key fs)) (get bytes_key fs) (with_key key t)
read_entry _ t = err not_object

unfoldable pub read_entries : Items → Totals → Result Error Totals
read_entries no_items t = ok t
read_entries (item v vs) t = do next ← read_entry v t; read_entries vs next

unfoldable pub check_totals : Metrics → Totals → Result Error (Unit {0})
check_totals metrics t = do
  require (sorted_and_unique t.keys) not_sorted
  require
      (int_eq metrics.output_bytes (pos t.output_bytes)
        && int_eq metrics.output_files (pos t.output_files))
      totals_differ

-- `none` is text that is no JSON
unfoldable pub validate_file_tree : Option Value → Metrics → Result Error (Unit {0})
unfolding read_entries check_totals
validate_file_tree none metrics = err invalid_json
validate_file_tree (some (array entries)) metrics = do
  t ← read_entries entries none_read
  check_totals metrics t
validate_file_tree (some _) metrics = err not_array
