-- ===== src/Observer/Environment.antt =====
-- `parse_env_file`, and the lines that `main` writes of the environment. A file is its lines.
pub mod RoundTrip
use ferricov.Base.{
  Bool, true, false, not, ◌||◌, List, [], ◌∷◌, ◌++◌, map, Option, none, some, if◌then◌else◌,
}
use ferricov.Base.Bytes.{Bytes, codes, starts_with, has_byte, split_at_most}
use ferricov.Base.Dict.{get, put, sorted}

abbrev is_blank : Bytes → Bool
is_blank [] = true
is_blank (c ∷ s) = false

-- An empty line, a comment, or a line with no equals sign.
abbrev pub is_skipped : Bytes → Bool
is_skipped line = is_blank line || (starts_with (codes "#") line || not (has_byte b'=' line))

-- `key, value = line.split("=", 1)`
abbrev put_pair : List Bytes → List (Bytes × Bytes) → List (Bytes × Bytes)
put_pair (key ∷ value ∷ []) env = put key value env
put_pair _ env = env

unfoldable pub read_line : Bytes → List (Bytes × Bytes) → List (Bytes × Bytes)
read_line line env = if is_skipped line then env else put_pair (split_at_most b'=' 1 line) env

unfoldable pub read_lines : List Bytes → List (Bytes × Bytes) → List (Bytes × Bytes)
read_lines [] env = env
read_lines (line ∷ lines) env = read_lines lines (read_line line env)

-- No path, or no file at the path, is `none`.
unfoldable pub parse_env_file : Option (List Bytes) → List (Bytes × Bytes)
unfolding read_lines
parse_env_file none = []
parse_env_file (some lines) = read_lines lines []

abbrev pub value_or_empty : Option Bytes → Bytes
value_or_empty none = []
value_or_empty (some v) = v

abbrev pub keys : List (Bytes × Bytes) → List Bytes
keys env = map (λ item. item.0) env

abbrev pub env_line : List (Bytes × Bytes) → Bytes → Bytes
env_line env k = k ++ b'=' ∷ value_or_empty (get k env)

-- `[f"{k}={env[k]}" for k in sorted(env)]`
abbrev pub env_lines : List (Bytes × Bytes) → List Bytes
env_lines env = map (env_line env) (sorted (keys env))
