-- ===== src/Tracefile/Argv.antt =====
-- `semantic_inputs_from_argv` and `validate_semantic_input_identity` of validation_common.py.
pub mod Reads
use ferricov.Base.{
  ℕ, ◌≡◌, Bool, true, false, not, ◌&&◌, ◌||◌, List, [], ◌∷◌, ◌++◌, Option, none, some, Result, ok,
  err, ◌>>=◌, ◌>>◌, require, if◌then◌else◌, take, drop,
}
use ferricov.Base.Bytes.{Bytes, codes, bytes_eq, mem, starts_with}
use ferricov.Base.Same.{Same, same, bytes_same, list_same}
use ferricov.Json.Value.{Value, string, array, Items, no_items, item, Members, get, has}

pub data Error : Type 0 where
  argv_drift lacks_value unexpected_option no_input : Error
  both_or_neither single_uses_inputs input_drift many_use_input inputs_drift : Error

abbrev pub inspector : List Bytes
inspector = codes "perl" ∷ codes "inspect_model.pl" ∷ []

abbrev pub value_options : List Bytes
value_options =
    codes "--ignore"
    ∷ codes "--ignore-errors"
    ∷ codes "--excessive-threshold"
    ∷ codes "--numeric-plan"
    ∷ []

-- The loop from `index`, over the items that are left; every item of argv is a string.
unfoldable pub scan : List Bytes → Result Error (List Bytes)
unfolding bytes_eq starts_with
scan [] = ok []
scan (value ∷ []) =
    if mem value value_options
    then err lacks_value
    else if bytes_eq value (codes "--")
    then ok []
    else if starts_with (codes "-") value
    then err unexpected_option
    else ok (value ∷ [])
scan (value ∷ next ∷ rest) =
    let skipped = scan rest in
    let others = scan (next ∷ rest) in
    if mem value value_options
    then skipped
    else if bytes_eq value (codes "--")
    then ok (next ∷ rest)
    else if starts_with (codes "-") value
    then err unexpected_option
    else others >>= λ inputs. ok (value ∷ inputs)

abbrev pub nonempty : List Bytes → Bool
nonempty [] = false
nonempty (i ∷ is) = true

unfoldable pub semantic_inputs_from_argv : List Bytes → Result Error (List Bytes)
unfolding scan
semantic_inputs_from_argv argv = do
  require (same (take 2 argv) inspector) argv_drift
  inputs ← scan (drop 2 argv)
  require (nonempty inputs) no_input
  ok inputs

-- `document.get("input") == expected`
unfoldable pub is_text : Bytes → Option Value → Bool
unfolding bytes_eq
is_text s (some (string t)) = bytes_eq t s
is_text s _ = false

unfoldable pub items_are : List Bytes → Items → Bool
unfolding is_text
items_are [] no_items = true
items_are (s ∷ ss) (item v vs) = is_text s (some v) && items_are ss vs
items_are _ _ = false

-- `document.get("inputs") == expected`
unfoldable pub is_texts : List Bytes → Option Value → Bool
unfolding items_are
is_texts ss (some (array vs)) = items_are ss vs
is_texts ss _ = false

abbrev pub differ : Bool → Bool → Bool
differ true b = not b
differ false b = b

-- The last part of the check, by the number of inputs that argv has.
unfoldable pub check_identity : List Bytes → Members → Result Error (Unit {0})
unfolding has get is_text is_texts
check_identity (expected ∷ []) document = do
  require (has (codes "input") document && not (has (codes "inputs") document)) single_uses_inputs
  require (is_text expected (get (codes "input") document)) input_drift
check_identity expected document = do
  require (has (codes "inputs") document && not (has (codes "input") document)) many_use_input
  require (is_texts expected (get (codes "inputs") document)) inputs_drift

unfoldable pub validate_semantic_input_identity : List Bytes → Members → Result Error (Unit {0})
unfolding semantic_inputs_from_argv check_identity
validate_semantic_input_identity argv document = do
  expected ← semantic_inputs_from_argv argv
  require (differ (has (codes "input") document) (has (codes "inputs") document)) both_or_neither
  check_identity expected document
