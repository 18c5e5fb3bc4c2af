-- ===== src/Inventory/Commands.antt =====
-- The loop of `validate_inventory_semantics` over the commands. The strings that are compared are byte
-- strings, and the inventory's fields are typed.
use ferricov.Base.{
  Bool, ◌&&◌, ◌||◌, not, List, [], ◌∷◌, ◌++◌, map, Option, none, some, Result, ok, err, ◌>>=◌, ◌>>◌,
  require, if◌then◌else◌, all,
}
use ferricov.Base.Bytes.{Bytes, codes, bytes_eq, mem}
use ferricov.Base.Dict.{get}
use ferricov.Base.Sets.{has_repeat, subset, set_eq}
use ferricov.Base.Same.{same}
use ferricov.Cases.Policy.{Policy, Reference, Entry, Command, is_defined, parser_policy_signature}
use ferricov.Cases.Equality.{policy_same}
use ferricov.Inventory.Pins.{Pins, expected_parser_policy}

pub data Error : Type 0 where
  command_set_mismatch parser_totals_mismatch policy_families_mismatch : Error
  positional_contract_mismatch inventory_totals_mismatch duplicate_entry_id : Error
  unpinned_command policy_mismatch duplicate_canonical_option invalid_aliases : Error
  public_option_without_parser_evidence generated_token_with_parser_evidence : Error
  overlapping_forms undefined_exact_only_option source_kinds_mismatch : Error
  parser_path_outside_allowlist policy_paths_mismatch unsafe_source_reference : Error
  generated_tokens_without_profiles profile_resolution_drift target_not_parser_backed : Error
  positional_inventory : Error

abbrev pub is_public : Entry → Bool
is_public o = bytes_eq o.classification (codes "public")

abbrev pub is_generated : Entry → Bool
is_generated o = bytes_eq o.classification (codes "generated_token")

abbrev pub check_option : Entry → Result Error (Unit {0})
check_option o = do
  require (not (mem o.canonical_name o.aliases || has_repeat o.aliases)) invalid_aliases
  require (not (is_public o && not (is_defined o))) public_option_without_parser_evidence
  require (not (is_generated o && is_defined o)) generated_token_with_parser_evidence

-- The forms of the options, where every option passes.
unfoldable pub forms_of : List Entry → Result Error (List Bytes)
forms_of [] = ok []
forms_of (o ∷ os) = do check_option o; rest ← forms_of os; ok (o.canonical_name ∷ o.aliases ++ rest)

abbrev pub expected_policy_kinds : Bytes → List Bytes
expected_policy_kinds name =
    if bytes_eq name (codes "xml2lcovutil.py")
    then codes "command_implementation" ∷ []
    else codes "parser_policy" ∷ []

-- The paths of the references of some kinds.
unfoldable pub paths_with : List Bytes → List Reference → List Bytes
paths_with kinds [] = []
paths_with kinds (r ∷ rs) =
    if mem r.kind kinds then r.path ∷ paths_with kinds rs else paths_with kinds rs

unfoldable pub references_of : List Entry → List Reference
references_of [] = []
references_of (e ∷ es) = e.source_references ++ references_of es

abbrev pub check_paths : Command → Option (List Bytes) → Result Error (Unit {0})
check_paths c none = err unpinned_command
check_paths c (some paths) = do
  require
      (subset
        (paths_with (codes "parser_definition" ∷ [])
          (references_of (c.options ++ c.positional_arguments)))
        paths)
      parser_path_outside_allowlist
  require
      (set_eq
        (paths_with (codes "parser_policy" ∷ codes "command_implementation" ∷ [])
          c.parser_policy.source_references)
        paths)
      policy_paths_mismatch

abbrev pub check_policy : Command → Option Policy → Result Error (Unit {0})
check_policy c none = err unpinned_command
check_policy c (some expected) = require (same (parser_policy_signature c) expected) policy_mismatch

unfoldable pub check_command : Pins → Command → Result Error (Unit {0})
unfolding set_eq forms_of paths_with references_of expected_parser_policy
check_command pins c = do
  check_policy c (expected_parser_policy pins c.name)
  require (not (has_repeat (map (λ (o : Entry). o.canonical_name) c.options)))
      duplicate_canonical_option
  forms ← forms_of c.options
  require (not (has_repeat forms)) overlapping_forms
  require (all (λ e. mem e forms) c.parser_policy.policy.exact_only_options)
      undefined_exact_only_option
  require
      (set_eq (map (λ (r : Reference). r.kind) c.parser_policy.source_references)
        (expected_policy_kinds c.name))
      source_kinds_mismatch
  check_paths c (get c.name pins.policy_source_paths)

unfoldable pub check_commands : Pins → List Command → Result Error (Unit {0})
unfolding check_command
check_commands pins [] = ok tt
check_commands pins (c ∷ cs) = check_command pins c >> check_commands pins cs
