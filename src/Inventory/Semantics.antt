-- ===== src/Inventory/Semantics.antt =====
-- `validate_inventory_semantics` of compat/verify.py.
pub mod Ids
pub mod Passes
pub mod Families
pub mod Composes
use ferricov.Base.{
  ℕ, ◌+◌, ◌==◌, ltb, Bool, true, false, ◌&&◌, not, List, [], ◌∷◌, ◌++◌, map, Option, some, Result,
  ok, err, ◌>>=◌, ◌>>◌, require, if◌then◌else◌, all, length,
}
use ferricov.Base.Bytes.{Bytes, codes, bytes_eq, starts_with, mem}
use ferricov.Base.Dict.{dict_of}
use ferricov.Base.Sets.{has_repeat, set_eq, keys, dict_eq}
use ferricov.Base.Same.{Same, bytes_same, list_same}
use ferricov.Correctness.Path.{parts}
use ferricov.Cases.Policy.{Family, Reference, Entry, Command, is_defined, parser_option_definitions}
use ferricov.Cases.Equality.{nat_same, family_same}
use ferricov.Inventory.Pins.{Pins}
use ferricov.Inventory.Commands.{
  Error, command_set_mismatch, parser_totals_mismatch, policy_families_mismatch,
  positional_contract_mismatch, inventory_totals_mismatch, duplicate_entry_id,
  unsafe_source_reference, positional_inventory, is_public, references_of, check_commands,
}
use ferricov.Inventory.Profiles.{check_profiles, check_targets}

-- A configuration key or a support script: what is read of it.
pub record Item : Type 0 where
  pub id : Bytes
  pub source_references : List Reference

pub record Inventory : Type 0 where
  pub commands : List Command
  pub config_keys : List Item
  pub support_scripts : List Item
  pub totals : List (Bytes × ℕ)

unfoldable pub options_of : List Command → List Entry
options_of [] = []
options_of (c ∷ cs) = c.options ++ options_of cs

unfoldable pub positionals_of : List Command → List Entry
positionals_of [] = []
positionals_of (c ∷ cs) = c.positional_arguments ++ positionals_of cs

abbrev pub item_of : Entry → Item
item_of e = record { id = e.id; source_references = e.source_references }

abbrev pub entries_of : Inventory → List Item
entries_of i =
    map item_of (options_of i.commands)
    ++ (map item_of (positionals_of i.commands) ++ (i.config_keys ++ i.support_scripts))

-- sum(test(x) for x in xs)
unfoldable pub count : (Entry → Bool) → List Entry → ℕ
count test [] = 0
count test (e ∷ es) = (if test e then 1 else 0) + count test es

abbrev pub parser_counts : List Command → List (Bytes × ℕ)
parser_counts cs = dict_of (map (λ (c : Command). (c.name, count is_defined c.options)) cs)

unfoldable pub sum_values : List (Bytes × ℕ) → ℕ
sum_values [] = 0
sum_values ((k, n) ∷ items) = n + sum_values items

abbrev pub policy_families : List Command → List (Bytes × Family)
policy_families cs = dict_of (map (λ (c : Command). (c.name, c.parser_policy.policy.family)) cs)

abbrev pub positional_names : List Command → List (Bytes × List Bytes)
positional_names cs = dict_of (
    map (λ (c : Command). (c.name, map (λ (e : Entry). e.canonical_name) c.positional_arguments))
      cs)

abbrev pub is_reviewed_public : Entry → Bool
is_reviewed_public o = bytes_eq o.review_status (codes "reviewed") && is_public o

abbrev pub is_unreviewed : Entry → Bool
is_unreviewed o = bytes_eq o.review_status (codes "unreviewed")

unfoldable pub expected_totals : Inventory → List (Bytes × ℕ)
unfolding options_of positionals_of count sum_values
expected_totals i =
    (codes "installed_commands", length i.commands)
    ∷ (codes "command_options", length (options_of i.commands))
    ∷ (codes "parser_command_options", sum_values (parser_counts i.commands))
    ∷ (codes "public_command_options", count is_reviewed_public (options_of i.commands))
    ∷ (codes "unreviewed_command_options", count is_unreviewed (options_of i.commands))
    ∷ (codes "positional_arguments", length (positionals_of i.commands))
    ∷ (codes "config_keys", length i.config_keys)
    ∷ (codes "support_scripts", length i.support_scripts)
    ∷ []

abbrev pub is_nonempty : Bytes → Bool
is_nonempty [] = false
is_nonempty (b ∷ bs) = true

unfoldable pub source_path_is_safe : Bytes → Bool
source_path_is_safe path =
    is_nonempty path && (not (starts_with (codes "/") path) && not (mem (codes "..") (parts path)))

unfoldable pub item_references : List Item → List Reference
item_references [] = []
item_references (e ∷ es) = e.source_references ++ item_references es

unfoldable pub policy_references : List Command → List Reference
policy_references [] = []
policy_references (c ∷ cs) = c.parser_policy.source_references ++ policy_references cs

abbrev pub is_safe_reference : Reference → Bool
is_safe_reference r = source_path_is_safe r.path && not (ltb r.line 1)

unfoldable pub validate_inventory_semantics : Pins → Inventory → Result Error (Unit {0})
unfolding options_of positionals_of count expected_totals source_path_is_safe item_references
    policy_references set_eq dict_eq check_commands check_profiles check_targets
validate_inventory_semantics pins i = do
  let names = map (λ (c : Command). c.name) i.commands
  require (not (has_repeat names) && set_eq names (keys pins.commands)) command_set_mismatch
  require (dict_eq ⦃s = nat_same⦄ (parser_counts i.commands) pins.commands) parser_totals_mismatch
  require (dict_eq (policy_families i.commands) pins.policy_families) policy_families_mismatch
  require (dict_eq (positional_names i.commands) pins.positionals) positional_contract_mismatch
  require (dict_eq ⦃s = nat_same⦄ i.totals (expected_totals i)) inventory_totals_mismatch
  require (not (has_repeat (map (λ (e : Item). e.id) (entries_of i)))) duplicate_entry_id
  check_commands pins i.commands
  require (all is_safe_reference (policy_references i.commands ++ item_references (entries_of i)))
      unsafe_source_reference
  check_profiles pins (options_of i.commands)
  check_targets pins (options_of i.commands)
  require ((length (positionals_of i.commands) == 9) && all is_defined (positionals_of i.commands))
      positional_inventory
