-- ===== src/Inventory/Semantics/Passes.antt =====
-- The checks that an inventory has passed when `validate_inventory_semantics` accepts it.
use ferricov.Base.{
  ◌==◌, ◌≡◌, Bool, true, false, ◌&&◌, not, List, [], ◌∷◌, ◌++◌, map, ok, require, arith, all, All,
  length, >>-eq-ok, require-eq-ok,
}
use ferricov.Base.Sets.{has_repeat, set_eq, keys, dict_eq, both}
use ferricov.Cases.Policy.{Command, is_defined}
use ferricov.Cases.Equality.{family_same}
use ferricov.Inventory.Pins.{Pins}
use ferricov.Inventory.Commands.{check_command, check_commands, Error}
use ferricov.Inventory.Profiles.{check_profiles, check_targets}
use ferricov.Inventory.Semantics.{
  Item, Inventory, options_of, positionals_of, entries_of, policy_families, is_safe_reference,
  policy_references, item_references, validate_inventory_semantics,
}

pub check_commands-All :
    (pins : Pins) (cs : List Command)
    → check_commands pins cs ≡ ok tt
    → All (λ c. check_command pins c ≡ ok tt) cs
unfolding check_commands
check_commands-All pins [] h = tt
check_commands-All pins (c ∷ cs) h =
    let (first, rest) = >>-eq-ok (check_command pins c) _ h in
    (first, check_commands-All pins cs rest)

not-true : {b : Bool} → not b ≡ true → b ≡ false
not-true h = ground arith

pub record Passes (pins : Pins) (i : Inventory) : Type 0 where
  pub different_names : has_repeat (map (λ (c : Command). c.name) i.commands) ≡ false
  pub names : set_eq (map (λ (c : Command). c.name) i.commands) (keys pins.commands) ≡ true
  pub families : dict_eq (policy_families i.commands) pins.policy_families ≡ true
  pub different_ids : has_repeat (map (λ (e : Item). e.id) (entries_of i)) ≡ false
  pub each_command : All (λ c. check_command pins c ≡ ok tt) i.commands
  pub references :
      all is_safe_reference (policy_references i.commands ++ item_references (entries_of i)) ≡ true
  pub profiles : check_profiles pins (options_of i.commands) ≡ ok tt
  pub targets : check_targets pins (options_of i.commands) ≡ ok tt
  pub positionals :
      ((length (positionals_of i.commands) == 9) && all is_defined (positionals_of i.commands))
      ≡ true

pub validate_inventory_semantics-Passes :
    (pins : Pins) (i : Inventory) → validate_inventory_semantics pins i ≡ ok tt → Passes pins i
unfolding validate_inventory_semantics
validate_inventory_semantics-Passes pins i h =
    let (a1, k1) = >>-eq-ok (require _ Error.command_set_mismatch) _ h in
    let (_, k2) = >>-eq-ok (require _ Error.parser_totals_mismatch) _ k1 in
    let (a3, k3) = >>-eq-ok (require _ Error.policy_families_mismatch) _ k2 in
    let (_, k4) = >>-eq-ok (require _ Error.positional_contract_mismatch) _ k3 in
    let (_, k5) = >>-eq-ok (require _ Error.inventory_totals_mismatch) _ k4 in
    let (a6, k6) = >>-eq-ok (require _ Error.duplicate_entry_id) _ k5 in
    let (a7, k7) = >>-eq-ok (check_commands pins i.commands) _ k6 in
    let (a8, k8) = >>-eq-ok (require _ Error.unsafe_source_reference) _ k7 in
    let (a9, k9) = >>-eq-ok (check_profiles pins (options_of i.commands)) _ k8 in
    let (a10, a11) = >>-eq-ok (check_targets pins (options_of i.commands)) _ k9 in
    let (one, two) = both (require-eq-ok _ Error.command_set_mismatch a1) in
    record {
      different_names = not-true one;
      names = two;
      families = require-eq-ok _ Error.policy_families_mismatch a3;
      different_ids = not-true (require-eq-ok _ Error.duplicate_entry_id a6);
      each_command = check_commands-All pins i.commands a7;
      references = require-eq-ok _ Error.unsafe_source_reference a8;
      profiles = a9;
      targets = a10;
      positionals = require-eq-ok _ Error.positional_inventory a11;
    }
