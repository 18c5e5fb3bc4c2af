-- ===== src/Cases/Contract.antt =====
-- One case of `validate_contract`. The contract's fields are typed.
pub mod Derives
use ferricov.Base.{
  Bool, true, false, ◌&&◌, ◌||◌, not, List, [], ◌∷◌, ◌++◌, map, Option, none, some, Result, ok, err,
  ◌>>=◌, ◌>>◌, require, if◌then◌else◌, all, length, ℕ,
}
use ferricov.Base.Bytes.{Bytes, codes, bytes_eq, starts_with, mem}
use ferricov.Base.Same.{Same, same, bytes_same, option_same, list_same, pair_same}
use ferricov.Base.Sets.{has_repeat}
use ferricov.Base.Dict.{get, put, dict_of, sorted}
use ferricov.Cases.Policy.{Family, Policy, Entry, Command, parser_policy_signature}
use ferricov.Cases.Token.{Token}
use ferricov.Cases.Resolve
use ferricov.Cases.Resolve.{case_resolution_signature}
use ferricov.Cases.Equality.{
  token_same, policy_same, family_same, Field, null, field_same, policy_items,
}
use ferricov.Cases.Inventory
use ferricov.Cases.Inventory.{Maps, Partition, inventory_maps, build_family_equivalence}
use ferricov.Cases.Records.{
  Case, Link, Derived, Error, resolve_error, unknown_command, unknown_case, unknown_partition,
  case_identity_drift, duplicate_link, unknown_link, cross_command_link, unqualified_link,
  no_links_nor_equivalence, unknown_equivalence, wrong_equivalence, absent_from_equivalence,
  policy_expectation_mismatch, profile_drift, claims_drift, scope_drift, resolution_drift,
  coverage_drift, executed_command_absent, expectations_without_proof, stray_claims, profile_of,
  signature_for, covered, claims,
}

-- The links of a case to the inventory.
abbrev pub check_entry : Bytes → Bytes → Option Entry → Result Error (Unit {0})
check_entry command id none = err unknown_link
check_entry command id (some e) = do
  require (starts_with (codes "command." ++ (command ++ codes ".")) id) cross_command_link
  require
      (bytes_eq e.classification (codes "public") && bytes_eq e.review_status (codes "reviewed"))
      unqualified_link

unfoldable pub check_entries : Bytes → List (Bytes × Entry) → List Bytes → Result Error (Unit {0})
check_entries command entries [] = ok tt
check_entries command entries (id ∷ ids) =
    check_entry command id (get id entries) >> check_entries command entries ids

-- `partition["policy"].get(key)`
abbrev pub policy_value : Policy → Bytes → Option Field → Field
policy_value p key none = null
policy_value p key (some v) = v

unfoldable pub meets : Policy → List (Bytes × Field) → Bool
meets p [] = true
meets p ((key, value) ∷ items) =
    same (policy_value p key (get key (policy_items p))) value && meets p items

-- The fields of a record with an equivalence.
unfoldable pub check_derived :
    List (Bytes × Command) → Partition → Case → Link → Derived → Result Error (Unit {0})
unfolding covered
check_derived commands partition case l d = do
  require (same d.equivalence_profile (some (profile_of l.suite_id))) profile_drift
  require (same d.equivalence_claims (claims l)) claims_drift
  require (same d.inference_scope (some (codes "parser_resolution"))) scope_drift
  base ← signature_for commands case.arguments (profile_of l.suite_id) case.command
  require (same d.probe_resolution (some base)) resolution_drift
  names ← covered commands case.arguments (profile_of l.suite_id) base partition.commands
  require (same d.covered_commands names) coverage_drift
  require (mem case.command names) executed_command_absent

abbrev pub check_partition :
    Maps → Option Partition → Option Family → Case → Link → Derived → Result Error (Unit {0})
check_partition maps none family case l d = err unknown_equivalence
check_partition maps (some partition) none case l d = err unknown_command
check_partition maps (some partition) (some family) case l d = do
  require (same partition.family family) wrong_equivalence
  require (mem case.command partition.commands) absent_from_equivalence
  require (meets partition.policy l.policy_expectations) policy_expectation_mismatch
  check_derived maps.commands partition case l d

abbrev pub is_empty {ℓ} : {A : Type ℓ} → List A → Bool
is_empty [] = true
is_empty (x ∷ xs) = false

abbrev pub is_none {ℓ} : {A : Type ℓ} → Option A → Bool
is_none none = true
is_none (some a) = false

-- `in (None, [])`
abbrev pub no_tokens : Option (List Token) → Bool
no_tokens none = true
no_tokens (some rs) = is_empty rs

abbrev pub is_blank : Derived → Bool
is_blank d =
    is_none d.equivalence_profile
    && (is_empty d.equivalence_claims
        && (is_empty d.covered_commands
            && (is_none d.inference_scope && no_tokens d.probe_resolution)))

abbrev pub check_equivalence :
    Maps → List (Bytes × Partition) → Case → Link → Derived → Option Bytes → Result Error (Unit {0})
check_equivalence maps partitions case l d (some id) =
    check_partition maps (get id partitions) (get case.command maps.families) case l d
check_equivalence maps partitions case l d none = do
  require (is_empty l.policy_expectations) expectations_without_proof
  require (is_blank d) stray_claims

-- One case of `validate_contract`, in the suite `suite_id`.
unfoldable pub check_case :
    Maps → List (Bytes × Partition) → Bytes → Case → Link × Derived → Result Error (Unit {0})
unfolding check_entries meets check_derived
check_case maps partitions suite_id case (l, d) = do
  require (bytes_eq l.suite_id suite_id && bytes_eq l.command case.command) case_identity_drift
  require (not (has_repeat l.inventory_entries)) duplicate_link
  check_entries case.command maps.entries l.inventory_entries
  require (not (is_empty l.inventory_entries && is_none l.family_equivalence))
      no_links_nor_equivalence
  check_equivalence maps partitions case l d l.family_equivalence
