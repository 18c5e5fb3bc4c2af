-- ===== src/Cases/Records.antt =====
-- `build_case_contract`: the records of a case contract. The hash of a policy is a parameter.
use ferricov.Base.{List, [], ◌∷◌, map, Option, none, some, Result, ok, err, ◌>>=◌, if◌then◌else◌}
use ferricov.Base.Bytes.{Bytes, codes, bytes_eq}
use ferricov.Base.Same.{same, bytes_same, option_same, list_same, pair_same}
use ferricov.Base.Dict.{get, dict_of, sorted}
use ferricov.Cases.Policy.{Policy, Command}
use ferricov.Cases.Token.{Token}
use ferricov.Cases.Resolve
use ferricov.Cases.Resolve.{case_resolution_signature}
use ferricov.Cases.Equality.{token_same, policy_same, family_same, Field, field_same}
use ferricov.Cases.Inventory
use ferricov.Cases.Inventory.{Maps, Partition, inventory_maps, build_family_equivalence}

pub record Case : Type 0 where
  pub id : Bytes
  pub command : Bytes
  pub arguments : List Bytes

-- A case's record, without the fields that are worked out.
pub record Link : Type 0 where
  pub case_id : Bytes
  pub suite_id : Bytes
  pub command : Bytes
  pub inventory_entries : List Bytes
  pub family_equivalence : Option Bytes
  pub policy_expectations : List (Bytes × Field)

pub record Derived : Type 0 where
  pub equivalence_profile : Option Bytes
  pub equivalence_claims : List Bytes
  pub covered_commands : List Bytes
  pub inference_scope : Option Bytes
  pub probe_resolution : Option (List Token)

pub data Error : Type 0 where
  inventory_error : Inventory.Error → Error
  resolve_error : Resolve.Error → Error
  unknown_command unknown_case unknown_partition : Error
  case_identity_drift duplicate_link unknown_link cross_command_link unqualified_link : Error
  no_links_nor_equivalence unknown_equivalence wrong_equivalence absent_from_equivalence : Error
  policy_expectation_mismatch profile_drift claims_drift scope_drift resolution_drift : Error
  coverage_drift executed_command_absent expectations_without_proof stray_claims : Error
  partition_drift suite_set_drift suite_hash_drift suite_count_drift suite_environment_drift : Error
  duplicate_record record_set_drift : Error

abbrev pub posix_suite : Bytes
posix_suite = codes "m0-cli-contract-posix"

abbrev pub profile_of : Bytes → Bytes
profile_of suite_id =
    if bytes_eq suite_id posix_suite then codes "posixly_correct" else codes "default"

abbrev resolved : Result Resolve.Error (List Token) → Result Error (List Token)
resolved (err e) = err (resolve_error e)
resolved (ok rs) = ok rs

module _ (commands : List (Bytes × Command)) (arguments : List Bytes) (profile : Bytes) where
  -- `case_resolution_signature(commands[name], ...)`
  unfoldable pub signature_for : Bytes → Result Error (List Token)
  signature_for name = elim (get name commands) [
    | none ↦ err unknown_command
    | some c ↦ resolved (case_resolution_signature c arguments profile)
  ]

  -- The commands whose signature is `base`.
  unfoldable pub covered : List Token → List Bytes → Result Error (List Bytes)
  covered base [] = ok []
  covered base (name ∷ names) = do
    rs ← signature_for name
    rest ← covered base names
    ok (if same rs base then name ∷ rest else rest)

abbrev pub claims : Link → List Bytes
claims l = sorted (map (λ item. item.0) l.policy_expectations)

-- The fields of a link with an equivalence.
unfoldable pub derive :
    List (Bytes × Command) → Partition → List Bytes → Link → Result Error Derived
unfolding covered
derive commands partition arguments l = do
  base ← signature_for commands arguments (profile_of l.suite_id) l.command
  names ← covered commands arguments (profile_of l.suite_id) base partition.commands
  ok (record {
    equivalence_profile = some (profile_of l.suite_id);
    equivalence_claims = claims l;
    covered_commands = names;
    inference_scope = some (codes "parser_resolution");
    probe_resolution = some base;
  })

abbrev pub blank : Derived
blank = record {
  equivalence_profile = none;
  equivalence_claims = [];
  covered_commands = [];
  inference_scope = none;
  probe_resolution = none;
}

-- One link of `build_case_contract`.
abbrev enrich_with :
    List (Bytes × Command) → Option Partition → Option Case → Link → Result Error (Link × Derived)
enrich_with commands partition none l = err unknown_case
enrich_with commands none (some case) l = err unknown_partition
enrich_with commands (some partition) (some case) l = do
  d ← derive commands partition case.arguments l
  ok (l, d)

unfoldable pub enrich :
    List (Bytes × Command)
    → List (Bytes × Partition)
    → List (Bytes × Case)
    → Link
    → Option Bytes
    → Result Error (Link × Derived)
enrich commands partitions cases l none = ok (l, blank)
enrich commands partitions cases l (some id) =
    enrich_with commands (get id partitions) (get l.case_id cases) l

unfoldable pub enrich_all :
    List (Bytes × Command)
    → List (Bytes × Partition)
    → List (Bytes × Case)
    → List Link
    → Result Error (List (Link × Derived))
unfolding enrich
enrich_all commands partitions cases [] = ok []
enrich_all commands partitions cases (l ∷ ls) = do
  r ← enrich commands partitions cases l l.family_equivalence
  rs ← enrich_all commands partitions cases ls
  ok (r ∷ rs)

abbrev pub lifted {ℓ} : {A : Type ℓ} → Result Inventory.Error A → Result Error A
lifted (err e) = err (inventory_error e)
lifted (ok a) = ok a

-- SUITE_IDS, with the cases of each suite.
abbrev pub by_id : List Case → List (Bytes × Case)
by_id cases = dict_of (map (λ c. (c.id, c)) cases)

abbrev pub partitions_by_id : List Partition → List (Bytes × Partition)
partitions_by_id ps = dict_of (map (λ p. (p.id, p)) ps)

-- `family_equivalence` and `cases` of the contract, from the cases of all suites in their order.
unfoldable pub build_case_contract :
    (Policy → Bytes)
    → List Command
    → List Case
    → List Link
    → Result Error (List Partition × List (Link × Derived))
unfolding build_family_equivalence enrich_all
build_case_contract canonical_hash inventory cases links = do
  maps ← lifted (inventory_maps inventory)
  partitions ← lifted (build_family_equivalence canonical_hash inventory)
  records ← enrich_all maps.commands (partitions_by_id partitions) (by_id cases) links
  ok (partitions, records)
