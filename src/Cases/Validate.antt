-- ===== src/Cases/Validate.antt =====
-- `validate_contract`, as far as the end of its loop over the cases. The hashes of a policy and of a suite
-- are parameters.
pub mod Proves
use ferricov.Base.{
  ◌≡◌, ℕ, ◌==◌, Bool, true, false, ◌&&◌, List, [], ◌∷◌, ◌++◌, map, Option, none, some, Result, ok,
  err, ◌>>=◌, ◌>>◌, require, all, length, if◌then◌else◌,
}
use ferricov.Base.Bytes.{Bytes, codes, bytes_eq, mem}
use ferricov.Base.Same.{Same, same, bytes_same, option_same, list_same, pair_same, along}
use ferricov.Base.Sets.{dict_eq, keys_eq}
use ferricov.Base.Dict.{get, dict_of}
use ferricov.Cases.Policy.{Family, Policy, Command}
use ferricov.Cases.Equality.{family_same, policy_same}
use ferricov.Cases.Inventory.{Maps, Partition, inventory_maps, build_family_equivalence}
use ferricov.Cases.Records.{
  Case, Link, Derived, Error, unknown_case, partition_drift, suite_set_drift, suite_hash_drift,
  suite_count_drift, suite_environment_drift, duplicate_record, record_set_drift, posix_suite,
  partitions_by_id, lifted,
}
use ferricov.Cases.Contract.{check_case}

abbrev pub partition_fields : Partition → ((Bytes × Family) × (List Bytes × Bytes)) × Policy
partition_fields p = (((p.id, p.family), (p.commands, p.policy_sha256)), p.policy)

pub partition-injective : (p q : Partition) → partition_fields p ≡ partition_fields q → p ≡ q
partition-injective p q e = cc

instance abbrev pub partition_same : Same Partition
partition_same = along pair_same partition_fields partition-injective

pub record SuiteRecord : Type 0 where
  pub suite_id : Bytes
  pub sha256 : Bytes
  pub case_count : ℕ
  pub environment_overrides : List (Bytes × Bytes)

pub record CaseContract : Type 0 where
  pub suites : List SuiteRecord
  pub family_equivalence : List Partition
  pub cases : List (Link × Derived)

-- SUITE_IDS
abbrev pub suite_ids : List Bytes
suite_ids = codes "m0-cli-contract-core" ∷ codes "m0-cli-contract-policy" ∷ posix_suite ∷ []

-- SUITE_ENVIRONMENT_OVERRIDES
abbrev pub overrides_of : Bytes → List (Bytes × Bytes)
overrides_of id = if bytes_eq id posix_suite then (codes "POSIXLY_CORRECT", codes "1") ∷ [] else []

-- The cases of every suite, by id, with their suite.
abbrev pub cases_of : (Bytes → List Case) → List Bytes → List (Bytes × (Bytes × Case))
cases_of suites [] = []
cases_of suites (id ∷ ids) = map (λ (c : Case). (c.id, (id, c))) (suites id) ++ cases_of suites ids

abbrev pub cases_by_id : (Bytes → List Case) → List (Bytes × (Bytes × Case))
cases_by_id suites = dict_of (cases_of suites suite_ids)

abbrev pub records_by_id : CaseContract → List (Bytes × (Link × Derived))
records_by_id contract = dict_of (map (λ r. (r.0.case_id, r)) contract.cases)

abbrev pub check_found :
    Maps
    → List (Bytes × Partition)
    → Bytes
    → Case
    → Option (Link × Derived)
    → Result Error (Unit {0})
check_found maps partitions suite_id case none = err unknown_case
check_found maps partitions suite_id case (some r) = check_case maps partitions suite_id case r

unfoldable pub check_cases :
    Maps
    → List (Bytes × Partition)
    → List (Bytes × (Link × Derived))
    → List (Bytes × (Bytes × Case))
    → Result Error (Unit {0})
check_cases maps partitions records [] = ok tt
check_cases maps partitions records ((id, (suite_id, case)) ∷ cases) =
    check_found maps partitions suite_id case (get id records)
    >> check_cases maps partitions records cases

module _ (canonical_hash : Policy → Bytes) (suite_sha256 : List Case → Bytes) where
  abbrev pub check_suite : List Case → Bytes → Option SuiteRecord → Result Error (Unit {0})
  check_suite cases id none = err suite_set_drift
  check_suite cases id (some r) = do
    require (bytes_eq r.sha256 (suite_sha256 cases)) suite_hash_drift
    require (r.case_count == length cases) suite_count_drift
    require (dict_eq r.environment_overrides (overrides_of id)) suite_environment_drift

  unfoldable pub check_suites :
      (Bytes → List Case) → List (Bytes × SuiteRecord) → List Bytes → Result Error (Unit {0})
  unfolding dict_eq
  check_suites suites records [] = ok tt
  check_suites suites records (id ∷ ids) =
      check_suite (suites id) id (get id records) >> check_suites suites records ids

  abbrev pub suites_by_id : CaseContract → List (Bytes × SuiteRecord)
  suites_by_id contract = dict_of (map (λ (r : SuiteRecord). (r.suite_id, r)) contract.suites)

  unfoldable pub validate_cases :
      CaseContract → (Bytes → List Case) → List Command → Result Error (Unit {0})
  validate_cases contract suites inventory = do
    maps ← lifted (inventory_maps inventory)
    expected ← lifted (build_family_equivalence canonical_hash inventory)
    let partitions = partitions_by_id contract.family_equivalence
    require (dict_eq partitions (partitions_by_id expected)) partition_drift
    require (keys_eq (suites_by_id contract) (map (λ id. (id, id)) suite_ids)) suite_set_drift
    check_suites suites (suites_by_id contract) suite_ids
    require (length (records_by_id contract) == length contract.cases) duplicate_record
    require (keys_eq (records_by_id contract) (cases_by_id suites)) record_set_drift
    check_cases maps partitions (records_by_id contract) (cases_by_id suites)
