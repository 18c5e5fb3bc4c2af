-- ===== src/Cases/Validate/Proves.antt =====
-- What an accepted contract says of every case of the suites.
use ferricov.Base.{
  ◌≡◌, refl, subst, true, ◌&&◌, List, [], ◌∷◌, Option, none, some, ok, require, >>-eq-ok,
  require-eq-ok, Bool-cases, inl, inr,
}
use ferricov.Base.Bytes.{Bytes, bytes_eq, bytes_eq→eq, mem}
use ferricov.Base.Same.{same, option_same}
use ferricov.Base.Dict.{get}
use ferricov.Base.Sets.{both, dict_eq, dict_eq-get}
use ferricov.Cases.Policy.{Family, Policy, Command}
use ferricov.Cases.Equality.{family_same}
use ferricov.Cases.Inventory.{Maps, Partition, inventory_maps, build_family_equivalence}
use ferricov.Cases.Records.{
  Case, Link, Derived, derive, partitions_by_id, case_identity_drift, duplicate_link,
  no_links_nor_equivalence, wrong_equivalence, absent_from_equivalence, policy_expectation_mismatch,
  partition_drift, suite_set_drift, duplicate_record, record_set_drift,
}
use ferricov.Cases.Contract.{
  check_case, check_entries, check_equivalence, check_partition, meets, is_empty, is_blank,
}
use ferricov.Cases.Contract.Derives.{check_derived-derive}
use ferricov.Cases.Validate.{
  CaseContract, suite_ids, partition_same, cases_by_id, records_by_id, check_found, check_cases,
  check_suites, validate_cases,
}

-- A case with no equivalence has no derived fields. One with an equivalence executes a command of its part, and
-- its fields are those derived.
some_injective {ℓ} : {A : Type ℓ} {a b : A} → some a ≡ some b → a ≡ b
some_injective h = cc

abbrev pub Proves :
    List (Bytes × Command)
    → List (Bytes × Partition)
    → Case
    → Link
    → Derived
    → Option Bytes
    → Type 0
Proves commands partitions case l d none = is_blank d ≡ true
Proves commands partitions case l d (some id) =
    (p : Partition) × (get id partitions ≡ some p)
    × (mem case.command p.commands ≡ true)
    × (derive commands p case.arguments l ≡ ok d)

check_partition-Proves :
    (maps : Maps) (partitions : List (Bytes × Partition)) (id : Bytes) (case : Case) (l : Link)
    (d : Derived) (o : Option Partition) (f : Option Family)
    → l.command ≡ case.command
    → get id partitions ≡ o
    → check_partition maps o f case l d ≡ ok tt
    → Proves maps.commands partitions case l d (some id)
check_partition-Proves maps partitions id case l d none f executed found h = cc
check_partition-Proves maps partitions id case l d (some p) none executed found h = cc
check_partition-Proves maps partitions id case l d (some p) (some family) executed found h =
    let (h1, k1) = >>-eq-ok (require (same p.family family) wrong_equivalence) _ h in
    let (h2, k2) = >>-eq-ok (require (mem case.command p.commands) absent_from_equivalence) _ k1 in
    let (h3, k3) =
      >>-eq-ok (require (meets p.policy l.policy_expectations) policy_expectation_mismatch) _ k2 in
    let there = require-eq-ok (mem case.command p.commands) absent_from_equivalence h2 in
    (p, found, there, (check_derived-derive maps.commands p case l d executed there).0 k3)

check_equivalence-Proves :
    (maps : Maps) (partitions : List (Bytes × Partition)) (case : Case) (l : Link) (d : Derived)
    (o : Option Bytes)
    → l.command ≡ case.command
    → check_equivalence maps partitions case l d o ≡ ok tt
    → Proves maps.commands partitions case l d o
check_equivalence-Proves maps partitions case l d none executed h =
    require-eq-ok (is_blank d) _ (>>-eq-ok (require (is_empty l.policy_expectations) _) _ h).1
check_equivalence-Proves maps partitions case l d (some id) executed h =
    check_partition-Proves maps partitions id case l d (get id partitions)
      (get case.command maps.families) executed refl h

-- The record of a case.
abbrev pub IsProved :
    List (Bytes × Command) → List (Bytes × Partition) → Bytes → Case → Link × Derived → Type 0
IsProved commands partitions suite_id case (l, d) =
    (l.suite_id ≡ suite_id)
    × (l.command ≡ case.command)
    × Proves commands partitions case l d l.family_equivalence

check_case-IsProved :
    (maps : Maps) (partitions : List (Bytes × Partition)) (suite_id : Bytes) (case : Case)
    (r : Link × Derived)
    → check_case maps partitions suite_id case r ≡ ok tt
    → IsProved maps.commands partitions suite_id case r
unfolding check_case
check_case-IsProved maps partitions suite_id case (l, d) h =
    let identity = bytes_eq l.suite_id suite_id && bytes_eq l.command case.command in
    let (h1, k1) = >>-eq-ok (require identity case_identity_drift) _ h in
    let same_both : identity ≡ true = require-eq-ok identity case_identity_drift h1 in
    let (_, k2) = >>-eq-ok (require _ duplicate_link) _ k1 in
    let (_, k3) = >>-eq-ok (check_entries case.command maps.entries l.inventory_entries) _ k2 in
    let (_, k4) = >>-eq-ok (require _ no_links_nor_equivalence) _ k3 in
    let (same_suite, same_command) = both {a = bytes_eq l.suite_id suite_id} same_both in
    let executed = bytes_eq→eq l.command case.command same_command in
    (
      bytes_eq→eq l.suite_id suite_id same_suite,
      executed,
      check_equivalence-Proves maps partitions case l d l.family_equivalence executed k4,
    )

check_found-IsProved :
    (maps : Maps) (partitions : List (Bytes × Partition)) (suite_id : Bytes) (case : Case)
    (o : Option (Link × Derived))
    → check_found maps partitions suite_id case o ≡ ok tt
    → (r : Link × Derived) × (o ≡ some r) × IsProved maps.commands partitions suite_id case r
check_found-IsProved maps partitions suite_id case none h = cc
check_found-IsProved maps partitions suite_id case (some r) h =
    (r, refl, check_case-IsProved maps partitions suite_id case r h)

check_cases-IsProved :
    (maps : Maps) (partitions : List (Bytes × Partition))
    (records : List (Bytes × (Link × Derived))) (cases : List (Bytes × (Bytes × Case))) (id : Bytes)
    {suite_id : Bytes} {case : Case}
    → check_cases maps partitions records cases ≡ ok tt
    → get id cases ≡ some (suite_id, case)
    → (r : Link × Derived) × (get id records ≡ some r)
      × IsProved maps.commands partitions suite_id case r
unfolding check_cases get
check_cases-IsProved maps partitions records [] id h found = cc
check_cases-IsProved maps partitions records ((j, (s, c)) ∷ cases) id {suite_id} {case} h found =
    let (first, others) = >>-eq-ok (check_found maps partitions s c (get j records)) _ h in
    elim (Bool-cases (bytes_eq j id)) [
      | inl here ↦
          let same_case : (s, c) ≡ (suite_id, case) = some_injective (rw here at found) in
          let (r, got, proved) = check_found-IsProved maps partitions s c (get j records) first in
          (
            r,
            subst (λ (i : Bytes). get i records ≡ some r) (bytes_eq→eq j id here) got,
            subst (λ (v : Bytes × Case). IsProved maps.commands partitions v.0 v.1 r) same_case
                proved,
          )
      | inr there ↦ check_cases-IsProved maps partitions records cases id others (rw there at found)
    ]

Proves-among :
    (commands : List (Bytes × Command)) (partitions expected : List (Bytes × Partition))
    (case : Case) (l : Link) (d : Derived) (o : Option Bytes)
    → dict_eq partitions expected ≡ true
    → Proves commands partitions case l d o
    → Proves commands expected case l d o
Proves-among commands partitions expected case l d none h proved = proved
Proves-among commands partitions expected case l d (some id) h (p, found, there, derived) =
    (p, dict_eq-get partitions expected id h found, there, derived)

module _ (canonical_hash : Policy → Bytes) (suite_sha256 : List Case → Bytes)
    (contract : CaseContract) (suites : Bytes → List Case) (inventory : List Command) {maps : Maps}
    {built : List Partition} (m : inventory_maps inventory ≡ ok maps)
    (b : build_family_equivalence canonical_hash inventory ≡ ok built)
    (accepted : validate_cases canonical_hash suite_sha256 contract suites inventory ≡ ok tt) where
  -- When the loop over the cases of validate_contract ends without an error, the case of every id has a
  -- record, which names its suite and its command. Where the record has no family equivalence, its derived
  -- fields are empty. Where it has one, that is the id of a part that build_family_equivalence builds, the
  -- command is in the part, and the derived fields are those that build_case_contract derives.
  pub validate_cases-IsProved :
      (id suite_id : Bytes) (case : Case)
      → get id (cases_by_id suites) ≡ some (suite_id, case)
      → (r : Link × Derived) × (get id (records_by_id contract) ≡ some r)
        × IsProved maps.commands (partitions_by_id built) suite_id case r
  unfolding validate_cases
  validate_cases-IsProved id suite_id case found =
      let partitions = partitions_by_id contract.family_equivalence in
      let parts = partitions_by_id built in
      let checks : _ = rw (m, b) at accepted in
      let (h1, k1) = >>-eq-ok (require (dict_eq partitions parts) partition_drift) _ checks in
      let (_, k2) = >>-eq-ok (require _ suite_set_drift) _ k1 in
      let (_, k3) = >>-eq-ok (check_suites canonical_hash suite_sha256 suites _ suite_ids) _ k2 in
      let (_, k4) = >>-eq-ok (require _ duplicate_record) _ k3 in
      let (_, k5) = >>-eq-ok (require _ record_set_drift) _ k4 in
      let (r, got, (suite, command, proved)) =
        check_cases-IsProved maps partitions (records_by_id contract) (cases_by_id suites) id k5
          found in
      let among = require-eq-ok (dict_eq partitions parts) partition_drift h1 in
      (
        r,
        got,
        (
          suite,
          command,
          Proves-among maps.commands partitions parts case r.0 r.1 r.0.family_equivalence among
              proved,
        ),
      )
