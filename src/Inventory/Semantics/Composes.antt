-- ===== src/Inventory/Semantics/Composes.antt =====
-- The families that compat/cases/m0-cli-contract.py builds from an inventory that compat/verify.py accepts.
use ferricov.Base.{
  ◌≡◌, refl, subst, ap, ◌∙◌, true, List, [], ◌∷◌, Option, none, some, ok, ◌>>=◌, if◌then◌else◌, all,
  All, Option-cases, inl, inr,
}
use ferricov.Base.Bytes.{Bytes, codes, bytes_eq, mem}
use ferricov.Base.Dict.{get}
use ferricov.Base.Dict.Items.{is_there}
use ferricov.Base.Sets.{subset, keys, both}
use ferricov.Base.Same.{same, list_test}
use ferricov.Cases.Policy.{
  Family, shared_getopt_long, direct_getopt_long, argparse, no_parser, Policy, Command,
  parser_policy_signature,
}
use ferricov.Cases.Equality.{family_same, policy_same}
use ferricov.Cases.Inventory.{
  Partition, commands_in_order, family_equivalence_ids, members, partition_of, partitions_from,
  build_family_equivalence,
}
use ferricov.Inventory.Pins.{Pins, pinned_families, policy_of}
use ferricov.Inventory.Semantics.{Inventory, validate_inventory_semantics}
use ferricov.Inventory.Semantics.Passes.{Passes, validate_inventory_semantics-Passes}
use ferricov.Inventory.Semantics.Ids.{inventory_maps-returns}
use ferricov.Inventory.Semantics.Families.{commands_by_name, command-IsPinned}

-- A command of a family that is pinned, with the policy of that family.
abbrev IsOfFamily : List (Bytes × Command) → List (Bytes × Family) → Bytes → Type 0
IsOfFamily commands families name =
    (f : Family) × (c : Command) × (get name families ≡ some f)
    × (get name commands ≡ some c)
    × (parser_policy_signature c ≡ policy_of f)

-- The members of a family by the pins.
abbrev keep_pinned : Family → Bytes → Option Family → List (Bytes × Policy) → List (Bytes × Policy)
keep_pinned f name none rest = rest
keep_pinned f name (some g) rest = if same g f then (name, policy_of g) ∷ rest else rest

abbrev pinned_members : List (Bytes × Family) → Family → List Bytes → List (Bytes × Policy)
pinned_members families f [] = []
pinned_members families f (name ∷ names) =
    keep_pinned f name (get name families) (pinned_members families f names)

family-policy_of : (f : Family) → (policy_of f).family ≡ f
family-policy_of shared_getopt_long = refl
family-policy_of direct_getopt_long = refl
family-policy_of argparse = refl
family-policy_of no_parser = refl

members-pinned :
    (commands : List (Bytes × Command)) (families : List (Bytes × Family)) (f : Family)
    (names : List Bytes)
    → All (IsOfFamily commands families) names
    → members f commands names ≡ ok (pinned_members families f names)
unfolding members
members-pinned commands families f [] h = refl
members-pinned commands families f (name ∷ names) ((g, c, pinned, found, policy), h) =
    rw (found, pinned, members-pinned commands families f names h, policy, family-policy_of g) refl

abbrev part_of : (Policy → Bytes) → Bytes → Family → List Bytes → Partition
part_of canonical_hash id f names = record {
  id = id;
  family = f;
  commands = names;
  policy_sha256 = canonical_hash (policy_of f);
  policy = policy_of f;
}

-- The four parts.
abbrev pub pinned_partitions : (Policy → Bytes) → List Partition
pinned_partitions canonical_hash =
    part_of canonical_hash (codes "parser-policy.shared-getopt-long") shared_getopt_long (
      codes "lcov" ∷ codes "genhtml" ∷ codes "geninfo" ∷ codes "perl2lcov" ∷ codes "llvm2lcov" ∷ [])
    ∷ part_of canonical_hash (codes "parser-policy.direct-getopt-long") direct_getopt_long
        (codes "genpng" ∷ codes "gendesc" ∷ [])
    ∷ part_of canonical_hash (codes "parser-policy.argparse") argparse
        (codes "py2lcov" ∷ codes "xml2lcov" ∷ [])
    ∷ part_of canonical_hash (codes "parser-policy.none") no_parser (codes "xml2lcovutil.py" ∷ [])
    ∷ []

module _ (canonical_hash : Policy → Bytes) (commands : List (Bytes × Command)) where
  partitions_from-next :
      (f : Family) (id : Bytes) (ids : List (Family × Bytes)) {ms : List (Bytes × Policy)}
      {p : Partition} {ps : List Partition}
      → members f commands commands_in_order ≡ ok ms
      → partition_of canonical_hash f id ms ≡ ok p
      → partitions_from canonical_hash commands ids ≡ ok ps
      → partitions_from canonical_hash commands ((f, id) ∷ ids) ≡ ok (p ∷ ps)
  unfolding partitions_from
  partitions_from-next f id ids {ms} {p} {ps} a b c =
      ap
        (λ r. r >>= λ found. partition_of canonical_hash f id found >>= λ q.
          partitions_from canonical_hash commands ids >>= λ qs. ok (q ∷ qs))
        a
      ∙ (ap (λ r. r >>= λ q. partitions_from canonical_hash commands ids >>= λ qs. ok (q ∷ qs)) b
          ∙ ap (λ r. r >>= λ qs. ok (p ∷ qs)) c)

  partitions_from-nil : partitions_from canonical_hash commands [] ≡ ok []
  unfolding partitions_from
  partitions_from-nil = refl

  partitions_from-pinned :
      All (IsOfFamily commands pinned_families) commands_in_order
      → partitions_from canonical_hash commands family_equivalence_ids
        ≡ ok (pinned_partitions canonical_hash)
  unfolding partition_of get bytes_eq list_test
  partitions_from-pinned h =
      let known = λ (f : Family). members-pinned commands pinned_families f commands_in_order h in
      partitions_from-next shared_getopt_long _ _ (known shared_getopt_long) refl (
        partitions_from-next direct_getopt_long _ _ (known direct_getopt_long) refl (
          partitions_from-next argparse _ _ (known argparse) refl
            (partitions_from-next no_parser _ _ (known no_parser) refl partitions_from-nil)))

module _ (pins : Pins) (i : Inventory) (passes : Passes pins i) where
  all-IsOfFamily :
      (names : List Bytes)
      → subset names (keys pins.commands) ≡ true
      → all (λ n. is_there (get n pins.policy_families)) names ≡ true
      → All (IsOfFamily (commands_by_name i.commands) pins.policy_families) names
  unfolding subset
  all-IsOfFamily [] h k = tt
  all-IsOfFamily (name ∷ names) h k =
      let (m, ms) = both {a = mem name (keys pins.commands)} h in
      let (t, ts) = both {a = is_there (get name pins.policy_families)} k in
      elim (Option-cases (get name pins.policy_families)) [
        | inl absent ↦ let wrong = rw absent at t in cc
        | inr (f, pinned) ↦
            let (c, found, policy) = command-IsPinned pins i passes name f m pinned in
            ((f, c, pinned, found, policy), all-IsOfFamily names ms ts)
      ]

pinned_there :
    (families : List (Bytes × Family))
    → families ≡ pinned_families
    → all (λ n. is_there (get n families)) commands_in_order ≡ true
unfolding get bytes_eq
pinned_there families e = rw e refl

-- When validate_inventory_semantics accepts an inventory by pins that hold every command of COMMANDS, with the
-- families of the file, build_family_equivalence returns the four parts of the pinned families on the
-- inventory's commands, each with the policy that expected_parser_policy gives its commands.
pub build_family_equivalence-pinned_partitions :
    (canonical_hash : Policy → Bytes) (pins : Pins) (i : Inventory)
    → validate_inventory_semantics pins i ≡ ok tt
    → subset commands_in_order (keys pins.commands) ≡ true
    → pins.policy_families ≡ pinned_families
    → build_family_equivalence canonical_hash i.commands ≡ ok (pinned_partitions canonical_hash)
unfolding build_family_equivalence
build_family_equivalence-pinned_partitions canonical_hash pins i accepted named families =
    let passes = validate_inventory_semantics-Passes pins i accepted in
    let (maps, returned, same_commands) = inventory_maps-returns i passes.different_ids in
    let members_known =
      subst (λ fs. All (IsOfFamily (commands_by_name i.commands) fs) commands_in_order) families
        (all-IsOfFamily pins i passes commands_in_order named
          (pinned_there pins.policy_families families)) in
    rw (returned, same_commands)
      (partitions_from-pinned canonical_hash (commands_by_name i.commands) members_known)
