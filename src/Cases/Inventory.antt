-- ===== src/Cases/Inventory.antt =====
-- `inventory_maps` and `build_family_equivalence`: the commands by name, their entries by id, and the
-- partition of the commands by parser family. The hash of a policy is a parameter.
pub mod Members
pub mod Partitions
use ferricov.Base.{
  Bool, true, false, ◌&&◌, List, [], ◌∷◌, ◌++◌, map, Option, none, some, Result, ok, err, ◌>>=◌,
  ◌>>◌, require, if◌then◌else◌, all,
}
use ferricov.Base.Bytes.{Bytes, codes}
use ferricov.Base.Same.{same}
use ferricov.Base.Dict.{get, put, dict_of}
use ferricov.Cases.Policy.{
  Family, shared_getopt_long, direct_getopt_long, argparse, no_parser, Policy, Entry, Command,
  parser_policy_signature,
}
use ferricov.Cases.Equality.{family_same, policy_same}

-- COMMANDS
abbrev pub commands_in_order : List Bytes
commands_in_order =
    codes "lcov"
    ∷ codes "genhtml"
    ∷ codes "geninfo"
    ∷ codes "genpng"
    ∷ codes "gendesc"
    ∷ codes "perl2lcov"
    ∷ codes "py2lcov"
    ∷ codes "xml2lcov"
    ∷ codes "xml2lcovutil.py"
    ∷ codes "llvm2lcov"
    ∷ []

-- FAMILY_EQUIVALENCE_IDS
abbrev pub family_equivalence_ids : List (Family × Bytes)
family_equivalence_ids =
    (shared_getopt_long, codes "parser-policy.shared-getopt-long")
    ∷ (direct_getopt_long, codes "parser-policy.direct-getopt-long")
    ∷ (argparse, codes "parser-policy.argparse")
    ∷ (no_parser, codes "parser-policy.none")
    ∷ []

pub data Error : Type 0 where
  duplicate_entry missing_command family_not_equivalent : Error

-- `entries[entry["id"]] = entry`, where the id is new
unfoldable pub add_entries : List Entry → List (Bytes × Entry) → Result Error (List (Bytes × Entry))
add_entries [] entries = ok entries
add_entries (e ∷ es) entries = elim (get e.id entries) [
  | none ↦ add_entries es (put e.id e entries)
  | some previous ↦ err duplicate_entry
]

unfoldable pub add_commands :
    List Command → List (Bytes × Entry) → Result Error (List (Bytes × Entry))
add_commands [] entries = ok entries
add_commands (c ∷ cs) entries = do
  more ← add_entries (c.options ++ c.positional_arguments) entries
  add_commands cs more

pub record Maps : Type 0 where
  pub commands : List (Bytes × Command)
  pub entries : List (Bytes × Entry)
  pub families : List (Bytes × Family)

unfoldable pub inventory_maps : List Command → Result Error Maps
unfolding add_commands add_entries
inventory_maps commands = do
  entries ← add_commands commands []
  ok (record {
    commands = dict_of (map (λ c. (c.name, c)) commands);
    entries = entries;
    families = dict_of (map (λ c. (c.name, c.parser_policy.policy.family)) commands);
  })

pub record Partition : Type 0 where
  pub id : Bytes
  pub family : Family
  pub commands : List Bytes
  pub policy_sha256 : Bytes
  pub policy : Policy

-- The names of the family's commands, and their signatures.
abbrev pub keep_member : Family → Bytes → Command → List (Bytes × Policy) → List (Bytes × Policy)
keep_member f name c rest =
    if same (parser_policy_signature c).family f
    then (name, parser_policy_signature c) ∷ rest
    else rest

abbrev pub add_member :
    Family
    → Bytes
    → Option Command
    → Result Error (List (Bytes × Policy))
    → Result Error (List (Bytes × Policy))
add_member f name none rest = err missing_command
add_member f name (some c) rest = rest >>= λ found. ok (keep_member f name c found)

unfoldable pub members :
    Family → List (Bytes × Command) → List Bytes → Result Error (List (Bytes × Policy))
members f commands [] = ok []
members f commands (name ∷ names) = add_member f name (get name commands) (members f commands names)

module _ (canonical_hash : Policy → Bytes) where
  -- No signature, or one that is not the first, is refused.
  unfoldable pub partition_of : Family → Bytes → List (Bytes × Policy) → Result Error Partition
  partition_of f id [] = err family_not_equivalent
  partition_of f id ((name, first) ∷ rest) = do
    require (all (λ m. same m.1 first) rest) family_not_equivalent
    ok (record {
      id = id;
      family = f;
      commands = name ∷ map (λ m. m.0) rest;
      policy_sha256 = canonical_hash first;
      policy = first;
    })

  unfoldable pub partitions_from :
      List (Bytes × Command) → List (Family × Bytes) → Result Error (List Partition)
  unfolding members partition_of
  partitions_from commands [] = ok []
  partitions_from commands ((f, id) ∷ ids) = do
    found ← members f commands commands_in_order
    p ← partition_of f id found
    ps ← partitions_from commands ids
    ok (p ∷ ps)

  unfoldable pub build_family_equivalence : List Command → Result Error (List Partition)
  unfolding inventory_maps partitions_from
  build_family_equivalence inventory = do
    maps ← inventory_maps inventory
    partitions_from maps.commands family_equivalence_ids
