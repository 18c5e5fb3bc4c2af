-- ===== src/Tests/Cases.antt =====
-- Command lines and a small inventory, for compat/cases/m0-cli-contract.py.
use ferricov.Base.{
  length, if◌then◌else◌, ◌≡◌, refl, ◌↔◌, true, false, List, [], ◌∷◌, map, none, some, ok, All,
}
use ferricov.Base.Bytes.{Bytes, codes, bytes_eq, starts_with, mem}
use ferricov.Base.Dict.{get, put, put_all, sorted}
use ferricov.Base.Sets.{dict_eq, set_eq, subset}
use ferricov.Base.Same.{list_test}
use ferricov.Cases.Policy.{
  Family, shared_getopt_long, direct_getopt_long, argparse, no_parser, Policy, Entry, Command,
  parser_options, parser_policy_signature,
}
use ferricov.Cases.Token.{
  Token, plain, exact_alias, unique_prefix, positional, unparsed_after_require_order, opens,
  reviewed_explicit_aliases,
}
use ferricov.Cases.Resolve
use ferricov.Cases.Resolve.{case_resolution_signature, parser_of}
use ferricov.Cases.Match
use ferricov.Cases.Match.{lower}
use ferricov.Cases.Resolve.Adds.{Paired}
use ferricov.Cases.Resolve.Reads.{case_resolution_signature-Reads}
use ferricov.Cases.Resolve.Folding.{shapes, case_resolution_signature-lower}
use ferricov.Cases.Resolve.Profiles.{case_resolution_signature-argparse}
use ferricov.Cases.Resolve.Abbreviates.{AllSay, case_resolution_signature-AllSay}
use ferricov.Cases.Inventory
use ferricov.Cases.Inventory.{Maps, Partition, inventory_maps, build_family_equivalence}
use ferricov.Cases.Inventory.Partitions.{IsPartition, is_placed, build_family_equivalence-ok}
use ferricov.Cases.Contract.{check_derived, check_case}
use ferricov.Cases.Records.{Case, Link, Derived, derive, covered, signature_for}
use ferricov.Cases.Validate.{
  check_suites, check_cases, CaseContract, SuiteRecord, records_by_id, suite_ids, overrides_of,
  validate_cases,
}
use ferricov.Cases.Validate.Proves.{IsProved, validate_cases-IsProved}
use ferricov.Cases.Records.{partitions_by_id}
use ferricov.Cases.Contract.Derives.{check_derived-derive}
use ferricov.Cases.Resolve.Moves.{InOrder}
use ferricov.Cases.Resolve.RequireOrder.{case_resolution_signature-InOrder}

abbrev policy : Family → Policy
policy f = record {
  family = f;
  auto_abbrev = codes "unique_prefix";
  case_sensitive = some false;
  accepted_long_prefixes = codes "--" ∷ codes "-" ∷ [];
  plus_prefix_behavior = codes "option";
  option_ordering = codes "permute";
  bundling = codes "disabled";
  posixly_correct_effect = codes "none";
  exact_only_options = codes "--config-file" ∷ codes "--rc" ∷ [];
}

abbrev option_named : Bytes → Entry
option_named name = record {
  id = name;
  canonical_name = name;
  aliases = [];
  classification = codes "public";
  review_status = codes "reviewed";
  profile_parser_resolution = none;
  source_references =
      record { kind = codes "parser_definition"; path = codes "bin/lcov"; line = 1 } ∷ [];
}

abbrev command : Bytes → Family → Command
command name f = record {
  name = name;
  parser_policy = record { policy = policy f; source_references = [] };
  options = map option_named (codes "--help" ∷ codes "--config-file" ∷ codes "--verbose" ∷ []);
  positional_arguments = [];
}

abbrev lcov : Command
lcov = command (codes "lcov") shared_getopt_long

abbrev line : List Bytes
line = codes "--HE" ∷ codes "info" ∷ codes "-q" ∷ []

abbrev help_prefix : Token
help_prefix = record (plain (codes "--HE") unique_prefix) { targets = some (codes "--help" ∷ []) }

abbrev operand : Bytes → Token
operand t = record (plain t positional) { positionals_defined = some false }

abbrev quiet : Token
quiet = record (plain (codes "-q") exact_alias) { target = some (codes "--quiet") }

abbrev default_signature : List Token
default_signature = help_prefix ∷ operand (codes "info") ∷ quiet ∷ []

default_lcov : case_resolution_signature lcov line (codes "default") ≡ ok default_signature
unfolding case_resolution_signature Resolve.read Resolve.read_free Resolve.operand
    Resolve.getopt_option Match.abbreviated Match.candidates parser_options get put put_all sorted
    bytes_eq starts_with opens
default_lcov = refl

case_resolution_signature-Reads_example :
    (map (λ (r : Token). r.token) default_signature ≡ line) × Paired none default_signature
case_resolution_signature-Reads_example =
    case_resolution_signature-Reads lcov line (codes "default") default_lcov

case_resolution_signature-lower_example :
    shapes (case_resolution_signature lcov (map lower line) (codes "default"))
    ≡ shapes (case_resolution_signature lcov line (codes "default"))
case_resolution_signature-lower_example =
    case_resolution_signature-lower lcov line (codes "default") refl

abbrev py2lcov : Command
py2lcov = command (codes "py2lcov") argparse

case_resolution_signature-argparse_example :
    case_resolution_signature py2lcov (codes "--verb" ∷ []) (codes "default")
    ≡ case_resolution_signature py2lcov (codes "--verb" ∷ []) (codes "posixly_correct")
case_resolution_signature-argparse_example =
    case_resolution_signature-argparse py2lcov (codes "--verb" ∷ []) (codes "default")
      (codes "posixly_correct") refl

abbrev lcov_aliases : List (Bytes × Bytes)
lcov_aliases =
    (codes "-h", codes "--help")
    ∷ (codes "-?", codes "--help")
    ∷ (codes "-q", codes "--quiet")
    ∷ (codes "-v", codes "--verbose")
    ∷ []

case_resolution_signature-AllSay_example :
    AllSay (parser_of lcov lcov_aliases (codes "default")) default_signature
unfolding get bytes_eq reviewed_explicit_aliases
case_resolution_signature-AllSay_example =
    case_resolution_signature-AllSay lcov line (codes "default") lcov_aliases refl refl default_lcov

abbrev late : List Bytes
late = codes "info" ∷ codes "--help" ∷ []

abbrev posix_signature : List Token
posix_signature = operand (codes "info") ∷ plain (codes "--help") unparsed_after_require_order ∷ []

posix_lcov : case_resolution_signature lcov late (codes "posixly_correct") ≡ ok posix_signature
unfolding case_resolution_signature Resolve.read Resolve.read_free Resolve.operand get bytes_eq
    starts_with opens
posix_lcov = refl

case_resolution_signature-InOrder_example :
    InOrder (bytes_eq (codes "posixly_correct") (codes "posixly_correct")) false posix_signature
case_resolution_signature-InOrder_example =
    case_resolution_signature-InOrder lcov late (codes "posixly_correct") refl posix_lcov

abbrev inventory : List Command
inventory =
    command (codes "lcov") shared_getopt_long
    ∷ command (codes "genhtml") shared_getopt_long
    ∷ command (codes "geninfo") shared_getopt_long
    ∷ command (codes "genpng") direct_getopt_long
    ∷ command (codes "gendesc") direct_getopt_long
    ∷ command (codes "perl2lcov") shared_getopt_long
    ∷ command (codes "py2lcov") argparse
    ∷ command (codes "xml2lcov") argparse
    ∷ command (codes "xml2lcovutil.py") no_parser
    ∷ command (codes "llvm2lcov") shared_getopt_long
    ∷ []

-- The options of a command have the same names, so the inventory is without options.
abbrev bare_inventory : List Command
bare_inventory = map (λ (c : Command). record c { options = [] }) inventory

abbrev part : Bytes → Family → List Bytes → Partition
part id f names = record {
  id = id;
  family = f;
  commands = names;
  policy_sha256 = [];
  policy = policy f;
}

abbrev shared : Partition
shared =
    part (codes "parser-policy.shared-getopt-long") shared_getopt_long (
      codes "lcov" ∷ codes "genhtml" ∷ codes "geninfo" ∷ codes "perl2lcov" ∷ codes "llvm2lcov" ∷ [])

abbrev partitions : List Partition
partitions =
    shared
    ∷ part (codes "parser-policy.direct-getopt-long") direct_getopt_long
        (codes "genpng" ∷ codes "gendesc" ∷ [])
    ∷ part (codes "parser-policy.argparse") argparse (codes "py2lcov" ∷ codes "xml2lcov" ∷ [])
    ∷ part (codes "parser-policy.none") no_parser (codes "xml2lcovutil.py" ∷ [])
    ∷ []

abbrev bare_maps : Maps
bare_maps = record {
  commands = map (λ (c : Command). (c.name, c)) bare_inventory;
  entries = [];
  families = map (λ (c : Command). (c.name, c.parser_policy.policy.family)) bare_inventory;
}

bare_maps_found : inventory_maps bare_inventory ≡ ok bare_maps
unfolding inventory_maps put put_all bytes_eq
bare_maps_found = refl

partitions_found : build_family_equivalence (λ p. []) bare_inventory ≡ ok partitions
unfolding build_family_equivalence get put put_all bytes_eq list_test
partitions_found = refl

build_family_equivalence-ok_example :
    All (IsPartition bare_maps.commands) partitions
    × ((name : Bytes)
        → mem name Inventory.commands_in_order ≡ true
        → (c : Command) × (get name bare_maps.commands ≡ some c)
          × (is_placed name (parser_policy_signature c).family partitions ≡ true))
build_family_equivalence-ok_example =
    build_family_equivalence-ok (λ p. []) bare_inventory bare_maps_found partitions_found

abbrev help_case : Case
help_case = record { id = codes "help"; command = codes "lcov"; arguments = codes "-h" ∷ [] }

abbrev help_link : Link
help_link = record {
  case_id = codes "help";
  suite_id = codes "m0-cli-contract-core";
  command = codes "lcov";
  inventory_entries = [];
  family_equivalence = some (codes "parser-policy.shared-getopt-long");
  policy_expectations = [];
}

abbrev help_derived : Derived
help_derived = record {
  equivalence_profile = some (codes "default");
  equivalence_claims = [];
  covered_commands = shared.commands;
  inference_scope = some (codes "parser_resolution");
  probe_resolution =
      some (record (plain (codes "-h") exact_alias) { target = some (codes "--help") } ∷ []);
}

check_derived-derive_example :
    (check_derived bare_maps.commands shared help_case help_link help_derived ≡ ok tt)
    ↔ (derive bare_maps.commands shared help_case.arguments help_link ≡ ok help_derived)
unfolding bytes_eq
check_derived-derive_example =
    check_derived-derive bare_maps.commands shared help_case help_link help_derived refl refl

help_is_derived : derive bare_maps.commands shared help_case.arguments help_link ≡ ok help_derived
unfolding derive signature_for covered case_resolution_signature Resolve.read Resolve.read_free
    Resolve.getopt_option get put put_all sorted bytes_eq list_test starts_with opens parser_options
help_is_derived = refl

-- A contract with one case, in the first suite.
abbrev suites : Bytes → List Case
suites id = if bytes_eq id (codes "m0-cli-contract-core") then help_case ∷ [] else []

abbrev suite_record : Bytes → SuiteRecord
suite_record id = record {
  suite_id = id;
  sha256 = [];
  case_count = length (suites id);
  environment_overrides = overrides_of id;
}

abbrev contract : CaseContract
contract = record {
  suites = map suite_record suite_ids;
  family_equivalence = partitions;
  cases = (help_link, help_derived) ∷ [];
}

contract_accepted : validate_cases (λ p. []) (λ cases. []) contract suites bare_inventory ≡ ok tt
unfolding validate_cases inventory_maps build_family_equivalence get put put_all bytes_eq list_test
    dict_eq set_eq subset check_suites check_cases check_case sorted signature_for
    case_resolution_signature Resolve.read Resolve.read_free starts_with Resolve.getopt_option opens
contract_accepted = refl

validate_cases-IsProved_example :
    (r : Link × Derived) × (get (codes "help") (records_by_id contract) ≡ some r)
    × IsProved bare_maps.commands
        (partitions_by_id partitions)
        (codes "m0-cli-contract-core")
        help_case
        r
unfolding get put put_all bytes_eq
validate_cases-IsProved_example =
    validate_cases-IsProved (λ p. []) (λ cases. []) contract suites bare_inventory bare_maps_found
      partitions_found contract_accepted (codes "help") (codes "m0-cli-contract-core") help_case
      refl
