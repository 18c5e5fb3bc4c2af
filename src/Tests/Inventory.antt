-- ===== src/Tests/Inventory.antt =====
-- An inventory that `validate_inventory_semantics` accepts, with few options.
use ferricov.Base.{
  ◌≡◌, refl, false, List, [], ◌∷◌, ◌++◌, map, length, none, some, ok, if◌then◌else◌,
}
use ferricov.Base.Bytes.{Bytes, codes, bytes_eq, starts_with, split}
use ferricov.Base.Dict.{get, put, put_all}
use ferricov.Base.Sets.{subset}
use ferricov.Base.Same.{list_test}
use ferricov.Correctness.Path.{parts}
use ferricov.Cases.Policy.{Family, shared_getopt_long, no_parser, Reference, Entry, Command}
use ferricov.Cases.Inventory.{build_family_equivalence}
use ferricov.Inventory.Pins.{Pins, pinned_families, policy_of, profiles_for, option_id}
use ferricov.Inventory.Semantics.{Inventory, validate_inventory_semantics, source_path_is_safe}
use ferricov.Inventory.Semantics.Composes.{
  pinned_partitions, build_family_equivalence-pinned_partitions,
}

abbrev source : Bytes → Bytes → Reference
source kind path = record { kind = kind; path = path; line = 7 }

abbrev parsed_in : Bytes → List Reference
parsed_in path = source (codes "parser_definition") path ∷ []

abbrev option_of : Bytes → Bytes → Entry
option_of command name = record {
  id = option_id command name;
  canonical_name = name;
  aliases = [];
  classification = codes "public";
  review_status = codes "reviewed";
  profile_parser_resolution = none;
  source_references = parsed_in (codes "bin/" ++ command);
}

abbrev positional_of : Bytes → Bytes → Entry
positional_of command name = record (option_of command name) {
  id = codes "command." ++ (command ++ (codes ".positional." ++ name));
}

abbrev has_exact_only : Family → Bytes → List Entry
has_exact_only shared_getopt_long command =
    option_of command (codes "--config-file") ∷ option_of command (codes "--rc") ∷ []
has_exact_only _ command = []

abbrev policy_kind : Family → Bytes
policy_kind no_parser = codes "command_implementation"
policy_kind _ = codes "parser_policy"

abbrev takes_files : Family → Bytes → List Entry
takes_files no_parser command = []
takes_files _ command = positional_of command (codes "files") ∷ []

abbrev conf_id : Bytes
conf_id = codes "command.genhtml.option.conf"

abbrev pins : Pins
pins = record {
  commands = map (λ item. (item.0, length (has_exact_only item.1 item.0))) pinned_families;
  policy_families = pinned_families;
  positionals =
      map (λ item. (item.0, map (λ (e : Entry). e.canonical_name) (takes_files item.1 item.0)))
        pinned_families;
  generated_token_names = (codes "genhtml", codes "--conf" ∷ []) ∷ [];
  unique_abbreviation_targets = (conf_id, codes "command.genhtml.option.config-file") ∷ [];
  ambiguous_generated_tokens = [];
  policy_source_paths = map (λ item. (item.0, (codes "bin/" ++ item.0) ∷ [])) pinned_families;
}

-- `--conf` is a token of a help text, and an abbreviation of `--config-file`.
abbrev conf : Entry
conf = record (option_of (codes "genhtml") (codes "--conf")) {
  classification = codes "generated_token";
  profile_parser_resolution = some (profiles_for pins conf_id);
  source_references = [];
}

abbrev generated : Bytes → List Entry
generated command = if bytes_eq command (codes "genhtml") then conf ∷ [] else []

abbrev command_of : Bytes → Family → Command
command_of name f = record {
  name = name;
  parser_policy = record {
    policy = policy_of f;
    source_references = source (policy_kind f) (codes "bin/" ++ name) ∷ [];
  };
  options = has_exact_only f name ++ generated name;
  positional_arguments = takes_files f name;
}

abbrev small : Inventory
small = record {
  commands = map (λ item. command_of item.0 item.1) pinned_families;
  config_keys =
      record {
        id = codes "lcovrc.genhtml-css-file";
        source_references = source (codes "configuration") (codes "lcovrc") ∷ [];
      }
      ∷ [];
  support_scripts = [];
  totals =
      (codes "installed_commands", 10)
      ∷ (codes "command_options", 11)
      ∷ (codes "parser_command_options", 10)
      ∷ (codes "public_command_options", 10)
      ∷ (codes "unreviewed_command_options", 0)
      ∷ (codes "positional_arguments", 9)
      ∷ (codes "config_keys", 1)
      ∷ (codes "support_scripts", 0)
      ∷ [];
}

small_accepted : validate_inventory_semantics pins small ≡ ok tt
unfolding validate_inventory_semantics bytes_eq put_all put get list_test starts_with parts split
small_accepted = refl

build_family_equivalence-pinned_partitions_example :
    build_family_equivalence (λ p. p.auto_abbrev) small.commands
    ≡ ok (pinned_partitions (λ p. p.auto_abbrev))
unfolding subset bytes_eq
build_family_equivalence-pinned_partitions_example =
    build_family_equivalence-pinned_partitions (λ p. p.auto_abbrev) pins small small_accepted refl
      refl

unsafe_path : source_path_is_safe (codes "bin/../lcov") ≡ false
unfolding source_path_is_safe split parts bytes_eq starts_with
unsafe_path = refl
