-- ===== src/Inventory/Pins.antt =====
-- The pins of compat/inventory/expected-pins.v2.5.json, and what compat/verify.py expects by them.
use ferricov.Base.{ℕ, true, false, ◌≡◌, List, [], ◌∷◌, Option, none, some, if◌then◌else◌, map, ◌++◌}
use ferricov.Base.Bytes.{Bytes, codes, mem}
use ferricov.Base.Dict.{get, dict_of}
use ferricov.Base.Same.{Same, bytes_same, option_same, pair_same, along}
use ferricov.Cases.Policy.{
  Family, shared_getopt_long, direct_getopt_long, argparse, no_parser, Policy, Acceptance, Profiles,
}
use ferricov.Cases.Resolve.{bare}

pub record Pins : Type 0 where
  pub commands : List (Bytes × ℕ)
  pub policy_families : List (Bytes × Family)
  pub positionals : List (Bytes × List Bytes)
  pub generated_token_names : List (Bytes × List Bytes)
  pub unique_abbreviation_targets : List (Bytes × Bytes)
  pub ambiguous_generated_tokens : List Bytes
  pub policy_source_paths : List (Bytes × List Bytes)

-- The families that the file pins.
abbrev pub pinned_families : List (Bytes × Family)
pinned_families =
    (codes "gendesc", direct_getopt_long)
    ∷ (codes "genhtml", shared_getopt_long)
    ∷ (codes "geninfo", shared_getopt_long)
    ∷ (codes "genpng", direct_getopt_long)
    ∷ (codes "lcov", shared_getopt_long)
    ∷ (codes "llvm2lcov", shared_getopt_long)
    ∷ (codes "perl2lcov", shared_getopt_long)
    ∷ (codes "py2lcov", argparse)
    ∷ (codes "xml2lcov", argparse)
    ∷ (codes "xml2lcovutil.py", no_parser)
    ∷ []

abbrev pub getopt_policy : Family → List Bytes → Policy
getopt_policy family exact_only = record {
  family = family;
  auto_abbrev = codes "unique_prefix";
  case_sensitive = some false;
  accepted_long_prefixes = codes "--" ∷ codes "-" ∷ [];
  plus_prefix_behavior = codes "option";
  option_ordering = codes "permute";
  bundling = codes "disabled";
  posixly_correct_effect = codes "disable_auto_abbrev_and_plus_require_order";
  exact_only_options = exact_only;
}

abbrev pub policy_of : Family → Policy
policy_of shared_getopt_long =
    getopt_policy shared_getopt_long (codes "--config-file" ∷ codes "--rc" ∷ [])
policy_of direct_getopt_long = getopt_policy direct_getopt_long []
policy_of argparse = record {
  family = argparse;
  auto_abbrev = codes "unique_prefix";
  case_sensitive = some true;
  accepted_long_prefixes = codes "--" ∷ [];
  plus_prefix_behavior = codes "positional";
  option_ordering = codes "argparse_parse_args";
  bundling = codes "argparse_short_clusters";
  posixly_correct_effect = codes "none";
  exact_only_options = [];
}
policy_of no_parser = record {
  family = no_parser;
  auto_abbrev = codes "not_applicable";
  case_sensitive = none;
  accepted_long_prefixes = [];
  plus_prefix_behavior = codes "ignored";
  option_ordering = codes "ignored";
  bundling = codes "not_applicable";
  posixly_correct_effect = codes "not_applicable";
  exact_only_options = [];
}

abbrev pub policy_for : Option Family → Option Policy
policy_for none = none
policy_for (some family) = some (policy_of family)

-- None is the KeyError of a command without a pinned family.
unfoldable pub expected_parser_policy : Pins → Bytes → Option Policy
expected_parser_policy pins command = policy_for (get command pins.policy_families)

abbrev pub option_id : Bytes → Bytes → Bytes
option_id command token = codes "command." ++ (command ++ (codes ".option." ++ bare token))

abbrev pub acceptance_only : Bytes → Acceptance
acceptance_only a = record { acceptance = a; target = none }

abbrev pub default_for : Pins → Bytes → Option Bytes → Acceptance
default_for pins id (some target) = record {
  acceptance = codes "accepted_unique_abbreviation";
  target = some target;
}
default_for pins id none =
    if mem id pins.ambiguous_generated_tokens
    then acceptance_only (codes "rejected_ambiguous")
    else acceptance_only (codes "rejected_unknown")

abbrev pub profiles_for : Pins → Bytes → Profiles
profiles_for pins id = record {
  default_profile = default_for pins id (get id pins.unique_abbreviation_targets);
  posix_profile = acceptance_only (codes "rejected_unknown");
}

unfoldable pub resolutions_of : Pins → List (Bytes × List Bytes) → List (Bytes × Profiles)
resolutions_of pins [] = []
resolutions_of pins ((command, tokens) ∷ rest) =
    map (λ t. (option_id command t, profiles_for pins (option_id command t))) tokens
    ++ resolutions_of pins rest

unfoldable pub expected_profile_parser_resolutions : Pins → List (Bytes × Profiles)
unfolding resolutions_of
expected_profile_parser_resolutions pins = dict_of (resolutions_of pins pins.generated_token_names)

abbrev pub acceptance_fields : Acceptance → Bytes × Option Bytes
acceptance_fields a = (a.acceptance, a.target)

abbrev pub profiles_fields : Profiles → (Bytes × Option Bytes) × (Bytes × Option Bytes)
profiles_fields p = (acceptance_fields p.default_profile, acceptance_fields p.posix_profile)

pub profiles-injective : (p q : Profiles) → profiles_fields p ≡ profiles_fields q → p ≡ q
profiles-injective p q e = cc

instance abbrev pub profiles_same : Same Profiles
profiles_same = along pair_same profiles_fields profiles-injective
