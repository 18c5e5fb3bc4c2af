-- ===== src/Cases/Policy.antt =====
-- The commands of the inventory, as compat/cases/m0-cli-contract.py and compat/verify.py read them.
use ferricov.Base.{ℕ, Bool, List, [], ◌∷◌, Option, any, if◌then◌else◌}
use ferricov.Base.Bytes.{Bytes, codes, bytes_eq}
use ferricov.Base.Same.{bytes_same, option_same, list_same, pair_same}

-- The four values that the inventory's schema allows.
pub data Family : Type 0 where
  shared_getopt_long direct_getopt_long argparse no_parser : Family

pub record Reference : Type 0 where
  pub kind : Bytes
  pub path : Bytes
  pub line : ℕ

pub record Policy : Type 0 where
  pub family : Family
  pub auto_abbrev : Bytes
  pub case_sensitive : Option Bool
  pub accepted_long_prefixes : List Bytes
  pub plus_prefix_behavior : Bytes
  pub option_ordering : Bytes
  pub bundling : Bytes
  pub posixly_correct_effect : Bytes
  pub exact_only_options : List Bytes

pub record ParserPolicy : Type 0 where
  pub policy : Policy
  pub source_references : List Reference

-- How one profile of the parser takes a generated token.
pub record Acceptance : Type 0 where
  pub acceptance : Bytes
  pub target : Option Bytes

pub record Profiles : Type 0 where
  pub default_profile : Acceptance
  pub posix_profile : Acceptance

-- An option, or a positional argument, whose name stands for the canonical name.
pub record Entry : Type 0 where
  pub id : Bytes
  pub canonical_name : Bytes
  pub aliases : List Bytes
  pub classification : Bytes
  pub review_status : Bytes
  pub profile_parser_resolution : Option Profiles
  pub source_references : List Reference

pub record Command : Type 0 where
  pub name : Bytes
  pub parser_policy : ParserPolicy
  pub options : List Entry
  pub positional_arguments : List Entry

-- All of the policy but its source references.
abbrev pub parser_policy_signature : Command → Policy
parser_policy_signature c = c.parser_policy.policy

abbrev pub is_defined : Entry → Bool
is_defined o = any (λ r. bytes_eq r.kind (codes "parser_definition")) o.source_references

unfoldable pub parser_options : List Entry → List Entry
parser_options [] = []
parser_options (o ∷ os) = if is_defined o then o ∷ parser_options os else parser_options os

abbrev pub parser_option_definitions : Command → List Entry
parser_option_definitions c = parser_options c.options
