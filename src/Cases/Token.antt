-- ===== src/Cases/Token.antt =====
-- The records of `case_resolution_signature`, the state of its loop, and the tables that it reads.

use ferricov.Base.{Bool, true, false, List, [], ◌∷◌, ◌++◌, Option, none, some, if◌then◌else◌}
use ferricov.Base.Bytes.{Bytes, codes, mem}
use ferricov.Cases.Policy.{Family}

-- REVIEWED_EXPLICIT_ALIASES, a key and its value to a line.
abbrev getopt_aliases : List (Bytes × Bytes)
getopt_aliases =
    (codes "-h", codes "--help")
    ∷ (codes "-?", codes "--help")
    ∷ (codes "-q", codes "--quiet")
    ∷ (codes "-v", codes "--verbose")
    ∷ []

abbrev argparse_aliases : List (Bytes × Bytes)
argparse_aliases =
    (codes "-h", codes "--help")
    ∷ (codes "-v", codes "--verbose")
    ∷ (codes "-k", codes "--keep-going")
    ∷ []

unfoldable pub reviewed_explicit_aliases : List (Bytes × List (Bytes × Bytes))
reviewed_explicit_aliases =
    (codes "lcov", getopt_aliases)
    ∷ (codes "genhtml", getopt_aliases)
    ∷ (codes "geninfo", getopt_aliases)
    ∷ (codes "genpng", [])
    ∷ (codes "gendesc", (codes "-?", codes "--help") ∷ [])
    ∷ (codes "perl2lcov", getopt_aliases)
    ∷ (codes "py2lcov", argparse_aliases)
    ∷ (codes "xml2lcov", argparse_aliases)
    ∷ (codes "xml2lcovutil.py", [])
    ∷ (codes "llvm2lcov", getopt_aliases)
    ∷ []

abbrev pub probe_value_options : List Bytes
probe_value_options = codes "--config-file" ∷ codes "--rc" ∷ codes "--version-script" ∷ []

pub data Resolution : Type 0 where
  positional rejected_after_option_boundary exact exact_alias unique_prefix ambiguous_prefix :
      Resolution
  unknown short_cluster unparsed_after_require_order ignored option_value : Resolution
  exact_only_prefix_rejected : Resolution

-- A record of the signature. A key that the record lacks is `none`.
pub record Token : Type 0 where
  pub token : Bytes
  pub resolution : Resolution
  pub positionals_defined : Option Bool
  pub option : Option Bytes
  pub target : Option Bytes
  pub targets : Option (List Bytes)
  pub bundling_reverse_targets : Option (List Bytes)
  pub missing_value : Bool

abbrev pub plain : Bytes → Resolution → Token
plain t r = record {
  token = t;
  resolution = r;
  positionals_defined = none;
  option = none;
  target = none;
  targets = none;
  bundling_reverse_targets = none;
  missing_value = false;
}

-- What the loop reads of its arguments.
pub record Parser : Type 0 where
  pub family : Family
  pub canonical : List (Bytes × Bytes)
  pub aliases : List (Bytes × Bytes)
  pub positionals : Bool
  pub exact_only : List Bytes
  pub posix : Bool

pub record State : Type 0 where
  pub signature : List Token
  pub pending_value_for : Option Bytes
  pub getopt_stopped : Bool
  pub argparse_positional_seen : Bool
  pub argparse_option_after_positional : Bool

abbrev pub takes_value : Resolution → Bool
takes_value exact = true
takes_value exact_alias = true
takes_value unique_prefix = true
takes_value exact_only_prefix_rejected = true
takes_value _ = false

-- `targets` of `append`: the record's, or its one target
abbrev pub targets_of : Option (List Bytes) → Option Bytes → List Bytes
targets_of (some targets) target = targets
targets_of none (some target) = target ∷ []
targets_of none none = []

abbrev pub only_value_option : List Bytes → Option Bytes
only_value_option (t ∷ []) = if mem t probe_value_options then some t else none
only_value_option _ = none

-- The option that waits for a value after a record.
unfoldable pub opens : Token → Option Bytes
opens r =
    if takes_value r.resolution then only_value_option (targets_of r.targets r.target) else none

abbrev pub or_else : Option Bytes → Option Bytes → Option Bytes
or_else none old = old
or_else (some o) old = some o

abbrev pub append : Token → State → State
append r st = record st {
  signature = st.signature ++ r ∷ [];
  pending_value_for = or_else (opens r) st.pending_value_for;
}
