-- ===== src/Cases/Resolve.antt =====
-- `case_resolution_signature`: how a command's parser reads the tokens of a command line. Tokens and
-- option names are ASCII, for which `lower` is `str.lower`.
pub mod Adds
pub mod Reads
pub mod Letters
pub mod Folding
pub mod Profiles
pub mod Names
pub mod Abbreviates
pub mod Moves
pub mod RequireOrder
use ferricov.Base.{
  ◌≡◌, refl, ℕ, ◌+◌, Bool, true, false, ◌&&◌, ◌||◌, not, List, [], ◌∷◌, ◌++◌, map, Option, none,
  some, if◌then◌else◌, ltb, leb, length, drop, Result, ok, err,
}
use ferricov.Base.Bytes.{Bytes, codes, bytes_eq, starts_with, mem}
use ferricov.Base.Dict.{get, dict_of, sorted}
use ferricov.Cases.Policy.{
  Family, shared_getopt_long, direct_getopt_long, argparse, no_parser, Entry, Command,
  parser_option_definitions, parser_policy_signature,
}
use ferricov.Cases.Token.{
  positional, rejected_after_option_boundary, exact, exact_alias, unique_prefix, ambiguous_prefix,
  unknown, short_cluster, unparsed_after_require_order, ignored, option_value,
  exact_only_prefix_rejected, Resolution, Token, plain, Parser, State, append,
  reviewed_explicit_aliases,
}
use ferricov.Cases.Match.{
  is_getopt, is_argparse, is_no_parser, lower, folded, operand_of, is_dashed, argparse_dashed,
  getopt_dashed,
}

-- A token that does not look like an option.
unfoldable pub operand : Parser → State → Bytes → State
operand p st t =
    if is_argparse p.family && st.argparse_option_after_positional
    then append (plain t rejected_after_option_boundary) st
    else if is_argparse p.family
    then record (append (operand_of p t) st) { argparse_positional_seen = true }
    else if p.posix
    then record (append (operand_of p t) st) { getopt_stopped = true }
    else append (operand_of p t) st

-- A token that starts with - or +, read by argparse.
unfoldable pub argparse_option : Parser → State → Bytes → State
argparse_option p st t =
    if starts_with (codes "+") t
    then record (append (operand_of p t) st) { argparse_positional_seen = true }
    else append (argparse_dashed p t (get t p.aliases)) (record st {
      argparse_option_after_positional =
          st.argparse_positional_seen || st.argparse_option_after_positional;
    })

-- A token that starts with - or +, read by Getopt::Long.
unfoldable pub getopt_option : Parser → State → Bytes → State
getopt_option p st t =
    if starts_with (codes "+") t && p.posix
    then record (append (operand_of p t) st) { getopt_stopped = true }
    else append (getopt_dashed p t (get (lower t) (folded p.aliases))) st

unfoldable pub read_free : Parser → State → Bytes → State
read_free p st t =
    if is_getopt p.family && st.getopt_stopped
    then append (plain t unparsed_after_require_order) st
    else if is_no_parser p.family
    then append (plain t ignored) st
    else if not (is_dashed t) || bytes_eq t (codes "-")
    then operand p st t
    else if is_argparse p.family
    then argparse_option p st t
    else getopt_option p st t

abbrev pub value_of : Bytes → Bytes → Token
value_of t o = record (plain t option_value) { option = some o }

-- One token: the value that an option waits for comes first.
abbrev pub read_waiting : Parser → State → Bytes → Option Bytes → State
read_waiting p st t (some o) = record st {
  signature = st.signature ++ value_of t o ∷ [];
  pending_value_for = none;
}
read_waiting p st t none = read_free p st t

unfoldable pub read : Parser → State → Bytes → State
read p st t = read_waiting p st t st.pending_value_for

unfoldable pub read_all : Parser → State → List Bytes → State
read_all p st [] = st
read_all p st (t ∷ ts) = read_all p (read p st t) ts

abbrev pub start : State
start = record {
  signature = [];
  pending_value_for = none;
  getopt_stopped = false;
  argparse_positional_seen = false;
  argparse_option_after_positional = false;
}

-- `signature[-1]["missing_value"] = True`
unfoldable pub mark_last : List Token → List Token
mark_last [] = []
mark_last (r ∷ []) = record r { missing_value = true } ∷ []
mark_last (r ∷ s ∷ rs) = r ∷ mark_last (s ∷ rs)

abbrev pub finish : List Token → Option Bytes → List Token
finish signature none = signature
finish signature (some o) = mark_last signature

abbrev pub signature_of : Parser → List Bytes → List Token
signature_of p arguments =
    let st = read_all p start arguments in finish st.signature st.pending_value_for

-- `name.removeprefix("--")`
abbrev pub bare : Bytes → Bytes
bare name = if starts_with (codes "--") name then drop 2 name else name

abbrev is_filled : List Entry → Bool
is_filled [] = false
is_filled (e ∷ es) = true

abbrev pub parser_of : Command → List (Bytes × Bytes) → Bytes → Parser
parser_of c aliases profile = record {
  family = (parser_policy_signature c).family;
  canonical =
      dict_of (map (λ o. (bare o.canonical_name, o.canonical_name)) (parser_option_definitions c));
  aliases = aliases;
  positionals = is_filled c.positional_arguments;
  exact_only = (parser_policy_signature c).exact_only_options;
  posix = bytes_eq profile (codes "posixly_correct");
}

-- REVIEWED_EXPLICIT_ALIASES has no entry for the command: a KeyError
pub data Error : Type 0 where
  unreviewed_command : Error

abbrev pub signature_with :
    Command → List Bytes → Bytes → Option (List (Bytes × Bytes)) → Result Error (List Token)
signature_with c arguments profile none = err unreviewed_command
signature_with c arguments profile (some aliases) =
    ok (signature_of (parser_of c aliases profile) arguments)

unfoldable pub case_resolution_signature : Command → List Bytes → Bytes → Result Error (List Token)
unfolding read_all reviewed_explicit_aliases
case_resolution_signature c arguments profile =
    signature_with c arguments profile (get c.name reviewed_explicit_aliases)
