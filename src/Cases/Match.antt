-- ===== src/Cases/Match.antt =====
-- The record of a single token: its name, alias, abbreviation or cluster. Tokens and option names are
-- ASCII, for which `lower` is `str.lower`.
use ferricov.Base.{
  ◌≡◌, refl, ℕ, ◌+◌, Bool, true, false, ◌&&◌, ◌||◌, not, List, [], ◌∷◌, map, Option, none, some,
  if◌then◌else◌, ltb, leb, length, drop,
}
use ferricov.Base.Bytes.{Bytes, codes, starts_with, mem}
use ferricov.Base.Dict.{get, dict_of, sorted}
use ferricov.Cases.Policy.{Family, shared_getopt_long, direct_getopt_long, argparse, no_parser}
use ferricov.Cases.Token.{
  positional, exact, exact_alias, unique_prefix, ambiguous_prefix, unknown, short_cluster,
  exact_only_prefix_rejected, Resolution, Token, plain, Parser,
}

abbrev pub is_getopt : Family → Bool
is_getopt shared_getopt_long = true
is_getopt direct_getopt_long = true
is_getopt _ = false

abbrev pub is_argparse : Family → Bool
is_argparse argparse = true
is_argparse _ = false

pub getopt-argparse : (f : Family) → is_getopt f ≡ true → is_argparse f ≡ false
getopt-argparse shared_getopt_long h = refl
getopt-argparse direct_getopt_long h = refl
getopt-argparse argparse h = cc
getopt-argparse no_parser h = cc

abbrev pub is_no_parser : Family → Bool
is_no_parser no_parser = true
is_no_parser _ = false

pub getopt-no_parser : (f : Family) → is_getopt f ≡ true → is_no_parser f ≡ false
getopt-no_parser shared_getopt_long h = refl
getopt-no_parser direct_getopt_long h = refl
getopt-no_parser argparse h = cc
getopt-no_parser no_parser h = cc

-- `str.lower` on an ASCII character and text
abbrev pub lower_char : ℕ → ℕ
lower_char c = if leb b'A' c && leb c b'Z' then c + 32 else c

abbrev pub lower : Bytes → Bytes
lower s = map lower_char s

-- `{name.lower(): target for name, target in names.items()}`
abbrev pub lower_keys : List (Bytes × Bytes) → List (Bytes × Bytes)
lower_keys names = map (λ item. (lower item.0, item.1)) names

abbrev pub folded : List (Bytes × Bytes) → List (Bytes × Bytes)
folded names = dict_of (lower_keys names)

-- The targets whose spelling starts with `body`, in the order of the dictionary.
unfoldable pub candidates : Bytes → List (Bytes × Bytes) → List Bytes
candidates body [] = []
candidates body ((spelling, target) ∷ names) =
    if starts_with body spelling then target ∷ candidates body names else candidates body names

-- `unique_prefix` for one target, `ambiguous_prefix` for several, `unknown` for none
abbrev pub prefix_resolution : List Bytes → Resolution
prefix_resolution [] = unknown
prefix_resolution (t ∷ []) = unique_prefix
prefix_resolution (t ∷ u ∷ ts) = ambiguous_prefix

-- `[aliases.get(f"-{c}") for c in characters]`, when all are there
unfoldable pub bundle : List (Bytes × Bytes) → Bytes → Option (List Bytes)
bundle aliases [] = some []
bundle aliases (c ∷ cs) = elim (get (b'-' ∷ c ∷ []) aliases) [
  | none ↦ none
  | some target ↦ elim (bundle aliases cs) [ none ↦ none | some targets ↦ some (target ∷ targets) ]
]

abbrev pub operand_of : Parser → Bytes → Token
operand_of p t = record (plain t positional) { positionals_defined = some p.positionals }

abbrev pub aliased : Bytes → Bytes → Token
aliased t target = record (plain t exact_alias) { target = some target }

abbrev pub with_targets : Bytes → Resolution → List Bytes → Token
with_targets t r targets = record (plain t r) { targets = some targets }

abbrev pub is_dashed : Bytes → Bool
is_dashed t = starts_with (codes "-") t || starts_with (codes "+") t

abbrev pub long_token : Parser → Bytes → Bytes → Option Bytes → Token
long_token p t body (some target) = with_targets t exact (target ∷ [])
long_token p t body none =
    let targets = sorted (candidates body p.canonical) in
    with_targets t (prefix_resolution targets) targets

abbrev pub cluster_token : Bytes → Option (List Bytes) → Token
cluster_token t (some targets) = with_targets t short_cluster targets
cluster_token t none = plain t unknown

abbrev pub argparse_dashed : Parser → Bytes → Option Bytes → Token
argparse_dashed p t (some target) = aliased t target
argparse_dashed p t none =
    if starts_with (codes "--") t
    then long_token p t (drop 2 t) (get (drop 2 t) p.canonical)
    else cluster_token t (bundle p.aliases (drop 1 t))

-- `bundling_reverse_targets`, for a token with one dash and more than one character after it
abbrev pub reverse_bundle : Parser → Bytes → Option (List Bytes)
reverse_bundle p t =
    if starts_with (codes "-") t && not (starts_with (codes "--") t) && ltb 2 (length t)
    then bundle (folded p.aliases) (lower (drop 1 t))
    else none

abbrev pub exact_only_target : Parser → List Bytes → Bool
exact_only_target p (t ∷ []) = mem t p.exact_only
exact_only_target p _ = false

-- No name and no alias is spelled by the token: `targets` are the names that it abbreviates.
unfoldable pub abbreviated : Parser → Bytes → List Bytes → Token
abbreviated p t targets =
    if p.posix
    then record (with_targets t unknown []) { bundling_reverse_targets = reverse_bundle p t }
    else if exact_only_target p targets
    then with_targets t exact_only_prefix_rejected targets
    else record (with_targets t (prefix_resolution targets) targets) {
      bundling_reverse_targets = reverse_bundle p t;
    }

abbrev pub named : Parser → Bytes → Bytes → Option Bytes → Token
named p t body (some target) = with_targets t exact (target ∷ [])
named p t body none = abbreviated p t (sorted (candidates body (folded p.canonical)))

abbrev pub getopt_named : Parser → Bytes → Bytes → Token
getopt_named p t body = named p t body (get body (folded p.canonical))

abbrev pub getopt_dashed : Parser → Bytes → Option Bytes → Token
getopt_dashed p t (some target) = aliased t target
getopt_dashed p t none =
    if starts_with (codes "--") t
    then getopt_named p t (lower (drop 2 t))
    else if is_dashed t
    then getopt_named p t (lower (drop 1 t))
    else operand_of p t
