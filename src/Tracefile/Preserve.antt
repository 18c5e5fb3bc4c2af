-- ===== src/Tracefile/Preserve.antt =====
-- `assert_tf045_input_to_output_preservation` of validation_common.py.
pub mod Accepts
pub mod Rewrites
use ferricov.Base.{
  ℕ, suc, ◌≡◌, Bool, true, false, not, ◌&&◌, ◌||◌, List, [], ◌∷◌, ◌++◌, Option, none, some, Result,
  ok, err, ◌>>=◌, ◌>>◌, require, if◌then◌else◌, length, ◌==◌, map,
}
use ferricov.Base.Bytes.{Bytes, codes, bytes_eq, mem, starts_with}
use ferricov.Base.Decimal.{decimal}
use ferricov.Base.Same.{
  Same, same, bytes_same, pair_same, option_same, list_same, triple_same, quadruple_same,
  sextuple_same,
}
use ferricov.Tracefile.Section.{Triple, Section}
use ferricov.Tracefile.Input.{InputSection}

-- The "kind" of a corpus member.
pub data Kind : Type 0 where
  current legacy permissive ignored_error : Kind
  unknown : Bytes → Kind

pub record Member : Type 0 where
  pub kind : Kind
  pub expected_output : Bytes

pub data Error : Type 0 where
  output_count tn sf functions aliases branches mcdc das : Error
  function_count alias_count fn_index fn_start fn_end alias_index alias_name alias_hits invented :
      Error
  permissive_tn input_anchor expected_kf unknown_tags_missing internal unknown_kind : Error

-- `_da_line_hits`
abbrev pub da_line_hits : List (Bytes × Bytes × Option Bytes) → List (Bytes × Bytes)
da_line_hits = map (λ (line, hits, checksum). (line, hits))

-- `needle in haystack`
unfoldable pub contains : Bytes → Bytes → Bool
unfolding starts_with
contains needle [] = starts_with needle []
contains needle (c ∷ s) = starts_with needle (c ∷ s) || contains needle s

-- `legacy_counts.get(name)`, of the dict that a later count overwrites
unfoldable pub count_of : Bytes → List (Bytes × Bytes) → Option Bytes
unfolding bytes_eq
count_of name [] = none
count_of name ((count, other) ∷ counts) =
    let later = count_of name counts in
    if same later none && bytes_eq other name then some count else later

abbrev pub end_or : Bytes → Option Bytes → Bytes
end_or start none = start
end_or start (some last) = last

-- The loop over the legacy functions, next to the functions and aliases of the output.
unfoldable pub check_legacy :
    List (Bytes × Bytes)
    → ℕ
    → List (Bytes × Option Bytes × Bytes)
    → List Triple
    → List Triple
    → Result Error (Unit {0})
check_legacy counts index ((start, last, name) ∷ older) ((i, s, e) ∷ fns) ((j, hits, n) ∷ names) =
    do
      require (bytes_eq i (decimal index)) fn_index
      require (bytes_eq s start) fn_start
      require (bytes_eq e (end_or start last)) fn_end
      require (bytes_eq j (decimal index)) alias_index
      require (bytes_eq n name) alias_name
      require (same (some hits) (count_of name counts)) alias_hits
      check_legacy counts (suc index) older fns names
check_legacy counts index _ _ _ = ok tt

abbrev pub is_empty {ℓ} : {A : Type ℓ} → List A → Bool
is_empty [] = true
is_empty (x ∷ xs) = false

unfoldable pub check_current : InputSection → Section → Result Error (Unit {0})
check_current input out = do
  require (same out.tn input.base.tn) tn
  require (same out.sf input.base.sf) sf
  require (same out.functions input.base.functions) functions
  require (same out.aliases input.base.aliases) aliases
  require (same out.branches input.base.branches) branches
  require (same out.mcdc input.base.mcdc) mcdc
  require (same (da_line_hits out.das) (da_line_hits input.base.das)) das

unfoldable pub check_rewritten : InputSection → Section → Result Error (Unit {0})
unfolding check_legacy
check_rewritten input out = do
  require (same out.tn input.base.tn) tn
  require (same out.sf input.base.sf) sf
  require (length out.functions == length input.legacy_functions) function_count
  require (length out.aliases == length input.legacy_functions) alias_count
  check_legacy input.legacy_counts 0 input.legacy_functions out.functions out.aliases
  require (same (da_line_hits out.das) (da_line_hits input.base.das)) das
  require (is_empty out.branches && is_empty out.mcdc) invented

unfoldable pub check_permissive : InputSection → Section → Result Error (Unit {0})
check_permissive input out = do
  require (bytes_eq out.tn (codes ",diff")) permissive_tn
  require (starts_with (codes ",diff") input.base.tn) input_anchor
  require (same out.sf input.base.sf) sf
  require (mem (codes "KF") input.forbidden_tags) expected_kf
  require (same (da_line_hits out.das) ((codes "1", codes "1") ∷ [])) das
  require (is_empty out.functions && is_empty out.aliases) invented

unfoldable pub check_ignored : InputSection → Section → Bytes → Result Error (Unit {0})
unfolding contains
check_ignored input out expected_output = do
  require (same out.tn input.base.tn) tn
  require (same out.sf input.base.sf) sf
  require (same (da_line_hits out.das) (da_line_hits input.base.das)) das
  require (not (is_empty input.unknown_tags)) unknown_tags_missing
  require (not (contains (codes "TD:") expected_output)) internal
  require (is_empty out.functions && (is_empty out.branches && is_empty out.mcdc)) invented

unfoldable pub check_kind : Kind → Bytes → InputSection → Section → Result Error (Unit {0})
unfolding check_current check_rewritten check_permissive check_ignored
check_kind current expected input out = check_current input out
check_kind legacy expected input out = check_rewritten input out
check_kind permissive expected input out = check_permissive input out
check_kind ignored_error expected input out = check_ignored input out expected
check_kind (unknown kind) expected input out = err unknown_kind

unfoldable pub assert_tf045_input_to_output_preservation :
    Member → InputSection → List Section → Result Error (Unit {0})
unfolding check_kind
assert_tf045_input_to_output_preservation member input (out ∷ []) =
    check_kind member.kind member.expected_output input out
assert_tf045_input_to_output_preservation member input _ = err output_count
