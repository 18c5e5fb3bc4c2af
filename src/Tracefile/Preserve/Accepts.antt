-- ===== src/Tracefile/Preserve/Accepts.antt =====
-- What the preservation check accepts.
use ferricov.Base.{◌≡◌, refl, sym, ap, ◌∙◌, [], ◌∷◌, ok, require, require-eq-ok, All}
use ferricov.Base.Bytes.{Bytes}
use ferricov.Base.Text.{byte_lines}
use ferricov.Base.Same.{
  Same, same, same_refl, same→eq, bytes_same, pair_same, option_same, list_same, triple_same,
  quadruple_same, sextuple_same,
}
use ferricov.Tracefile.Section.{Section}
use ferricov.Tracefile.Output.{parse_tracefile_sections}
use ferricov.Tracefile.Input.{InputSection, parse_input_semantic_model}
use ferricov.Tracefile.Input.Agrees.{IsCurrent, bases, parse_input-agrees}
use ferricov.Tracefile.Preserve

-- A passed test of equality.
pub required :
    {A : Type 0} ⦃s : Same A⦄ (a b : A) (e : Preserve.Error) → require (same a b) e ≡ ok tt → a ≡ b
required a b e h = same→eq a b (require-eq-ok (same a b) e h)

check_current_refl : (input : InputSection) → Preserve.check_current input input.base ≡ ok tt
unfolding Preserve.check_current
check_current_refl input =
    rw
      (
        same_refl input.base.tn,
        same_refl input.base.sf,
        same_refl input.base.functions,
        same_refl input.base.aliases,
        same_refl input.base.branches,
        same_refl input.base.mcdc,
        same_refl (Preserve.da_line_hits input.base.das),
      )
      refl

-- A text whose every line has neither a KF: tag nor a suffixed end_of_record, and in which the input
-- reader finds one section, is accepted as its own rewriting by the check of a "current" member.
pub assert_tf045_input_to_output_preservation_self :
    (text expected : Bytes) (input : InputSection)
    → All IsCurrent (byte_lines text)
    → parse_input_semantic_model text ≡ input ∷ []
    → Preserve.assert_tf045_input_to_output_preservation
        (record { kind = Preserve.current; expected_output = expected })
        input
        (parse_tracefile_sections text)
      ≡ ok tt
unfolding Preserve.assert_tf045_input_to_output_preservation
assert_tf045_input_to_output_preservation_self text expected input lines e =
    let one : parse_tracefile_sections text ≡ input.base ∷ [] =
      sym (parse_input-agrees text lines) ∙ ap bases e in
    rw one (check_current_refl input)

-- The fields that a rewriting keeps, checksums aside.
pub record IsPreserved (input : InputSection) (out : Section) : Type 0 where
  pub same_tn : out.tn ≡ input.base.tn
  pub same_sf : out.sf ≡ input.base.sf
  pub same_functions : out.functions ≡ input.base.functions
  pub same_aliases : out.aliases ≡ input.base.aliases
  pub same_branches : out.branches ≡ input.base.branches
  pub same_mcdc : out.mcdc ≡ input.base.mcdc
  pub same_hits : Preserve.da_line_hits out.das ≡ Preserve.da_line_hits input.base.das
