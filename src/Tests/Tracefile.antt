-- ===== src/Tests/Tracefile.antt =====
-- Runs and instances for compat/fixtures/m0-tracefiles.
use ferricov.Base.{
  ◌≡◌, refl, List, [], ◌∷◌, some, none, All, all, Bool, true, not, ◌&&◌, ◌||◌, arith, ok,
}
use ferricov.Base.Bytes.{Bytes, codes, bytes_eq, starts_with}
use ferricov.Base.Decimal.{decimal}
use ferricov.Base.Same.{list_test}
use ferricov.Base.Text.{byte_lines}
use ferricov.Tracefile.Section.{Section, end_tag}
use ferricov.Tracefile.Output.{parse_tracefile_sections}
use ferricov.Tracefile.Input.{InputSection, parse_input_semantic_model}
use ferricov.Tracefile.Input.Agrees.{bases, IsCurrent, parse_input-agrees}
use ferricov.Tracefile.Preserve
use ferricov.Tracefile.Preserve.Accepts.{assert_tf045_input_to_output_preservation_self}
use ferricov.Tracefile.Preserve.Rewrites.{
  IsRewritten, assert_tf045_input_to_output_preservation-IsRewritten,
}

abbrev legacy : Bytes
legacy = codes "# note\nTN:t\nSF:a.c\nFN:3,main\nFNDA:1,main\nDA:3,1\nBA:1\nend_of_record\n"

abbrev legacy_sections : List Section
legacy_sections =
    record {
      tn = codes "t";
      sf = some (codes "a.c");
      ver = none;
      functions = [];
      aliases = [];
      branches = [];
      mcdc = [];
      das = (codes "3", codes "1", none) ∷ [];
      summaries = [];
    }
    ∷ []

parse_legacy : parse_tracefile_sections legacy ≡ legacy_sections
unfolding parse_tracefile_sections
parse_legacy = refl

abbrev is_current : Bytes → Bool
is_current line =
    not (starts_with (codes "KF:") line)
    && (not (starts_with end_tag line) || bytes_eq line end_tag)

is_current-IsCurrent : (line : Bytes) → is_current line ≡ true → IsCurrent line
is_current-IsCurrent line h = record { no_kf = ground arith; whole_end = λ e. ground arith }

all-IsCurrent : (lines : List Bytes) → all is_current lines ≡ true → All IsCurrent lines
all-IsCurrent [] h = tt
all-IsCurrent (line ∷ lines) h =
    (is_current-IsCurrent line (ground arith), all-IsCurrent lines (ground arith))

legacy-IsCurrent : All IsCurrent (byte_lines legacy)
legacy-IsCurrent =
    all-IsCurrent (byte_lines legacy) (unfold byte_lines starts_with bytes_eq in refl)

parse_input-agrees_example :
    bases (parse_input_semantic_model legacy) ≡ parse_tracefile_sections legacy
parse_input-agrees_example = parse_input-agrees legacy legacy-IsCurrent

abbrev legacy_input : InputSection
legacy_input = record {
  base = record {
    tn = codes "t";
    sf = some (codes "a.c");
    ver = none;
    functions = [];
    aliases = [];
    branches = [];
    mcdc = [];
    das = (codes "3", codes "1", none) ∷ [];
    summaries = [];
  };
  legacy_functions = (codes "3", none, codes "main") ∷ [];
  legacy_counts = (codes "1", codes "main") ∷ [];
  unknown_tags = codes "BA" ∷ [];
  forbidden_tags = [];
  ordered_detail_tags = codes "SF" ∷ codes "FN" ∷ codes "FNDA" ∷ codes "DA" ∷ codes "BA" ∷ [];
}

parse_legacy_input : parse_input_semantic_model legacy ≡ legacy_input ∷ []
unfolding parse_input_semantic_model
parse_legacy_input = refl

assert_tf045_input_to_output_preservation_self_example :
    Preserve.assert_tf045_input_to_output_preservation
      (record { kind = Preserve.current; expected_output = [] })
      legacy_input
      (parse_tracefile_sections legacy)
    ≡ ok tt
assert_tf045_input_to_output_preservation_self_example =
    assert_tf045_input_to_output_preservation_self legacy [] legacy_input legacy-IsCurrent
      parse_legacy_input

-- The rewriting of `legacy`: FN and FNDA become FNL and FNA.
abbrev rewritten : Section
rewritten = record legacy_input.base {
  functions = (codes "0", codes "3", codes "3") ∷ [];
  aliases = (codes "0", codes "1", codes "main") ∷ [];
}

assert_tf045_input_to_output_preservation-IsRewritten_example :
    (out : Section) × (rewritten ∷ [] ≡ out ∷ []) × IsRewritten legacy_input out
unfolding Preserve.assert_tf045_input_to_output_preservation Preserve.count_of bytes_eq decimal
    list_test
assert_tf045_input_to_output_preservation-IsRewritten_example =
    assert_tf045_input_to_output_preservation-IsRewritten [] legacy_input (rewritten ∷ []) refl
