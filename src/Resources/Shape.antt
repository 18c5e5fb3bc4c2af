-- ===== src/Resources/Shape.antt =====
-- `validate_shape` and `generate_and_analyze` of compat/resources/generate.py.
pub mod Accepts
pub mod Rejects
use ferricov.Base.{
  ℕ, ◌≡◌, refl, Bool, true, false, not, ◌&&◌, ◌||◌, Option, none, some, Result, ok, err, ◌>>=◌,
  ◌>>◌, require, ◌==◌,
}
use ferricov.Base.Bytes.{Bytes}
use ferricov.Base.Int.{ℤ, pos, negsuc}
use ferricov.Base.Decimal.{decimal}
use ferricov.Resources.Profile.{
  Axis, field_bytes, data_records, sections, family_cardinality, Profile, Error, field_drift,
  record_drift, section_drift, cardinality_drift, source_file_drift, line_drift, expected_summary,
}
use ferricov.Resources.Generate.{write_profile}
use ferricov.Resources.Analyze.{Shape, analyze_input}

-- The four guards on the axis; an axis that a guard does not name passes it.
unfoldable pub validate_axis : Axis → ℕ → Shape → Result Error (Unit {0})
validate_axis field_bytes target s = require (s.maximum_field_bytes == target) field_drift
validate_axis data_records target s = require (s.data_record_count == target) record_drift
validate_axis sections target s = require (s.section_count == target) section_drift
validate_axis family_cardinality target s =
    require (s.line == target && (s.function == target && (s.branch == target && s.mcdc == target)))
      cardinality_drift
validate_axis _ target s = ok tt

-- `n != expected`, where the expected value may be None
abbrev equals : ℕ → Option ℕ → Bool
equals n none = false
equals n (some m) = n == m

abbrev equals_int : ℕ → ℤ → Bool
equals_int n (pos m) = n == m
equals_int n (negsuc m) = false

unfoldable pub validate_shape : Profile → Shape → Result Error (Unit {0})
unfolding validate_axis expected_summary
validate_shape p s = do
  validate_axis p.axis p.target s
  require (equals_int s.section_count (expected_summary p).source_files) source_file_drift
  require (equals s.line (expected_summary p).lines_found) line_drift

unfoldable pub generate_and_analyze : (Bytes → Bytes) → Profile → Result Error Shape
unfolding write_profile analyze_input validate_shape
generate_and_analyze sha256 p = do
  file ← write_profile p
  shape ← analyze_input sha256 file
  validate_shape p shape
  ok shape
