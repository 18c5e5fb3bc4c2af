-- ===== src/Resources/Profile.antt =====
-- The profiles of compat/resources/generate.py, and the totals expected of each.
use ferricov.Base.{
  ℕ, ◌*◌, Bool, true, false, ◌||◌, List, [], ◌∷◌, Option, none, some, if◌then◌else◌,
}
use Prim.Native.String.{String}
use ferricov.Base.Int.{ℤ, pos}

-- The value of a profile's "axis"; `unknown` is any other text.
pub data Axis : Type 0 where
  field_bytes data_records sections family_cardinality : Axis
  unknown : String → Axis

pub record Profile : Type 0 where
  pub id : String
  pub axis : Axis
  pub target : ℕ

abbrev profile : String → Axis → ℕ → Profile
profile id axis target = record { id = id; axis = axis; target = target }

abbrev pub profiles : List Profile
profiles =
    profile "field-1k" field_bytes 1024
    ∷ profile "field-64k" field_bytes 65536
    ∷ profile "field-1m" field_bytes 1048576
    ∷ profile "field-16m" field_bytes 16777216
    ∷ profile "records-1" data_records 1
    ∷ profile "records-1024" data_records 1024
    ∷ profile "records-65536" data_records 65536
    ∷ profile "sections-1" sections 1
    ∷ profile "sections-1024" sections 1024
    ∷ profile "sections-16384" sections 16384
    ∷ profile "cardinality-1" family_cardinality 1
    ∷ profile "cardinality-1024" family_cardinality 1024
    ∷ profile "cardinality-65536" family_cardinality 65536
    ∷ []

-- The errors of the module; `zero_division` is the interpreter's, at a rate over nothing.
pub data Error : Type 0 where
  line_ending unknown_axis outside_section mcdc_field_count : Error
  field_drift record_drift section_drift cardinality_drift source_file_drift line_drift : Error
  zero_division : Error

pub record Summary : Type 0 where
  pub source_files : ℤ
  pub lines_found : Option ℕ
  pub lines_hit : Option ℕ
  pub functions_found : Option ℕ
  pub functions_hit : Option ℕ
  pub branches_found : Option ℕ
  pub branches_hit : Option ℕ
  pub condition_outcomes_found : Option ℕ
  pub condition_outcomes_hit : Option ℕ

abbrev is_sections : Axis → Bool
is_sections sections = true
is_sections _ = false

abbrev is_cardinality : Axis → Bool
is_cardinality family_cardinality = true
is_cardinality _ = false

abbrev counts_lines : Axis → Bool
counts_lines data_records = true
counts_lines a = is_sections a || is_cardinality a

abbrev twice : Option ℕ → Option ℕ
twice none = none
twice (some n) = some (2 * n)

unfoldable pub expected_summary : Profile → Summary
expected_summary p =
    let source_files = if is_sections p.axis then p.target else 1 in
    let lines = if counts_lines p.axis then p.target else 1 in
    let family : Option ℕ = if is_cardinality p.axis then some p.target else none in
    record {
      source_files = pos source_files;
      lines_found = some lines;
      lines_hit = some lines;
      functions_found = family;
      functions_hit = family;
      branches_found = family;
      branches_hit = family;
      condition_outcomes_found = twice family;
      condition_outcomes_hit = family;
    }
