-- ===== src/Tests/Resources.antt =====
-- Runs and instances for compat/resources.
use ferricov.Base.{ℕ, ◌*◌, ◌/◌, ◌≡◌, refl, ok, err, ◌>>=◌, arith}
use ferricov.Base.Bytes.{Bytes, codes}
use ferricov.Base.Decimal.{decimal}
use ferricov.Resources.Profile.{
  Profile, field_bytes, field_drift, sections, family_cardinality, expected_summary,
}
use ferricov.Resources.Generate.{write_profile, write_section_profile, emit_range, emit, pad5}
use ferricov.Resources.Analyze.{Counts, shape_of}
use ferricov.Resources.Shape.{generate_and_analyze}
use ferricov.Resources.Shape.Accepts.{Promised, generate_and_analyze_accepts}
use ferricov.Resources.Shape.Rejects.{generate_and_analyze_rejects}
use ferricov.Resources.Summary.{expected_stdout}
use ferricov.Resources.Reader.{parse_summary}
use ferricov.Resources.Reader.RoundTrip.{parse_summary-expected_stdout}

abbrev identity : Bytes → Bytes
identity b = b

abbrev two_families : Profile
two_families = record { id = "cardinality-2"; axis = family_cardinality; target = 2 }

generate_and_analyze_accepts_example :
    (c : Counts) × (generate_and_analyze identity two_families ≡ ok (shape_of identity c))
    × Promised family_cardinality 2 c
generate_and_analyze_accepts_example = generate_and_analyze_accepts identity two_families tt tt

-- `round(1000 * hit / found)` at a positive `found`
abbrev tenths : ℕ → ℕ → ℕ
tenths hit found = (1000 * hit) / found

parse_summary-expected_stdout_example :
    (expected_stdout tenths two_families >>= parse_summary tenths)
    ≡ ok (expected_summary two_families)
parse_summary-expected_stdout_example =
    parse_summary-expected_stdout tenths two_families (omega arith)

two_sections :
    write_profile (record { id = "sections-2"; axis = sections; target = 2 })
    ≡ ok (
        codes
          "SF:resource/section-00001.c\nDA:1,1\nend_of_record\nSF:resource/section-00002.c\nDA:1,1\nend_of_record\n")
unfolding write_profile write_section_profile emit_range emit pad5 decimal
two_sections = refl

generate_and_analyze_rejects_example :
    generate_and_analyze identity (record { id = "field-15"; axis = field_bytes; target = 15 })
    ≡ err field_drift
generate_and_analyze_rejects_example =
    generate_and_analyze_rejects identity "field-15" 15 (omega arith)
