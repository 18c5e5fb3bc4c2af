-- ===== src/Tests/Metadata.antt =====
-- Metadata of small data, for compat/fixtures/m0-tracefiles/generate.py.
use ferricov.Base.{◌+◌, ◌≡◌, refl, true, false, [], ◌∷◌, some}
use ferricov.Base.Bytes.{Bytes, codes, bytes_eq, starts_with}
use ferricov.Tracefile.Metadata.{
  mixed, normalized, tag_of, classify_record, is_utf8, data_metadata, line_endings,
}
use ferricov.Tracefile.Metadata.Counts.{total, comments, data_metadata-total}
use ferricov.Tracefile.Metadata.Endings.{Describes, line_endings-Describes}

abbrev identity : Bytes → Bytes
identity d = d

-- FNL and a summary tag without its colon are known, a suffixed terminator counts as one.
classify_fnl : classify_record (codes "FNL:0,1,4 ") ≡ some (codes "FNL")
unfolding classify_record normalized tag_of starts_with bytes_eq
classify_fnl = refl

classify_summary : classify_record (codes "MCH") ≡ some (codes "MCH")
unfolding classify_record normalized tag_of starts_with bytes_eq
classify_summary = refl

classify_end : classify_record (codes "end_of_record_and_junk") ≡ some (codes "end_of_record")
unfolding classify_record normalized tag_of starts_with bytes_eq
classify_end = refl

-- "é", an overlong slash, and a surrogate
utf8_accent : is_utf8 (195 ∷ 169 ∷ []) ≡ true
unfolding is_utf8
utf8_accent = refl

utf8_overlong : is_utf8 (192 ∷ 175 ∷ []) ≡ false
unfolding is_utf8
utf8_overlong = refl

utf8_surrogate : is_utf8 (237 ∷ 160 ∷ 128 ∷ []) ≡ false
unfolding is_utf8
utf8_surrogate = refl

abbrev text : Bytes
text = codes "# note\r\nTN:t\nend_of_record\n"

data_metadata-total_example :
    total (data_metadata identity text).record_counts
    ≡ (data_metadata identity text).record_count
      + comments (data_metadata identity text).record_counts
data_metadata-total_example = data_metadata-total identity text

line_endings_mixed : line_endings text ≡ mixed
unfolding line_endings
line_endings_mixed = refl

line_endings-Describes_example : Describes (line_endings text) text
line_endings-Describes_example = line_endings-Describes text
