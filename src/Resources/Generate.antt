-- ===== src/Resources/Generate.antt =====
-- The writers of compat/resources/generate.py. An open file is the bytes written so far.
pub mod Emits
use ferricov.Base.{
  ℕ, zero, suc, ◌+◌, ◌-◌, ◌≡◌, refl, Bool, ◌||◌, List, [], ◌∷◌, ◌++◌, Result, ok, err, ◌>>=◌,
  replicate, length, if◌then◌else◌,
}
use ferricov.Base.Bytes.{Bytes, codes, has_byte}
use ferricov.Base.Decimal.{decimal}
use ferricov.Resources.Profile.{
  Axis, field_bytes, data_records, sections, family_cardinality, unknown, Profile, Error,
  line_ending, unknown_axis,
}

unfoldable pub emit : Bytes → Bytes → Result Error Bytes
emit output record_bytes =
    if has_byte b'\n' record_bytes || has_byte b'\r' record_bytes
    then err line_ending
    else ok ((output ++ record_bytes) ++ b'\n' ∷ [])

unfoldable pub emit_all : Bytes → List Bytes → Result Error Bytes
emit_all output [] = ok output
emit_all output (r ∷ rs) = do output' ← emit output r; emit_all output' rs

-- `for index in range(index, index + n)`, with the records that the body emits
unfoldable pub emit_range : (ℕ → List Bytes) → ℕ → ℕ → Bytes → Result Error Bytes
unfolding emit_all
emit_range body index zero output = ok output
emit_range body index (suc n) output = do
  output' ← emit_all output (body index)
  emit_range body (index + 1) n output'

abbrev pub end_of_record : Bytes
end_of_record = codes "end_of_record"

abbrev pub field_records : ℕ → List Bytes
field_records target =
    (codes "TN:" ++ replicate target b'x')
    ∷ codes "SF:resource/field.c"
    ∷ codes "DA:1,1"
    ∷ end_of_record
    ∷ []

-- `f"{index:05}"`: zeros in front of fewer than five digits
unfoldable pub pad5 : ℕ → Bytes
pad5 n = let d = decimal n in replicate (5 - length d) b'0' ++ d

abbrev pub da_body : ℕ → List Bytes
da_body index = (codes "DA:" ++ (decimal index ++ codes ",1")) ∷ []

abbrev pub section_body : ℕ → List Bytes
section_body index =
    (codes "SF:resource/section-" ++ (pad5 index ++ codes ".c"))
    ∷ codes "DA:1,1"
    ∷ end_of_record
    ∷ []

abbrev pub function_body : ℕ → List Bytes
function_body index =
    (codes "FNL:"
      ++ (decimal (index - 1) ++ (codes "," ++ (decimal index ++ (codes "," ++ decimal index)))))
    ∷ (codes "FNA:" ++ (decimal (index - 1) ++ (codes ",1,function_" ++ decimal index)))
    ∷ []

abbrev pub branch_body : ℕ → List Bytes
branch_body index =
    (codes "BRDA:" ++ (decimal index ++ (codes ",0,branch_" ++ (decimal index ++ codes ",1")))) ∷ []

abbrev pub mcdc_body : ℕ → List Bytes
mcdc_body index =
    (codes "MCDC:" ++ (decimal index ++ (codes ",1,t,1,0,condition_" ++ decimal index)))
    ∷ (codes "MCDC:" ++ (decimal index ++ (codes ",1,f,0,0,condition_" ++ decimal index)))
    ∷ []

unfoldable pub write_field_profile : Bytes → ℕ → Result Error Bytes
write_field_profile output target = emit_all output (field_records target)

unfoldable pub write_record_profile : Bytes → ℕ → Result Error Bytes
write_record_profile output target = do
  o1 ← emit output (codes "SF:resource/records.c")
  o2 ← emit_range da_body 1 target o1
  emit o2 end_of_record

unfoldable pub write_section_profile : Bytes → ℕ → Result Error Bytes
write_section_profile output target = emit_range section_body 1 target output

unfoldable pub write_cardinality_profile : Bytes → ℕ → Result Error Bytes
write_cardinality_profile output target = do
  o1 ← emit output (codes "SF:resource/cardinality.c")
  o2 ← emit_range function_body 1 target o1
  o3 ← emit_range branch_body 1 target o2
  o4 ← emit_range mcdc_body 1 target o3
  o5 ← emit_range da_body 1 target o4
  emit o5 end_of_record

unfoldable pub write_axis : Axis → ℕ → Result Error Bytes
write_axis field_bytes target = write_field_profile [] target
write_axis data_records target = write_record_profile [] target
write_axis sections target = write_section_profile [] target
write_axis family_cardinality target = write_cardinality_profile [] target
write_axis (unknown a) target = err unknown_axis

-- What the file holds after `write_profile`; it starts empty.
unfoldable pub write_profile : Profile → Result Error Bytes
unfolding write_axis
write_profile p = write_axis p.axis p.target

sections_2 :
    write_profile (record { id = "sections-2"; axis = sections; target = 2 })
    ≡ ok (
        codes
          "SF:resource/section-00001.c\nDA:1,1\nend_of_record\nSF:resource/section-00002.c\nDA:1,1\nend_of_record\n")
unfolding write_profile write_section_profile emit_range emit pad5 decimal
sections_2 = refl
