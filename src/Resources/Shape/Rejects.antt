-- ===== src/Resources/Shape/Rejects.antt =====
-- A field target below the length of the source path is never met.
use Prim.Native.String.{String}
use ferricov.Base.{
  ℕ, ◌<◌, ◌≡◌, refl, [], ◌∷◌, ◌++◌, some, none, err, arith, length-replicate, replicate,
}
use ferricov.Base.Bytes.{Bytes, codes, split_at_most}
use ferricov.Resources.Profile.{field_bytes, field_drift}
use ferricov.Resources.Generate.{end_of_record}
use ferricov.Resources.Generate.Emits.{records, records-IsPlain, write_axis-records}
use ferricov.Resources.Analyze.{Counts, initial, shape_of, dispatch}
use ferricov.Resources.Analyze.Scan.{scan, read_lines-scan, Reaches}
use ferricov.Resources.Analyze.Families.{seen}
use ferricov.Resources.Shape.{validate_shape, generate_and_analyze}

-- The longest field is then the source path, of 16 bytes.
short_field :
    (n : ℕ) → n < 16 → Reaches (records field_bytes n) initial (λ c. c.max_field_bytes ≡ 16)
unfolding records scan dispatch split_at_most
short_field n h =
    let source : Bytes = codes "resource/field.c" in
    let c1 : Counts = seen (codes "TN:" ++ replicate n b'x') initial in
    let c2 : Counts = record (seen (codes "SF:resource/field.c") c1) {
      current_source = some source;
      section_count = 1;
    } in
    let c3 : Counts = record (seen (codes "DA:1,1") c2) {
      data_record_count = 1;
      line_keys = (source ∷ codes "1" ∷ []) ∷ [];
    } in
    (
      record (seen end_of_record c3) { current_source = none },
      refl,
      omega (arith, length-replicate {A = ℕ} n b'x'),
    )

short_drift :
    (sha256 : Bytes → Bytes) (id : String) (n : ℕ) (c : Counts)
    → n < 16
    → c.max_field_bytes ≡ 16
    → validate_shape (record { id = id; axis = field_bytes; target = n }) (shape_of sha256 c)
      ≡ err field_drift
unfolding validate_shape shape_of
short_drift sha256 id n c h e = ground arith

-- For a field_bytes profile with a target below 16, `generate_and_analyze` raises the field-size drift: the
-- generated file has a longer field, its source path.
pub generate_and_analyze_rejects :
    (sha256 : Bytes → Bytes) (id : String) (n : ℕ)
    → n < 16
    → generate_and_analyze sha256 (record { id = id; axis = field_bytes; target = n })
      ≡ err field_drift
unfolding generate_and_analyze
generate_and_analyze_rejects sha256 id n h =
    let (c, e, longest) = short_field n h in
    rw (write_axis-records field_bytes n tt) (
      rw (read_lines-scan (records field_bytes n) initial (records-IsPlain field_bytes n))
        (rw e (rw (short_drift sha256 id n c h longest) refl)))
