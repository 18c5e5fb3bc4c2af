-- ===== src/Resources/Shape/Accepts.antt =====
-- Every profile of a known axis generates an input whose measured shape is the promised one.
use Prim.Native.String.{String}
use ferricov.Base.{
  ℕ, ◌≤◌, ◌≡◌, refl, ap, ◌∙◌, [], ◌∷◌, ◌++◌, some, none, ok, arith, length, length-replicate,
  replicate, ◌≢◌,
}
use ferricov.Base.Bytes.{Bytes, codes, split_at_most}
use ferricov.Resources.Profile.{
  Axis, field_bytes, data_records, sections, family_cardinality, Profile,
}
use ferricov.Resources.Generate.{
  da_body, section_body, function_body, branch_body, mcdc_body, end_of_record,
}
use ferricov.Resources.Generate.Emits.{IsKnown, records, records-IsPlain, write_axis-records, range}
use ferricov.Resources.Analyze.{Counts, initial, shape_of, dispatch}
use ferricov.Resources.Analyze.Sets.{Holds-nil}
use ferricov.Resources.Analyze.Scan.{scan, read_lines-scan, Reaches, Reaches-append, Reaches-range}
use ferricov.Resources.Analyze.Families.{
  Inside, seen, da-Inside, function-Inside, branch-Inside, condition-Inside, line_key, function_key,
  branch_key, condition_key,
}
use ferricov.Resources.Analyze.Sections.{Sections, section-Sections, section_key}
use ferricov.Resources.Shape.{validate_shape, generate_and_analyze}

-- A field shorter than the path "resource/field.c" is not the longest field of its input.
abbrev pub IsLongEnough : Axis → ℕ → Type 0
IsLongEnough field_bytes n = 16 ≤ n
IsLongEnough _ n = Unit

-- The counts that each axis promises.
abbrev pub Promised : Axis → ℕ → Counts → Type 0
Promised field_bytes n c =
    (c.max_field_bytes ≡ n) × (c.section_count ≡ 1) × (length c.line_keys ≡ 1)
Promised data_records n c =
    (c.data_record_count ≡ n) × (c.section_count ≡ 1) × (length c.line_keys ≡ n)
Promised sections n c = (c.section_count ≡ n) × (length c.line_keys ≡ n)
Promised family_cardinality n c =
    (c.section_count ≡ 1)
    × (length c.line_keys ≡ n)
    × (length c.function_keys ≡ n)
    × (length c.branch_keys ≡ n)
    × (length c.mcdc_keys ≡ n)
Promised _ n c = Unit

-- `end_of_record` ends the section and touches no count of it.
close-Inside :
    (source : Bytes) (l f b m : ℕ) (c : Counts) (P : Counts → Type 0)
    → Inside source l f b m c
    → ((d : Counts)
        → d.section_count ≡ c.section_count
        → d.data_record_count ≡ c.data_record_count
        → d.line_keys ≡ c.line_keys
        → d.function_keys ≡ c.function_keys
        → d.branch_keys ≡ c.branch_keys
        → d.mcdc_keys ≡ c.mcdc_keys
        → P d)
    → Reaches (end_of_record ∷ []) c P
unfolding scan dispatch
close-Inside source l f b m c P h k =
    let d : Counts = record (seen end_of_record c) { current_source = none } in
    (d, refl, k d refl refl refl refl refl refl)

field-Promised : (n : ℕ) → 16 ≤ n → Reaches (records field_bytes n) initial (Promised field_bytes n)
unfolding records scan dispatch split_at_most
field-Promised n h =
    let source : Bytes = codes "resource/field.c" in
    let c1 : Counts = seen (codes "TN:" ++ replicate n b'x') initial in
    let c2 : Counts = record (seen (codes "SF:resource/field.c") c1) {
      current_source = some source;
      section_count = 1;
    } in
    let c3 : Counts = record (seen (codes "DA:1,1") c2) {
      data_record_count = 1;
      line_keys = (source ∷ codes "1" ∷ []) ∷ [];
    } in
    (
      record (seen end_of_record c3) { current_source = none },
      refl,
      (omega (arith, length-replicate {A = ℕ} n b'x'), refl, refl),
    )

open-Inside :
    (path : Bytes) → path ≢ [] → Reaches ((codes "SF:" ++ path) ∷ []) initial (Inside path 0 0 0 0)
unfolding scan dispatch split_at_most
open-Inside path h = (
  record (seen (codes "SF:" ++ path) initial) { current_source = some path; section_count = 1 },
  refl,
  record {
    here = refl;
    one_section = refl;
    data_records = refl;
    lines = Holds-nil (line_key path);
    functions = Holds-nil (function_key path);
    branches = Holds-nil (branch_key path);
    conditions = Holds-nil (condition_key path);
  },
)

module _ (source : Bytes) (n : ℕ) where
  lines-Inside :
      (f b m : ℕ) (c : Counts)
      → Inside source 0 f b m c
      → Reaches (range da_body 1 n) c (Inside source n f b m)
  lines-Inside f b m c =
      Reaches-range da_body (λ l. Inside source l f b m) (λ l. da-Inside source l f b m) n 0 n c
        (omega arith)

  functions-Inside :
      (c : Counts)
      → Inside source 0 0 0 0 c
      → Reaches (range function_body 1 n) c (Inside source 0 n 0 0)
  functions-Inside c =
      Reaches-range function_body (λ f. Inside source 0 f 0 0) (λ f. function-Inside source 0 f 0 0)
        n 0 n c (omega arith)

  branches-Inside :
      (c : Counts)
      → Inside source 0 n 0 0 c
      → Reaches (range branch_body 1 n) c (Inside source 0 n n 0)
  branches-Inside c =
      Reaches-range branch_body (λ b. Inside source 0 n b 0) (λ b. branch-Inside source 0 n b 0) n 0
        n c (omega arith)

  conditions-Inside :
      (c : Counts)
      → Inside source 0 n n 0 c
      → Reaches (range mcdc_body 1 n) c (Inside source 0 n n n)
  conditions-Inside c =
      Reaches-range mcdc_body (λ m. Inside source 0 n n m) (λ m. condition-Inside source 0 n n m) n
        0 n c (omega arith)

data-Promised : (n : ℕ) → Reaches (records data_records n) initial (Promised data_records n)
unfolding records
data-Promised n =
    let source : Bytes = codes "resource/records.c" in
    Reaches-append ((codes "SF:" ++ source) ∷ []) (range da_body 1 n ++ end_of_record ∷ []) initial
      (open-Inside source cc)
      λ c1 h1.
        Reaches-append (range da_body 1 n) (end_of_record ∷ []) c1
          (lines-Inside source n 0 0 0 c1 h1)
          λ c2 h2.
            close-Inside source n 0 0 0 c2 (Promised data_records n) h2 λ d s r l f b m.
              (r ∙ h2.data_records, s ∙ h2.one_section, ap length l ∙ h2.lines.size)

cardinality-Promised :
    (n : ℕ) → Reaches (records family_cardinality n) initial (Promised family_cardinality n)
unfolding records
cardinality-Promised n =
    let source : Bytes = codes "resource/cardinality.c" in
    Reaches-append ((codes "SF:" ++ source) ∷ []) _ initial (open-Inside source cc) λ c1 h1.
      Reaches-append (range function_body 1 n) _ c1 (functions-Inside source n c1 h1) λ c2 h2.
        Reaches-append (range branch_body 1 n) _ c2 (branches-Inside source n c2 h2) λ c3 h3.
          Reaches-append (range mcdc_body 1 n) _ c3 (conditions-Inside source n c3 h3) λ c4 h4.
            Reaches-append (range da_body 1 n) (end_of_record ∷ []) c4
              (lines-Inside source n n n n c4 h4)
              λ c5 h5.
                close-Inside source n n n n c5 (Promised family_cardinality n) h5 λ d s r l f b m. (
                  s ∙ h5.one_section,
                  ap length l ∙ h5.lines.size,
                  ap length f ∙ h5.functions.size,
                  ap length b ∙ h5.branches.size,
                  ap length m ∙ h5.conditions.size,
                )

sections-Promised : (n : ℕ) → Reaches (records sections n) initial (Promised sections n)
unfolding records
sections-Promised n =
    let (c, e, h) =
      Reaches-range section_body Sections section-Sections n 0 n initial (omega arith)
        (record { sections = refl; lines = Holds-nil section_key }) in
    (c, e, (h.sections, h.lines.size))

records-Promised :
    (a : Axis) (n : ℕ) → IsKnown a → IsLongEnough a n → Reaches (records a n) initial (Promised a n)
records-Promised field_bytes n k h = field-Promised n h
records-Promised data_records n k h = data-Promised n
records-Promised sections n k h = sections-Promised n
records-Promised family_cardinality n k h = cardinality-Promised n
records-Promised _ n k h = absurd k

validate-axis-Promised :
    (sha256 : Bytes → Bytes) (id : String) (a : Axis) (n : ℕ) (c : Counts)
    → IsKnown a
    → Promised a n c
    → validate_shape (record { id = id; axis = a; target = n }) (shape_of sha256 c) ≡ ok tt
unfolding validate_shape shape_of
validate-axis-Promised sha256 id field_bytes n c k h = ground arith
validate-axis-Promised sha256 id data_records n c k h = ground arith
validate-axis-Promised sha256 id sections n c k h = ground arith
validate-axis-Promised sha256 id family_cardinality n c k h = ground arith
validate-axis-Promised sha256 id _ n c k h = absurd k

validate-Promised :
    (sha256 : Bytes → Bytes) (p : Profile) (c : Counts)
    → IsKnown p.axis
    → Promised p.axis p.target c
    → validate_shape p (shape_of sha256 c) ≡ ok tt
validate-Promised sha256 p c k h = validate-axis-Promised sha256 p.id p.axis p.target c k h

-- For a known axis, and a field no shorter than the source path, the input is written, is analysed
-- with no error, and passes `validate_shape`; its counts are those that the axis promises.
pub generate_and_analyze_accepts :
    (sha256 : Bytes → Bytes) (p : Profile)
    → IsKnown p.axis
    → IsLongEnough p.axis p.target
    → (c : Counts) × (generate_and_analyze sha256 p ≡ ok (shape_of sha256 c))
      × Promised p.axis p.target c
unfolding generate_and_analyze
generate_and_analyze_accepts sha256 p k h =
    let (c, e, q) = records-Promised p.axis p.target k h in
    (
      c,
      rw (write_axis-records p.axis p.target k) (
          rw (read_lines-scan (records p.axis p.target) initial (records-IsPlain p.axis p.target))
            (rw e (rw (validate-Promised sha256 p c k q)))),
      q,
    )
