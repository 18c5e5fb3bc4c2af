-- ===== src/Resources/Analyze.antt =====
-- `analyze_input` of compat/resources/generate.py. `sha256` stands for hashlib's digest.
pub mod Sets
pub mod Scan
pub mod Families
pub mod Sections
use ferricov.Base.{
  ℕ, zero, suc, ◌+◌, ◌≡◌, refl, Bool, true, false, ◌||◌, List, [], ◌∷◌, ◌++◌, Option, none, some,
  Result, ok, err, ◌>>=◌, length, take, max, if◌then◌else◌,
}
use ferricov.Base.Bytes.{
  Bytes, codes, has_byte, bytes_eq, starts_with, split_at_most, strip_last, raw_lines,
}
use ferricov.Resources.Profile.{Error, outside_section, mcdc_field_count}

-- A tuple of bytes, as a member of one of the sets.
abbrev pub Key : Type 0
Key = List Bytes

unfoldable pub key_eq : Key → Key → Bool
unfolding bytes_eq
key_eq [] [] = true
key_eq [] (b ∷ l) = false
key_eq (a ∷ k) [] = false
key_eq (a ∷ k) (b ∷ l) = if bytes_eq a b then key_eq k l else false

unfoldable pub member : Key → List Key → Bool
unfolding key_eq
member k [] = false
member k (l ∷ ls) = if key_eq k l then true else member k ls

-- `keys.add(k)`
unfoldable pub add : Key → List Key → List Key
unfolding member
add k ks = if member k ks then ks else k ∷ ks

pub record Counts : Type 0 where
  pub digested : Bytes
  pub input_bytes : ℕ
  pub record_count : ℕ
  pub data_record_count : ℕ
  pub section_count : ℕ
  pub max_record_bytes : ℕ
  pub max_field_bytes : ℕ
  pub current_source : Option Bytes
  pub line_keys : List Key
  pub function_keys : List Key
  pub branch_keys : List Key
  pub mcdc_keys : List Key

abbrev pub initial : Counts
initial = record {
  digested = [];
  input_bytes = 0;
  record_count = 0;
  data_record_count = 0;
  section_count = 0;
  max_record_bytes = 0;
  max_field_bytes = 0;
  current_source = none;
  line_keys = [];
  function_keys = [];
  branch_keys = [];
  mcdc_keys = [];
}

abbrev second : List Bytes → Bytes
second (a ∷ b ∷ rest) = b
second _ = []

abbrev first : List Bytes → Bytes
first [] = []
first (a ∷ rest) = a

unfoldable pub payload : Bytes → Bytes
payload r = if has_byte b':' r then second (split_at_most b':' 1 r) else []

-- `(current_source, fields[0], fields[1], fields[4], fields[5])`, if there are six fields
abbrev mcdc_key : Bytes → List Bytes → Result Error Key
mcdc_key source (a ∷ b ∷ c ∷ d ∷ e ∷ f ∷ []) = ok (source ∷ a ∷ b ∷ e ∷ f ∷ [])
mcdc_key source _ = err mcdc_field_count

-- A coverage record inside the section of `source`.
unfoldable pub coverage_record : Bytes → Bytes → Counts → Result Error Counts
unfolding add
coverage_record source r c =
    let p = payload r in
    if starts_with (codes "DA:") r
    then ok (record c {
      data_record_count = c.data_record_count + 1;
      line_keys = add (source ∷ first (split_at_most b',' 1 p) ∷ []) c.line_keys;
    })
    else if starts_with (codes "FNL:") r
    then ok (record c {
      function_keys = add (source ∷ first (split_at_most b',' 1 p) ∷ []) c.function_keys;
    })
    else if starts_with (codes "BRDA:") r
    then ok
        (record c { branch_keys = add (source ∷ take 3 (split_at_most b',' 3 p)) c.branch_keys })
    else do
      key ← mcdc_key source (split_at_most b',' 5 p)
      ok (record c { mcdc_keys = add key c.mcdc_keys })

abbrev in_section : Option Bytes → Bytes → Counts → Result Error Counts
in_section none r c = err outside_section
in_section (some source) r c = coverage_record source r c

unfoldable pub dispatch : Bytes → Counts → Result Error Counts
unfolding payload coverage_record starts_with bytes_eq
dispatch r c =
    if starts_with (codes "SF:") r
    then ok (record c { current_source = some (payload r); section_count = c.section_count + 1 })
    else if bytes_eq r (codes "end_of_record")
    then ok (record c { current_source = none })
    else if starts_with (codes "DA:") r
        || (starts_with (codes "FNL:") r
            || (starts_with (codes "BRDA:") r || starts_with (codes "MCDC:") r))
    then in_section c.current_source r c
    else ok c

abbrev pub tally : Bytes → Counts → Counts
tally r c = record c {
  record_count = c.record_count + 1;
  max_record_bytes = max c.max_record_bytes (length r);
  max_field_bytes = max c.max_field_bytes (length (payload r));
}

abbrev pub consume : Bytes → Counts → Result Error Counts
consume [] c = ok c
consume (b ∷ r) c = dispatch (b ∷ r) (tally (b ∷ r) c)

abbrev pub absorb : Bytes → Counts → Counts
absorb raw c = record c { digested = c.digested ++ raw; input_bytes = c.input_bytes + length raw }

unfoldable pub read_line : Bytes → Counts → Result Error Counts
unfolding dispatch strip_last
read_line raw c = consume (strip_last b'\r' (strip_last b'\n' raw)) (absorb raw c)

unfoldable pub read_lines : List Bytes → Counts → Result Error Counts
read_lines [] c = ok c
read_lines (raw ∷ rest) c = do c' ← read_line raw c; read_lines rest c'

pub record Shape : Type 0 where
  pub sha256 : Bytes
  pub input_bytes : ℕ
  pub record_count : ℕ
  pub data_record_count : ℕ
  pub section_count : ℕ
  pub maximum_record_bytes : ℕ
  pub maximum_field_bytes : ℕ
  pub line : ℕ
  pub function : ℕ
  pub branch : ℕ
  pub mcdc : ℕ

unfoldable pub shape_of : (Bytes → Bytes) → Counts → Shape
shape_of sha256 c = record {
  sha256 = sha256 c.digested;
  input_bytes = c.input_bytes;
  record_count = c.record_count;
  data_record_count = c.data_record_count;
  section_count = c.section_count;
  maximum_record_bytes = c.max_record_bytes;
  maximum_field_bytes = c.max_field_bytes;
  line = length c.line_keys;
  function = length c.function_keys;
  branch = length c.branch_keys;
  mcdc = length c.mcdc_keys;
}

unfoldable pub analyze_input : (Bytes → Bytes) → Bytes → Result Error Shape
unfolding read_lines read_line raw_lines shape_of
analyze_input sha256 file = do c ← read_lines (raw_lines file) initial; ok (shape_of sha256 c)
