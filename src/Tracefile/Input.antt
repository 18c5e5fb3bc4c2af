-- ===== src/Tracefile/Input.antt =====
-- `parse_input_semantic_model` of validation_common.py, the reader of raw fixtures.
pub mod Agrees
use ferricov.Base.{
  ℕ, ◌≡◌, refl, Bool, true, false, ◌&&◌, ◌||◌, List, [], ◌∷◌, ◌++◌, Option, none, some,
  if◌then◌else◌, leb, all,
}
use ferricov.Base.Bytes.{Bytes, codes, has_byte, bytes_eq, split, split_at_most, starts_with}
use ferricov.Base.Text.{byte_lines}
use ferricov.Tracefile.Section.{
  Triple, Section, new_section, append_triple, append_branch, append_mcdc, append_da, put,
  put_summary, summary_tags, starts_with_any, end_tag, slice_from,
}

-- The fields that the model shares with the reader of output are those of `base`.
pub record InputSection : Type 0 where
  pub base : Section
  pub legacy_functions : List (Bytes × Option Bytes × Bytes)
  pub legacy_counts : List (Bytes × Bytes)
  pub unknown_tags : List Bytes
  pub forbidden_tags : List Bytes
  pub ordered_detail_tags : List Bytes

abbrev pub new_input : Bytes → InputSection
new_input tn = record {
  base = new_section tn;
  legacy_functions = [];
  legacy_counts = [];
  unknown_tags = [];
  forbidden_tags = [];
  ordered_detail_tags = [];
}

-- (start, end, name), or (start, name) with no end
abbrev append_legacy :
    List Bytes → List (Bytes × Option Bytes × Bytes) → List (Bytes × Option Bytes × Bytes)
append_legacy (a ∷ b ∷ c ∷ []) fs = fs ++ (a, some b, c) ∷ []
append_legacy (a ∷ b ∷ []) fs = fs ++ (a, none, b) ∷ []
append_legacy _ fs = fs

abbrev append_count : List Bytes → List (Bytes × Bytes) → List (Bytes × Bytes)
append_count (a ∷ b ∷ []) cs = cs ++ (a, b) ∷ []
append_count _ cs = cs

abbrev first : List Bytes → Bytes
first [] = []
first (a ∷ rest) = a

-- `^[A-Za-z]+$`
abbrev is_letter : ℕ → Bool
is_letter c = (leb b'A' c && leb c b'Z') || (leb b'a' c && leb c b'z')

abbrev is_word : Bytes → Bool
is_word [] = false
is_word (c ∷ s) = is_letter c && all is_letter s

pub record State : Type 0 where
  pub sections : List InputSection
  pub current : Option InputSection

abbrev pub opened : List InputSection → InputSection → State
opened done s = record { sections = done; current = some s }

abbrev pub flush_into : List InputSection → Option InputSection → List InputSection
flush_into done none = done
flush_into done (some s) = done ++ s ∷ []

-- a change of the shared fields, with the tag that is noted
abbrev pub noted : List InputSection → InputSection → Bytes → Section → State
noted done s tag b =
    opened done (record s { base = b; ordered_detail_tags = s.ordered_detail_tags ++ tag ∷ [] })

-- a line with a colon and no known tag
unfoldable pub unknown_line : List InputSection → InputSection → Bytes → State
unknown_line done s line =
    let tag = first (split_at_most b':' 1 line) in
    if has_byte b':' line && is_word tag
    then opened done (record s {
      unknown_tags = s.unknown_tags ++ tag ∷ [];
      ordered_detail_tags = s.ordered_detail_tags ++ tag ∷ [];
    })
    else opened done s

-- A line inside a section, other than a comment or TN.
unfoldable pub section_line : List InputSection → InputSection → Bytes → State
unfolding unknown_line
section_line done s line =
    let b = s.base in
    if starts_with (codes "SF:") line
    then noted done s (codes "SF") (record b { sf = some (slice_from 3 line) })
    else if starts_with (codes "KF:") line
    then opened done (record s {
      base = record b { sf = some (slice_from 3 line) };
      forbidden_tags = s.forbidden_tags ++ codes "KF" ∷ [];
      ordered_detail_tags = s.ordered_detail_tags ++ codes "KF" ∷ [];
    })
    else if starts_with (codes "VER:") line
    then noted done s (codes "VER") (record b { ver = some (slice_from 4 line) })
    else if starts_with (codes "FN:") line
    then opened done (record s {
      legacy_functions =
          append_legacy (split_at_most b',' 2 (slice_from 3 line)) s.legacy_functions;
      ordered_detail_tags = s.ordered_detail_tags ++ codes "FN" ∷ [];
    })
    else if starts_with (codes "FNDA:") line
    then opened done (record s {
      legacy_counts = append_count (split_at_most b',' 1 (slice_from 5 line)) s.legacy_counts;
      ordered_detail_tags = s.ordered_detail_tags ++ codes "FNDA" ∷ [];
    })
    else if starts_with (codes "FNL:") line
    then noted done s (codes "FNL")
        (record b { functions = append_triple (split b',' (slice_from 4 line)) b.functions })
    else if starts_with (codes "FNA:") line
    then noted done s (codes "FNA")
        (record b { aliases = append_triple (split_at_most b',' 2 (slice_from 4 line)) b.aliases })
    else if starts_with (codes "BRDA:") line
    then noted done s (codes "BRDA")
        (record b { branches = append_branch (split b',' (slice_from 5 line)) b.branches })
    else if starts_with (codes "MCDC:") line
    then noted done s (codes "MCDC")
        (record b { mcdc = append_mcdc (split_at_most b',' 5 (slice_from 5 line)) b.mcdc })
    else if starts_with (codes "DA:") line
    then noted done s (codes "DA")
        (record b { das = append_da (split_at_most b',' 1 (slice_from 3 line)) b.das })
    else if starts_with_any summary_tags line
    then noted done s (first (split_at_most b':' 1 line))
        (record b { summaries = put_summary (split_at_most b':' 1 line) b.summaries })
    else if bytes_eq line end_tag || starts_with end_tag line
    then record { sections = done ++ s ∷ []; current = none }
    else unknown_line done s line

abbrev pub in_current : List InputSection → Option InputSection → Bytes → State
in_current done none line = record { sections = done; current = none }
in_current done (some s) line = section_line done s line

unfoldable pub step : State → Bytes → State
step st line =
    if starts_with (codes "#") line
    then st
    else if starts_with (codes "TN:") line
    then opened (flush_into st.sections st.current) (new_input (slice_from 3 line))
    else in_current st.sections st.current line

unfoldable pub run : State → List Bytes → State
run st [] = st
run st (line ∷ lines) = run (step st line) lines

abbrev pub start : State
start = record { sections = []; current = none }

unfoldable pub parse_input_semantic_model : Bytes → List InputSection
unfolding run step section_line split split_at_most starts_with starts_with_any put bytes_eq
    byte_lines
parse_input_semantic_model text =
    let st = run start (byte_lines text) in flush_into st.sections st.current
