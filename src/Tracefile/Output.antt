-- ===== src/Tracefile/Output.antt =====
-- `parse_tracefile_sections` of validation_common.py, the reader of rewritten output.
use ferricov.Base.{List, [], ◌∷◌, ◌++◌, Option, none, some, if◌then◌else◌}
use ferricov.Base.Bytes.{Bytes, codes, bytes_eq, split, split_at_most, starts_with}
use ferricov.Base.Text.{byte_lines}
use ferricov.Tracefile.Section.{
  Section, new_section, append_triple, append_branch, append_mcdc, append_da, put, put_summary,
  summary_tags, starts_with_any, end_tag, slice_from,
}

-- The variables of the loop.
pub record State : Type 0 where
  pub sections : List Section
  pub current : Option Section

abbrev pub opened : List Section → Section → State
opened done s = record { sections = done; current = some s }

-- `if current is not None: sections.append(current)`
abbrev pub flush_into : List Section → Option Section → List Section
flush_into done none = done
flush_into done (some s) = done ++ s ∷ []

-- A line inside a section, other than TN.
unfoldable pub section_line : List Section → Section → Bytes → State
section_line done s line =
    if starts_with (codes "SF:") line
    then opened done (record s { sf = some (slice_from 3 line) })
    else if starts_with (codes "VER:") line
    then opened done (record s { ver = some (slice_from 4 line) })
    else if starts_with (codes "FNL:") line
    then opened done
        (record s { functions = append_triple (split b',' (slice_from 4 line)) s.functions })
    else if starts_with (codes "FNA:") line
    then opened done
        (record s { aliases = append_triple (split_at_most b',' 2 (slice_from 4 line)) s.aliases })
    else if starts_with (codes "BRDA:") line
    then opened done
        (record s { branches = append_branch (split b',' (slice_from 5 line)) s.branches })
    else if starts_with (codes "MCDC:") line
    then opened done
        (record s { mcdc = append_mcdc (split_at_most b',' 5 (slice_from 5 line)) s.mcdc })
    else if starts_with (codes "DA:") line
    then opened done (record s { das = append_da (split_at_most b',' 1 (slice_from 3 line)) s.das })
    else if starts_with_any summary_tags line
    then opened done (record s { summaries = put_summary (split_at_most b':' 1 line) s.summaries })
    else if bytes_eq line end_tag
    then record { sections = done ++ s ∷ []; current = none }
    else opened done s

abbrev pub in_current : List Section → Option Section → Bytes → State
in_current done none line = record { sections = done; current = none }
in_current done (some s) line = section_line done s line

unfoldable pub step : State → Bytes → State
step st line =
    if starts_with (codes "TN:") line
    then opened (flush_into st.sections st.current) (new_section (slice_from 3 line))
    else in_current st.sections st.current line

unfoldable pub run : State → List Bytes → State
run st [] = st
run st (line ∷ lines) = run (step st line) lines

abbrev pub start : State
start = record { sections = []; current = none }

unfoldable pub parse_tracefile_sections : Bytes → List Section
unfolding run step section_line split split_at_most starts_with starts_with_any put bytes_eq
    byte_lines
parse_tracefile_sections text =
    let st = run start (byte_lines text) in flush_into st.sections st.current
