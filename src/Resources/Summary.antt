-- ===== src/Resources/Summary.antt =====
-- The summary that LCOV prints of a profile: `expected_stdout` of compat/resources/generate.py.
-- `tenths` stands for the floating-point rate: f"{100.0 * hit / found:.1f}" is the decimal print of
-- a number of tenths, `tenths hit found`, with a point before its last digit.
use ferricov.Base.{
  ℕ, zero, suc, ◌+◌, ◌/◌, ◌%◌, List, [], ◌∷◌, ◌++◌, Option, some, Result, ok, err, ◌>>=◌, ◌==◌,
  if◌then◌else◌,
}
use ferricov.Base.Bytes.{Bytes, codes, bytes_eq}
use ferricov.Base.Decimal.{decimal}
use ferricov.Base.Int.{ℤ, pos}
use ferricov.Resources.Profile.{Profile, Summary, expected_summary}

pub data SummaryError : Type 0 where
  not_ascii line_count preamble_drift message_drift source_file_drift source_file_count :
      SummaryError
  label_drift rate_malformed percentage_inconsistent zero_division : SummaryError

unfoldable pub print_tenths : ℕ → Bytes
print_tenths t = decimal (t / 10) ++ (b'.' ∷ (48 + t % 10) ∷ [])

abbrev pub print_int : ℤ → Bytes
print_int (pos n) = decimal n
print_int (ℤ.negsuc n) = b'-' ∷ decimal (suc n)

-- "\n".join(lines)
unfoldable pub join_lines : List Bytes → Bytes
join_lines [] = []
join_lines (l ∷ []) = l
join_lines (l ∷ k ∷ ls) = l ++ (10 ∷ join_lines (k ∷ ls))

-- "branch" has its own plural
abbrev pub suffix : ℕ → Bytes → Bytes
suffix found noun =
    if found == 1
    then noun
    else if bytes_eq noun (codes "branch")
    then codes "branches"
    else noun ++ codes "s"

module _ (tenths : ℕ → ℕ → ℕ) where
  -- `100.0 * hit / found`, printed; the division raises at 0
  unfoldable pub rate_text : ℕ → ℕ → Result SummaryError Bytes
  rate_text hit zero = err zero_division
  rate_text hit (suc n) = ok (print_tenths (tenths hit (suc n)))

  -- f"  {label}: {percentage:.1f}% ({hit} of {found} {suffix})"
  unfoldable pub rate_line : Bytes → ℕ → ℕ → Bytes → Result SummaryError Bytes
  unfolding rate_text
  rate_line label found hit noun = do
    percentage ← rate_text hit found
    ok (
        codes "  "
        ++ (label
            ++ (codes ": "
                ++ (percentage
                    ++ (codes "% ("
                        ++ (decimal hit
                            ++ (codes " of "
                                ++ (decimal found ++ (codes " " ++ (noun ++ codes ")"))))))))))

  unfoldable pub coverage_line : Bytes → Option ℕ → Option ℕ → Bytes → Result SummaryError Bytes
  unfolding rate_line
  coverage_line label (some found) (some hit) noun = rate_line label found hit (suffix found noun)
  coverage_line label _ _ noun = ok (codes "  " ++ (label ++ codes ": no data found"))

  -- LCOV appends its plural suffix to a label that is plural already.
  unfoldable pub condition_line : Option ℕ → Option ℕ → Result SummaryError Bytes
  unfolding rate_line
  condition_line (some found) (some hit) =
      rate_line (codes "conditions..") found hit (codes "conditionss")
  condition_line _ _ = ok (codes "  conditions..: no data found")

  unfoldable pub expected_lines : Summary → Result SummaryError (List Bytes)
  expected_lines s = do
    lines ← coverage_line (codes "lines.......") s.lines_found s.lines_hit (codes "line")
    functions ←
        coverage_line (codes "functions...") s.functions_found s.functions_hit (codes "function")
    branches ← coverage_line (codes "branches....") s.branches_found s.branches_hit (codes "branch")
    conditions ← condition_line s.condition_outcomes_found s.condition_outcomes_hit
    ok (
        codes "Reading tracefile input.info."
        ∷ codes "Summary coverage rate:"
        ∷ (codes "  source files: " ++ print_int s.source_files)
        ∷ lines
        ∷ functions
        ∷ branches
        ∷ conditions
        ∷ codes "Message summary:"
        ∷ codes "  no messages were reported"
        ∷ [])

  unfoldable pub expected_stdout : Profile → Result SummaryError Bytes
  expected_stdout p = do
    lines ← expected_lines (expected_summary p)
    ok (join_lines lines ++ 10 ∷ [])
