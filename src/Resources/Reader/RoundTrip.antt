-- ===== src/Resources/Reader/RoundTrip.antt =====
-- `parse_summary` reads the expected summary of every profile back.
use Prim.Native.String.{String}
use ferricov.Base.{
  ℕ, zero, suc, ◌*◌, ◌<◌, ◌≡◌, refl, ◌∙◌, [], ◌∷◌, ◌++◌, Result, ok, ◌>>=◌, arith, >>=_assoc,
}
use ferricov.Base.Bytes.{codes}
use ferricov.Resources.Profile.{
  Axis, field_bytes, data_records, sections, family_cardinality, Profile, Summary, expected_summary,
}
use ferricov.Resources.Summary.{SummaryError, join_lines, expected_lines, expected_stdout}
use ferricov.Resources.Reader.{parse_summary}
use ferricov.Resources.Reader.Lines.{literal-IsLine, printed-IsLine}
use ferricov.Resources.Reader.Printing.{
  parse_summary-lines, covered-IsLine, only_lines, only_lines-print, only_lines-parse, all_families,
  all_families-print, all_families-parse,
}

module _ (tenths : ℕ → ℕ → ℕ) where
  -- Printing a summary and reading the text.
  abbrev round_trip : Summary → Result SummaryError Summary
  round_trip s = do
    lines ← expected_lines tenths s
    parse_summary tenths (join_lines lines ++ 10 ∷ [])

  round_trip-only_lines :
      (files n : ℕ) → round_trip (only_lines tenths files n) ≡ ok (only_lines tenths files n)
  round_trip-only_lines files n = rw (only_lines-print tenths files n) (
      parse_summary-lines tenths files _ _ _ _
        (covered-IsLine tenths (codes "lines.......") n (codes "line")
          (literal-IsLine (codes "lines.......") refl) (literal-IsLine (codes "line") refl))
        (literal-IsLine (codes "  functions...: no data found") refl)
        (literal-IsLine (codes "  branches....: no data found") refl)
        (literal-IsLine (codes "  conditions..: no data found") refl)
      ∙ only_lines-parse tenths files n)

  round_trip-all_families :
      (n : ℕ) → round_trip (all_families tenths n) ≡ ok (all_families tenths n)
  round_trip-all_families n = rw (all_families-print tenths n) (
      parse_summary-lines tenths 1 _ _ _ _
        (covered-IsLine tenths (codes "lines.......") n (codes "line")
          (literal-IsLine (codes "lines.......") refl) (literal-IsLine (codes "line") refl))
        (covered-IsLine tenths (codes "functions...") n (codes "function")
          (literal-IsLine (codes "functions...") refl) (literal-IsLine (codes "function") refl))
        (covered-IsLine tenths (codes "branches....") n (codes "branch")
          (literal-IsLine (codes "branches....") refl) (literal-IsLine (codes "branch") refl))
        (printed-IsLine (tenths (suc n) (suc (suc (2 * n)))) (codes "conditions..") (suc n) _
          (codes "conditionss") (literal-IsLine (codes "conditions..") refl)
          (literal-IsLine (codes "conditionss") refl))
      ∙ all_families-parse tenths n)

  round_trip-axis :
      (id : String) (a : Axis) (n : ℕ)
      → round_trip (expected_summary (record { id = id; axis = a; target = suc n }))
        ≡ ok (expected_summary (record { id = id; axis = a; target = suc n }))
  unfolding expected_summary
  round_trip-axis id field_bytes n = round_trip-only_lines 1 0
  round_trip-axis id data_records n = round_trip-only_lines 1 n
  round_trip-axis id sections n = round_trip-only_lines (suc n) n
  round_trip-axis id family_cardinality n =
      let e : 2 * suc n ≡ suc (suc (2 * n)) = omega arith in rw e (round_trip-all_families n)
  round_trip-axis id _ n = round_trip-only_lines 1 0

  round_trip-target :
      (id : String) (a : Axis) (n : ℕ)
      → 0 < n
      → round_trip (expected_summary (record { id = id; axis = a; target = n }))
        ≡ ok (expected_summary (record { id = id; axis = a; target = n }))
  round_trip-target id a zero h = absurd (omega arith)
  round_trip-target id a (suc n) h = round_trip-axis id a n

  -- For every profile with a positive target, whatever rate the floating-point division gives, the
  -- expected summary is printed with no error and read back as the same summary.
  pub parse_summary-expected_stdout :
      (p : Profile)
      → 0 < p.target
      → (expected_stdout tenths p >>= parse_summary tenths) ≡ ok (expected_summary p)
  unfolding expected_stdout
  parse_summary-expected_stdout p h =
      >>=_assoc (expected_lines tenths (expected_summary p))
        (λ lines. ok (join_lines lines ++ 10 ∷ [])) (parse_summary tenths)
      ∙ round_trip-target p.id p.axis p.target h
