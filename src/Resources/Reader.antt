-- ===== src/Resources/Reader.antt =====
-- `_rate` and `parse_summary` of compat/resources/validate.py, over ASCII text. A line never holds a
-- line feed, so `.` of RATE_PATTERN is any character. `int` has no limit on digits here.
pub mod Rate
pub mod Lines
pub mod Printing
pub mod RoundTrip
use ferricov.Base.{
  ℕ, zero, suc, ◌+◌, ◌≡◌, refl, Bool, true, false, not, ◌&&◌, List, [], ◌∷◌, ◌++◌, Option, none,
  some, Result, ok, err, ◌>>=◌, ◌>>◌, require, ◌==◌, ltb, leb, if◌then◌else◌, all, length, take,
  drop,
}
use ferricov.Base.Bytes.{Bytes, codes, bytes_eq, starts_with, split_at_most}
use ferricov.Base.Decimal.{is_digit, value}
use ferricov.Base.Text.{split_lines, strip, span_digits}
use ferricov.Base.Int.{ℤ, parse_int}
use ferricov.Resources.Profile.{Summary}
use ferricov.Resources.Summary.{
  SummaryError, not_ascii, line_count, preamble_drift, message_drift, source_file_drift,
  source_file_count, label_drift, rate_malformed, percentage_inconsistent, rate_text,
}

-- the rest behind the literal `p`
unfoldable pub expect : Bytes → Bytes → Result SummaryError Bytes
expect [] s = ok s
expect (c ∷ p) [] = err rate_malformed
expect (c ∷ p) (d ∷ s) = let rest = expect p s in if c == d then rest else err rate_malformed

-- `[0-9]+` and the literal `p` behind it: the digits and the rest
abbrev literal_after : Bytes → Bytes × Bytes → Result SummaryError (Bytes × Bytes)
literal_after p ([], rest) = err rate_malformed
literal_after p (d ∷ ds, rest) = do behind ← expect p rest; ok (d ∷ ds, behind)

unfoldable pub digits_then : Bytes → Bytes → Result SummaryError (Bytes × Bytes)
unfolding expect
digits_then p s = literal_after p (span_digits s)

-- `[0-9]`
unfoldable pub one_digit : Bytes → Result SummaryError (ℕ × Bytes)
one_digit [] = err rate_malformed
one_digit (c ∷ s) = if is_digit c then ok (c, s) else err rate_malformed

-- `.+\)$`: something, and a closing parenthesis at the end
unfoldable pub ends_in_paren : Bytes → Bool
ends_in_paren [] = false
ends_in_paren (c ∷ []) = false
ends_in_paren (c ∷ d ∷ []) = d == b')'
ends_in_paren (c ∷ d ∷ e ∷ s) = ends_in_paren (d ∷ e ∷ s)

-- RATE_PATTERN.fullmatch: the groups percent, hit and found
unfoldable pub match_rate : Bytes → Result SummaryError (Bytes × Bytes × Bytes)
unfolding digits_then one_digit ends_in_paren
match_rate v = do
  (whole, r1) ← digits_then (codes ".") v
  (tenth, r2) ← one_digit r1
  r3 ← expect (codes "% (") r2
  (hit, r4) ← digits_then (codes " of ") r3
  (found, r5) ← digits_then (codes " ") r4
  require (ends_in_paren r5) rate_malformed
  ok (whole ++ b'.' ∷ tenth ∷ [], hit, found)

abbrev second : List Bytes → Bytes
second (a ∷ b ∷ rest) = b
second _ = []

-- `line.split(":", 1)[1].strip()`, for a line that starts with a label and a colon
abbrev field : Bytes → Bytes
field line = strip (second (split_at_most b':' 1 line))

abbrev nth : ℕ → List Bytes → Bytes
nth i [] = []
nth zero (l ∷ ls) = l
nth (suc i) (l ∷ ls) = nth i ls

abbrev labels : List Bytes
labels =
    codes "  lines.......:"
    ∷ codes "  functions...:"
    ∷ codes "  branches....:"
    ∷ codes "  conditions..:"
    ∷ []

unfoldable pub check_labels : List Bytes → List Bytes → Result SummaryError (Unit {0})
check_labels (line ∷ lines) (label ∷ more) = do
  require (starts_with label line) label_drift
  check_labels lines more
check_labels _ _ = ok tt

abbrev pub is_ascii : Bytes → Bool
is_ascii = all (λ c. ltb c 128)

abbrev int_or_error : Option ℤ → Result SummaryError ℤ
int_or_error none = err source_file_count
int_or_error (some n) = ok n

unfoldable pub lists_eq : List Bytes → List Bytes → Bool
unfolding bytes_eq
lists_eq [] [] = true
lists_eq (a ∷ s) (b ∷ t) = bytes_eq a b && lists_eq s t
lists_eq _ _ = false

module _ (tenths : ℕ → ℕ → ℕ) where
  unfoldable pub check_rate : Bytes × Bytes × Bytes → Result SummaryError (Option ℕ × Option ℕ)
  unfolding rate_text bytes_eq
  check_rate (percent, hit, found) = do
    text ← rate_text tenths (value hit) (value found)
    require (bytes_eq text percent) percentage_inconsistent
    ok (some (value found), some (value hit))

  unfoldable pub rate : Bytes → Result SummaryError (Option ℕ × Option ℕ)
  unfolding match_rate check_rate strip split_at_most
  rate line =
      if bytes_eq (field line) (codes "no data found")
      then ok (none, none)
      else do groups ← match_rate (field line); check_rate groups

  unfoldable pub parse_lines : List Bytes → Result SummaryError Summary
  unfolding rate check_labels starts_with lists_eq parse_int
  parse_lines lines = do
    require (length lines == 9) line_count
    require
        (lists_eq (take 2 lines)
          (codes "Reading tracefile input.info." ∷ codes "Summary coverage rate:" ∷ []))
        preamble_drift
    require
        (lists_eq (drop 7 lines)
          (codes "Message summary:" ∷ codes "  no messages were reported" ∷ []))
        message_drift
    require (starts_with (codes "  source files: ") (nth 2 lines)) source_file_drift
    source_files ← int_or_error (parse_int (field (nth 2 lines)))
    check_labels (take 4 (drop 3 lines)) labels
    (lines_found, lines_hit) ← rate (nth 3 lines)
    (functions_found, functions_hit) ← rate (nth 4 lines)
    (branches_found, branches_hit) ← rate (nth 5 lines)
    (conditions_found, conditions_hit) ← rate (nth 6 lines)
    ok (record {
      source_files = source_files;
      lines_found = lines_found;
      lines_hit = lines_hit;
      functions_found = functions_found;
      functions_hit = functions_hit;
      branches_found = branches_found;
      branches_hit = branches_hit;
      condition_outcomes_found = conditions_found;
      condition_outcomes_hit = conditions_hit;
    })

  unfoldable pub parse_summary : Bytes → Result SummaryError Summary
  unfolding parse_lines split_lines
  parse_summary raw = do require (is_ascii raw) not_ascii; parse_lines (split_lines raw)
