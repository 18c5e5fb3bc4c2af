-- ===== src/Resources/Reader/Printing.antt =====
-- The lines `expected_stdout` prints for the summaries of the profiles, and what `parse_lines`
-- reads from them.
use ferricov.Base.{ℕ, suc, ◌*◌, ◌≡◌, ◌≢◌, refl, ap, List, [], ◌∷◌, ◌++◌, none, some, ok, arith, All}
use ferricov.Base.Bytes.{Bytes, codes, Lacks, split_at_most}
use ferricov.Base.Decimal.{decimal}
use ferricov.Base.Int.{pos, parse_int-decimal}
use ferricov.Base.Text.{strip-decimal, IsLine, decimal-IsLine}
use ferricov.Resources.Profile.{Summary}
use ferricov.Resources.Summary.{suffix, coverage_line, condition_line, join_lines, expected_lines}
use ferricov.Resources.Reader.{rate, check_labels, lists_eq, parse_lines, parse_summary}
use ferricov.Resources.Reader.Rate.{printed, rate_line-printed, rate-printed}
use ferricov.Resources.Reader.Lines.{
  split-join_lines, is_ascii-join_lines, lines-IsUnbroken, literal-IsLine, IsLine-append,
  printed-IsLine, suffix-IsLine, suffix-ne-nil,
}

-- The nine lines, given the four rates.
abbrev nine : ℕ → Bytes → Bytes → Bytes → Bytes → List Bytes
nine files l f b c =
    codes "Reading tracefile input.info."
    ∷ codes "Summary coverage rate:"
    ∷ (codes "  source files: " ++ decimal files)
    ∷ l
    ∷ f
    ∷ b
    ∷ c
    ∷ codes "Message summary:"
    ∷ codes "  no messages were reported"
    ∷ []

nine-IsLine :
    (files : ℕ) (l f b c : Bytes)
    → IsLine l
    → IsLine f
    → IsLine b
    → IsLine c
    → All IsLine (nine files l f b c)
nine-IsLine files l f b c hl hf hb hc = (
  literal-IsLine (codes "Reading tracefile input.info.") refl,
  (
    literal-IsLine (codes "Summary coverage rate:") refl,
    (
      IsLine-append (codes "  source files: ") _ (literal-IsLine (codes "  source files: ") refl)
          (decimal-IsLine files),
      (
        hl,
        (
          hf,
          (
            hb,
            (
              hc,
              (
                literal-IsLine (codes "Message summary:") refl,
                (literal-IsLine (codes "  no messages were reported") refl, tt),
              ),
            ),
          ),
        ),
      ),
    ),
  ),
)

module _ (tenths : ℕ → ℕ → ℕ) where
  -- What is printed as lines is read as lines.
  pub parse_summary-lines :
      (files : ℕ) (l f b c : Bytes)
      → IsLine l
      → IsLine f
      → IsLine b
      → IsLine c
      → parse_summary tenths (join_lines (nine files l f b c) ++ 10 ∷ [])
        ≡ parse_lines tenths (nine files l f b c)
  unfolding parse_summary
  parse_summary-lines files l f b c hl hf hb hc =
      let h : All IsLine (nine files l f b c) = nine-IsLine files l f b c hl hf hb hc in
      rw (is_ascii-join_lines (nine files l f b c) h)
        (ap (parse_lines tenths) (split-join_lines _ _ (lines-IsUnbroken (nine files l f b c) h)))

  -- the printed rate of `hit` out of `n + 1`
  abbrev rated : Bytes → ℕ → ℕ → Bytes → Bytes
  rated label hit n noun = printed (tenths hit (suc n)) label hit (suc n) noun

  abbrev covered : Bytes → ℕ → Bytes → Bytes
  covered label n noun = rated label (suc n) n (suffix (suc n) noun)

  covered_line :
      (label : Bytes) (n : ℕ) (noun : Bytes)
      → coverage_line tenths label (some (suc n)) (some (suc n)) noun ≡ ok (covered label n noun)
  unfolding coverage_line
  covered_line label n noun = rate_line-printed tenths label (suc n) n (suffix (suc n) noun)

  covered-rate :
      (label : Bytes) (n : ℕ) (noun : Bytes)
      → Lacks b':' label
      → noun ≢ []
      → rate tenths (covered label n noun) ≡ ok (some (suc n), some (suc n))
  covered-rate label n noun h k =
      rate-printed tenths label (suc n) n (suffix (suc n) noun) h (suffix-ne-nil (suc n) noun k)

  pub covered-IsLine :
      (label : Bytes) (n : ℕ) (noun : Bytes)
      → IsLine label
      → IsLine noun
      → IsLine (covered label n noun)
  covered-IsLine label n noun h k =
      printed-IsLine (tenths (suc n) (suc n)) label (suc n) (suc n) _ h
        (suffix-IsLine (suc n) noun k)

  abbrev pub only_lines : ℕ → ℕ → Summary
  only_lines files n = record {
    source_files = pos files;
    lines_found = some (suc n);
    lines_hit = some (suc n);
    functions_found = none;
    functions_hit = none;
    branches_found = none;
    branches_hit = none;
    condition_outcomes_found = none;
    condition_outcomes_hit = none;
  }

  abbrev lines_text : ℕ → ℕ → List Bytes
  lines_text files n =
      nine files (covered (codes "lines.......") n (codes "line"))
        (codes "  functions...: no data found") (codes "  branches....: no data found")
        (codes "  conditions..: no data found")

  pub only_lines-print :
      (files n : ℕ) → expected_lines tenths (only_lines files n) ≡ ok (lines_text files n)
  unfolding expected_lines
  only_lines-print files n =
      rw (covered_line (codes "lines.......") n (codes "line"))
        (unfold coverage_line condition_line in refl)

  pub only_lines-parse :
      (files n : ℕ) → parse_lines tenths (lines_text files n) ≡ ok (only_lines files n)
  unfolding parse_lines check_labels lists_eq split_at_most
  only_lines-parse files n =
      rw (strip-decimal, parse_int-decimal)
        (rw (covered-rate (codes "lines.......") n (codes "line") (omega arith) cc))

  -- every family has `n + 1` members, and twice as many condition outcomes
  abbrev pub all_families : ℕ → Summary
  all_families n = record {
    source_files = pos 1;
    lines_found = some (suc n);
    lines_hit = some (suc n);
    functions_found = some (suc n);
    functions_hit = some (suc n);
    branches_found = some (suc n);
    branches_hit = some (suc n);
    condition_outcomes_found = some (suc (suc (2 * n)));
    condition_outcomes_hit = some (suc n);
  }

  abbrev families_text : ℕ → List Bytes
  families_text n =
      nine 1 (covered (codes "lines.......") n (codes "line"))
        (covered (codes "functions...") n (codes "function"))
        (covered (codes "branches....") n (codes "branch"))
        (rated (codes "conditions..") (suc n) (suc (2 * n)) (codes "conditionss"))

  condition_line-printed :
      (n : ℕ)
      → condition_line tenths (some (suc (suc (2 * n)))) (some (suc n))
        ≡ ok (rated (codes "conditions..") (suc n) (suc (2 * n)) (codes "conditionss"))
  unfolding condition_line
  condition_line-printed n =
      rate_line-printed tenths (codes "conditions..") (suc n) (suc (2 * n)) (codes "conditionss")

  pub all_families-print : (n : ℕ) → expected_lines tenths (all_families n) ≡ ok (families_text n)
  unfolding expected_lines
  all_families-print n = rw (covered_line (codes "lines.......") n (codes "line")) (
      rw (covered_line (codes "functions...") n (codes "function")) (
        rw (covered_line (codes "branches....") n (codes "branch"))
          (rw (condition_line-printed n))))

  pub all_families-parse : (n : ℕ) → parse_lines tenths (families_text n) ≡ ok (all_families n)
  unfolding parse_lines check_labels lists_eq split_at_most
  all_families-parse n =
      rw (strip-decimal, parse_int-decimal)
        (rw (covered-rate (codes "lines.......") n (codes "line") (omega arith) cc) (
          rw (covered-rate (codes "functions...") n (codes "function") (omega arith) cc) (
            rw (covered-rate (codes "branches....") n (codes "branch") (omega arith) cc) (
              rw (
                rate-printed tenths (codes "conditions..") (suc n) (suc (2 * n))
                  (codes "conditionss") (omega arith) cc)))))
