-- ===== src/Tracefile/Preserve/Rewrites.antt =====
-- What the preservation check accepts for a legacy member.
use ferricov.Base.{
  ℕ, suc, ◌≡◌, refl, true, ◌&&◌, List, [], ◌∷◌, Option, some, ok, require, >>-eq-ok, require-eq-ok,
  length, ◌==◌, ==→eq, arith,
}
use ferricov.Base.Bytes.{Bytes}
use ferricov.Base.Decimal.{decimal}
use ferricov.Base.Same.{
  same, bytes_same, pair_same, option_same, list_same, triple_same, quadruple_same, sextuple_same,
}
use ferricov.Tracefile.Section.{Triple, Section}
use ferricov.Tracefile.Input.{InputSection}
use ferricov.Tracefile.Preserve
use ferricov.Tracefile.Preserve.Accepts.{required}

-- The functions and the aliases that FN and FNDA records are rewritten to, numbered from `index`.
abbrev pub numbered : ℕ → List (Bytes × Option Bytes × Bytes) → List Triple
numbered index [] = []
numbered index ((start, last, name) ∷ older) =
    (decimal index, start, Preserve.end_or start last) ∷ numbered (suc index) older

abbrev pub AreNamed :
    List (Bytes × Bytes) → ℕ → List (Bytes × Option Bytes × Bytes) → List Triple → Type 0
AreNamed counts index [] names = names ≡ []
AreNamed counts index ((start, last, name) ∷ older) names =
    (hits : Bytes) × (more : List Triple) × (names ≡ (decimal index, hits, name) ∷ more)
    × (some hits ≡ Preserve.count_of name counts)
    × AreNamed counts (suc index) older more

check_legacy-numbered :
    (counts : List (Bytes × Bytes)) (index : ℕ) (older : List (Bytes × Option Bytes × Bytes))
    (fns names : List Triple)
    → length fns ≡ length older
    → length names ≡ length older
    → Preserve.check_legacy counts index older fns names ≡ ok tt
    → (fns ≡ numbered index older) × AreNamed counts index older names
unfolding Preserve.check_legacy
check_legacy-numbered counts index [] [] [] n m h = (refl, refl)
check_legacy-numbered counts index ((start, last, name) ∷ older) ((i, s, e) ∷ fns)
      ((j, hits, k) ∷ names) n m h =
    let (h1, k1) = >>-eq-ok (require (same i (decimal index)) Preserve.fn_index) _ h in
    let (h2, k2) = >>-eq-ok (require (same s start) Preserve.fn_start) _ k1 in
    let (h3, k3) = >>-eq-ok (require (same e (Preserve.end_or start last)) Preserve.fn_end) _ k2 in
    let (h4, k4) = >>-eq-ok (require (same j (decimal index)) Preserve.alias_index) _ k3 in
    let (h5, k5) = >>-eq-ok (require (same k name) Preserve.alias_name) _ k4 in
    let (h6, k6) =
      >>-eq-ok (require (same (some hits) (Preserve.count_of name counts)) Preserve.alias_hits) _
        k5 in
    let (functions, aliases) =
      check_legacy-numbered counts (suc index) older fns names (omega (arith, n)) (omega (arith, m))
        k6 in
    let e1 = required i (decimal index) Preserve.fn_index h1 in
    let e2 = required s start Preserve.fn_start h2 in
    let e3 = required e (Preserve.end_or start last) Preserve.fn_end h3 in
    let e4 = required j (decimal index) Preserve.alias_index h4 in
    let e5 = required k name Preserve.alias_name h5 in
    let e6 = required (some hits) (Preserve.count_of name counts) Preserve.alias_hits h6 in
    (cc, (hits, names, (cc), e6, aliases))
check_legacy-numbered counts index [] (f ∷ fns) names n m h = absurd (omega (arith, n))
check_legacy-numbered counts index [] [] (f ∷ names) n m h = absurd (omega (arith, m))
check_legacy-numbered counts index (o ∷ older) [] names n m h = absurd (omega (arith, n))
check_legacy-numbered counts index (o ∷ older) (f ∷ fns) [] n m h = absurd (omega (arith, m))

-- What a legacy section is rewritten to.
pub record IsRewritten (input : InputSection) (out : Section) : Type 0 where
  pub same_tn : out.tn ≡ input.base.tn
  pub same_sf : out.sf ≡ input.base.sf
  pub renumbered : out.functions ≡ numbered 0 input.legacy_functions
  pub renamed : AreNamed input.legacy_counts 0 input.legacy_functions out.aliases
  pub same_hits : Preserve.da_line_hits out.das ≡ Preserve.da_line_hits input.base.das
  pub no_branches : Preserve.is_empty out.branches ≡ true
  pub no_mcdc : Preserve.is_empty out.mcdc ≡ true

check_rewritten-IsRewritten :
    (input : InputSection) (out : Section)
    → Preserve.check_rewritten input out ≡ ok tt
    → IsRewritten input out
unfolding Preserve.check_rewritten
check_rewritten-IsRewritten input out h =
    let (h1, k1) = >>-eq-ok (require (same out.tn input.base.tn) Preserve.tn) _ h in
    let (h2, k2) = >>-eq-ok (require (same out.sf input.base.sf) Preserve.sf) _ k1 in
    let (h3, k3) =
      >>-eq-ok
        (require (length out.functions == length input.legacy_functions) Preserve.function_count) _
        k2 in
    let (h4, k4) =
      >>-eq-ok (require (length out.aliases == length input.legacy_functions) Preserve.alias_count)
        _ k3 in
    let (h5, k5) =
      >>-eq-ok
        (Preserve.check_legacy input.legacy_counts 0 input.legacy_functions out.functions
          out.aliases)
        _ k4 in
    let (h6, h7) =
      >>-eq-ok
        (require (same (Preserve.da_line_hits out.das) (Preserve.da_line_hits input.base.das))
          Preserve.das)
        _ k5 in
    let none_new =
      require-eq-ok (Preserve.is_empty out.branches && Preserve.is_empty out.mcdc) Preserve.invented
        h7 in
    let (functions, aliases) =
      check_legacy-numbered input.legacy_counts 0 input.legacy_functions out.functions out.aliases
        (==→eq (length out.functions) (length input.legacy_functions) (
          require-eq-ok (length out.functions == length input.legacy_functions)
            Preserve.function_count h3))
        (==→eq (length out.aliases) (length input.legacy_functions) (
          require-eq-ok (length out.aliases == length input.legacy_functions) Preserve.alias_count
            h4))
        h5 in
    record {
      same_tn = required out.tn input.base.tn Preserve.tn h1;
      same_sf = required out.sf input.base.sf Preserve.sf h2;
      renumbered = functions;
      renamed = aliases;
      same_hits =
          required (Preserve.da_line_hits out.das) (Preserve.da_line_hits input.base.das)
            Preserve.das h6;
      no_branches = ground arith;
      no_mcdc = ground arith;
    }

-- When the check of a "legacy" member passes, the output is one section with the TN and SF of the input,
-- its functions are the FN records numbered from 0 with a missing end read as the start, its aliases are
-- their names in the same order with the last FNDA count of the name, its DA lines and hits are those of the
-- input, and it has no branches and no MC/DC records.
pub assert_tf045_input_to_output_preservation-IsRewritten :
    (expected : Bytes) (input : InputSection) (sections : List Section)
    → Preserve.assert_tf045_input_to_output_preservation
        (record { kind = Preserve.legacy; expected_output = expected })
        input
        sections
      ≡ ok tt
    → (out : Section) × (sections ≡ out ∷ []) × IsRewritten input out
unfolding Preserve.assert_tf045_input_to_output_preservation
assert_tf045_input_to_output_preservation-IsRewritten expected input (out ∷ []) h =
    (out, refl, check_rewritten-IsRewritten input out h)
assert_tf045_input_to_output_preservation-IsRewritten expected input _ h = cc
