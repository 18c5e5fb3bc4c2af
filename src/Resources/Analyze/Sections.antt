-- ===== src/Resources/Analyze/Sections.antt =====
-- What `analyze_input` counts of the generated sections: one source file and one line each.
use ferricov.Base.{
  ℕ, zero, suc, ◌+◌, ◌-◌, ◌*◌, ◌≡◌, refl, sym, ap, ◌∙◌, [], ◌∷◌, ◌++◌, some, none, arith, length,
  replicate,
}
use mathlib.Core.List.{append_cancel_left, append_cancel_right}
use ferricov.Base.Bytes.{Bytes, codes, split_at_most}
use ferricov.Base.Decimal.{decimal, value, value_from, value-decimal}
use ferricov.Resources.Generate.{section_body, pad5}
use ferricov.Resources.Analyze.{Counts, Key, add, dispatch}
use ferricov.Resources.Analyze.Sets.{Holds, Holds-add}
use ferricov.Resources.Analyze.Scan.{scan, Reaches}
use ferricov.Resources.Analyze.Families.{seen}

abbrev section_path : ℕ → Bytes
section_path i = codes "resource/section-" ++ (pad5 i ++ codes ".c")

abbrev pub section_key : ℕ → Key
section_key j = section_path (suc j) ∷ codes "1" ∷ []

first_of : Key → Bytes
first_of [] = []
first_of (a ∷ rest) = a

value_zeros : (n : ℕ) (s : Bytes) → value (replicate n b'0' ++ s) ≡ value s
value_zeros zero s = refl
value_zeros (suc n) s =
    let e : 0 * 10 + (48 - 48) ≡ 0 = omega arith in
    ap (λ k. value_from k (replicate n b'0' ++ s)) e ∙ value_zeros n s

value-pad5 : (n : ℕ) → value (pad5 n) ≡ n
unfolding pad5
value-pad5 n = value_zeros (5 - length (decimal n)) (decimal n) ∙ value-decimal n

section_key-injective : (i j : ℕ) → section_key i ≡ section_key j → i ≡ j
unfolding first_of
section_key-injective i j e =
    let p : pad5 (suc i) ≡ pad5 (suc j) =
      append_cancel_right (pad5 (suc i)) (pad5 (suc j)) (codes ".c")
        (append_cancel_left (codes "resource/section-") _ _ (ap first_of e)) in
    let q : suc i ≡ suc j = sym (value-pad5 (suc i)) ∙ ap value p ∙ value-pad5 (suc j) in
    omega arith

-- After `n` whole sections.
pub record Sections (n : ℕ) (c : Counts) : Type 0 where
  pub sections : c.section_count ≡ n
  pub lines : Holds section_key n c.line_keys

pub section-Sections :
    (n : ℕ) (c : Counts) → Sections n c → Reaches (section_body (suc n)) c (Sections (suc n))
unfolding scan dispatch split_at_most
section-Sections n c h =
    let c1 : Counts = record (seen (codes "SF:" ++ section_path (suc n)) c) {
      current_source = some (section_path (suc n));
      section_count = c.section_count + 1;
    } in
    let c2 : Counts = record (seen (codes "DA:1,1") c1) {
      data_record_count = c.data_record_count + 1;
      line_keys = add (section_key n) c.line_keys;
    } in
    (
      record (seen (codes "end_of_record") c2) { current_source = none },
      refl,
      record {
        sections = omega (arith, h.sections);
        lines = Holds-add section_key section_key-injective n c.line_keys h.lines;
      },
    )
