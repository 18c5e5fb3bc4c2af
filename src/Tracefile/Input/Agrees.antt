-- ===== src/Tracefile/Input/Agrees.antt =====
-- The two readers agree on the fields that they share.
use ferricov.Base.{
  ◌≡◌, refl, sym, ap, ◌∙◌, true, false, ◌||◌, List, [], ◌∷◌, ◌++◌, Option, none, some,
  if◌then◌else◌, Bool-cases, inl, inr, All, all, all→All, arith, append-nil, false≢true,
}
use ferricov.Base.Bytes.{
  Bytes, codes, bytes_eq, bytes_eq→eq, starts_with, starts_with-append, clash, starts_with-clash,
}
use ferricov.Base.Text.{byte_lines}
use ferricov.Tracefile.Section.{Section, summary_tags, starts_with_any, end_tag}
use ferricov.Tracefile.Output
use ferricov.Tracefile.Output.{parse_tracefile_sections}
use ferricov.Tracefile.Input.{
  InputSection, State, section_line, unknown_line, flush_into, in_current, step, run, start,
  parse_input_semantic_model,
}

abbrev pub bases : List InputSection → List Section
bases [] = []
bases (s ∷ ss) = s.base ∷ bases ss

abbrev base_of : Option InputSection → Option Section
base_of none = none
base_of (some s) = some s.base

abbrev shared : State → Output.State
shared st = record { sections = bases st.sections; current = base_of st.current }

bases-append : (ss ts : List InputSection) → bases (ss ++ ts) ≡ bases ss ++ bases ts
bases-append [] ts = refl
bases-append (s ∷ ss) ts = ap (◌∷◌ s.base) (bases-append ss ts)

-- No KF record, and a line that begins with the terminator is the terminator.
pub record IsCurrent (line : Bytes) : Type 0 where
  pub no_kf : starts_with (codes "KF:") line ≡ false
  pub whole_end : starts_with end_tag line ≡ true → bytes_eq line end_tag ≡ true

starts_with_any-clash :
    (p : Bytes) (tags : List Bytes) (line : Bytes)
    → starts_with p line ≡ true
    → All (λ q. clash p q ≡ true) tags
    → starts_with_any tags line ≡ false
unfolding starts_with_any
starts_with_any-clash p [] line e h = refl
starts_with_any-clash p (q ∷ tags) line e (k, h) =
    rw (starts_with-clash p q line k e) (starts_with_any-clash p tags line e h)

starts_with_refl : (s : Bytes) → starts_with s s ≡ true
starts_with_refl s = rw append-nil at (starts_with-append s [])

not_whole :
    (p q line : Bytes) → clash p q ≡ true → starts_with p line ≡ true → bytes_eq line q ≡ false
not_whole p q line h e = elim (Bool-cases (bytes_eq line q)) [
  | inr differ ↦ differ
  | inl same ↦
      let le : line ≡ q = bytes_eq→eq line q same in
      absurd (false≢true (sym (starts_with-clash p q line h e) ∙ rw le (starts_with_refl q)))
]

abbrev detail_tags : List Bytes
detail_tags =
    codes "SF:"
    ∷ codes "VER:"
    ∷ codes "FNL:"
    ∷ codes "FNA:"
    ∷ codes "BRDA:"
    ∷ codes "MCDC:"
    ∷ codes "DA:"
    ∷ []

module _ (ss : List InputSection) (s : InputSection) (line : Bytes) where
  unknown-shared : shared (unknown_line ss s line) ≡ Output.opened (bases ss) s.base
  unfolding unknown_line
  unknown-shared = ground arith

  -- a legacy tag, which the reader of output passes over
  legacy_skipped :
      (p : Bytes)
      → starts_with p line ≡ true
      → all (clash p) detail_tags ≡ true
      → all (clash p) summary_tags ≡ true
      → clash p end_tag ≡ true
      → Output.section_line (bases ss) s.base line ≡ Output.opened (bases ss) s.base
  unfolding Output.section_line
  legacy_skipped p e hs ks w =
      let h = all→All (clash p) detail_tags hs in
      let k = all→All (clash p) summary_tags ks in
      rw (
        starts_with-clash p (codes "SF:") line h.0 e,
        starts_with-clash p (codes "VER:") line h.1.0 e,
        starts_with-clash p (codes "FNL:") line h.1.1.0 e,
        starts_with-clash p (codes "FNA:") line h.1.1.1.0 e,
        starts_with-clash p (codes "BRDA:") line h.1.1.1.1.0 e,
        starts_with-clash p (codes "MCDC:") line h.1.1.1.1.1.0 e,
        starts_with-clash p (codes "DA:") line h.1.1.1.1.1.1.0 e,
        starts_with_any-clash p summary_tags line e k,
        not_whole p end_tag line w e,
      )

  abbrev Agree : Type 0
  Agree = shared (section_line ss s line) ≡ Output.section_line (bases ss) s.base line

  legacy_agrees :
      (p : Bytes)
      → shared (section_line ss s line) ≡ Output.opened (bases ss) s.base
      → starts_with p line ≡ true
      → all (clash p) detail_tags ≡ true
      → all (clash p) summary_tags ≡ true
      → clash p end_tag ≡ true
      → Agree
  legacy_agrees p skip e h k w = skip ∙ sym (legacy_skipped p e h k w)

  -- the terminator, or a tag that neither reader knows
  last_agrees :
      IsCurrent line
      → shared (
          if bytes_eq line end_tag || starts_with end_tag line
          then record { sections = ss ++ s ∷ []; current = none }
          else unknown_line ss s line)
        ≡ (if bytes_eq line end_tag
            then record { sections = bases ss ++ s.base ∷ []; current = none }
            else Output.opened (bases ss) s.base)
  last_agrees h = elim (Bool-cases (bytes_eq line end_tag)) [
    | inl e ↦ rw e (rw (bases-append ss (s ∷ [])))
    | inr e ↦ elim (Bool-cases (starts_with end_tag line)) [
      | inl f ↦ absurd (false≢true (sym e ∙ h.whole_end f))
      | inr f ↦ rw (e, f) unknown-shared
    ]
  ]

  section_line-shared : IsCurrent line → Agree
  unfolding section_line Output.section_line
  section_line-shared h = elim (Bool-cases (starts_with (codes "SF:") line)) [
    | inl e1 ↦ rw e1
    | inr e1 ↦ elim (Bool-cases (starts_with (codes "VER:") line)) [
      | inl e2 ↦ rw (e1, h.no_kf, e2)
      | inr e2 ↦ elim (Bool-cases (starts_with (codes "FN:") line)) [
        | inl e3 ↦
            let skip : shared (section_line ss s line) ≡ Output.opened (bases ss) s.base =
              rw (e1, h.no_kf, e2, e3) in
            legacy_agrees (codes "FN:") skip e3 refl refl refl
        | inr e3 ↦ elim (Bool-cases (starts_with (codes "FNDA:") line)) [
          | inl e4 ↦
              let skip : shared (section_line ss s line) ≡ Output.opened (bases ss) s.base =
                rw (e1, h.no_kf, e2, e3, e4) in
              legacy_agrees (codes "FNDA:") skip e4 refl refl refl
          | inr e4 ↦ elim (Bool-cases (starts_with (codes "FNL:") line)) [
            | inl e5 ↦ rw (e1, h.no_kf, e2, e3, e4, e5)
            | inr e5 ↦ elim (Bool-cases (starts_with (codes "FNA:") line)) [
              | inl e6 ↦ rw (e1, h.no_kf, e2, e3, e4, e5, e6)
              | inr e6 ↦ elim (Bool-cases (starts_with (codes "BRDA:") line)) [
                | inl e7 ↦ rw (e1, h.no_kf, e2, e3, e4, e5, e6, e7)
                | inr e7 ↦ elim (Bool-cases (starts_with (codes "MCDC:") line)) [
                  | inl e8 ↦ rw (e1, h.no_kf, e2, e3, e4, e5, e6, e7, e8)
                  | inr e8 ↦ elim (Bool-cases (starts_with (codes "DA:") line)) [
                    | inl e9 ↦ rw (e1, h.no_kf, e2, e3, e4, e5, e6, e7, e8, e9)
                    | inr e9 ↦ elim (Bool-cases (starts_with_any summary_tags line)) [
                      | inl e10 ↦ rw (e1, h.no_kf, e2, e3, e4, e5, e6, e7, e8, e9, e10)
                      | inr e10 ↦
                          rw (e1, h.no_kf, e2, e3, e4, e5, e6, e7, e8, e9, e10) (last_agrees h)
                    ]
                  ]
                ]
              ]
            ]
          ]
        ]
      ]
    ]
  ]

bases-flush :
    (ss : List InputSection) (cur : Option InputSection)
    → bases (flush_into ss cur) ≡ Output.flush_into (bases ss) (base_of cur)
bases-flush ss none = refl
bases-flush ss (some s) = bases-append ss (s ∷ [])

module _ (line : Bytes) where
  comment_skipped :
      (ss : List InputSection) (cur : Option InputSection)
      → starts_with (codes "#") line ≡ true
      → Output.in_current (bases ss) (base_of cur) line
        ≡ record { sections = bases ss; current = base_of cur }
  comment_skipped ss none h = refl
  comment_skipped ss (some s) h = legacy_skipped ss s line (codes "#") h refl refl refl

  in_current-shared :
      (ss : List InputSection) (cur : Option InputSection)
      → IsCurrent line
      → shared (in_current ss cur line) ≡ Output.in_current (bases ss) (base_of cur) line
  in_current-shared ss none h = refl
  in_current-shared ss (some s) h = section_line-shared ss s line h

  step-shared : (st : State) → IsCurrent line → shared (step st line) ≡ Output.step (shared st) line
  unfolding step Output.step
  step-shared st h = elim (Bool-cases (starts_with (codes "#") line)) [
    | inl e ↦
        rw (e, starts_with-clash (codes "#") (codes "TN:") line refl e)
          (sym (comment_skipped st.sections st.current e))
    | inr e ↦ elim (Bool-cases (starts_with (codes "TN:") line)) [
      | inl f ↦ rw (e, f) (rw (bases-flush st.sections st.current))
      | inr f ↦ rw (e, f) (in_current-shared st.sections st.current h)
    ]
  ]

run-shared :
    (lines : List Bytes) (st : State)
    → All IsCurrent lines
    → shared (run st lines) ≡ Output.run (shared st) lines
unfolding run Output.run
run-shared [] st h = refl
run-shared (line ∷ lines) st h =
    run-shared lines (step st line) h.1 ∙ ap (λ x. Output.run x lines) (step-shared line st h.0)

-- On every text that has no KF record and no suffixed terminator, the reader of fixtures and the
-- reader of rewritten output find the same sections: as many, in order, with the same TN, SF, VER,
-- FNL, FNA, BRDA, MCDC, DA and summary fields, whatever comments, legacy and unknown records stand
-- between them.
pub parse_input-agrees :
    (text : Bytes)
    → All IsCurrent (byte_lines text)
    → bases (parse_input_semantic_model text) ≡ parse_tracefile_sections text
unfolding parse_input_semantic_model parse_tracefile_sections
parse_input-agrees text h =
    let st = run start (byte_lines text) in
    bases-flush st.sections st.current
    ∙ ap (λ x. Output.flush_into x.sections x.current) (run-shared (byte_lines text) start h)
