-- ===== src/Tracefile/Stderr/Reads.antt =====
-- What `validate_semantic_stderr` accepts, and what it does not see.
use ferricov.Base.{
  ◌≡◌, refl, sym, ap, ◌∙◌, subst, Bool, true, false, List, [], ◌∷◌, ◌++◌, append_assoc, append-nil,
  ℕ, Option, none, some, Result, ok, err, require, >>=-eq-ok, require-eq-ok, map, if◌then◌else◌,
  Bool-cases, Option-cases, inl, inr,
}
use ferricov.Base.{map-append}
use ferricov.Base.Bytes.{Bytes, codes, starts_with}
use ferricov.Base.Same.{same, same→eq, bytes_same, pair_same, list_same}
use ferricov.Tracefile.Stderr

-- Whether a line is neither empty nor a continuation.
abbrev pub is_solid : Bytes → Bool
is_solid [] = false
is_solid (c ∷ s) = if starts_with (codes "\t") (c ∷ s) then false else true

abbrev pub solid : List Bytes → List Bytes
solid [] = []
solid (l ∷ ls) = if is_solid l then l ∷ solid ls else solid ls

-- One line adds its diagnostic, when it is solid; a line that is not leaves the state as it is.
read-tab :
    (st next : Stderr.State) (c : ℕ) (s : Bytes)
    → starts_with (codes "\t") (c ∷ s) ≡ true
    → Stderr.read st (c ∷ s) ≡ ok next
    → (st.previous_was_header ≡ true) × (next ≡ st)
unfolding Stderr.read
read-tab st next c s tab h = elim (Bool-cases st.previous_was_header) [
  | inl yes' ↦ (yes', tabbed yes')
  | inr no' ↦ absurd (refused no')
]
  where
    branch : Bool → Bool → Result Stderr.Error Stderr.State
    branch a b =
        if a
        then (if b then ok st else err Stderr.orphan)
        else Stderr.classified st (Stderr.header (c ∷ s))

    tabbed : st.previous_was_header ≡ true → next ≡ st
    tabbed y =
        let e = subst (λ a. branch a st.previous_was_header ≡ ok next) tab h in
        let e' = subst (λ b. branch true b ≡ ok next) y e in cc

    refused : st.previous_was_header ≡ false → ⊥
    refused n =
        let e = subst (λ a. branch a st.previous_was_header ≡ ok next) tab h in
        let e' = subst (λ b. branch true b ≡ ok next) n e in cc

read-header :
    (st next : Stderr.State) (c : ℕ) (s : Bytes)
    → starts_with (codes "\t") (c ∷ s) ≡ false
    → Stderr.read st (c ∷ s) ≡ ok next
    → (d : Stderr.Diagnostic) × (Stderr.header (c ∷ s) ≡ some d)
      × (next ≡ record { actual = st.actual ++ d ∷ []; previous_was_header = true })
unfolding Stderr.read
read-header st next c s solid' h = elim (Option-cases (Stderr.header (c ∷ s))) [
  | inl none' ↦ absurd (refused none')
  | inr (d, e) ↦ (d, e, found d e)
]
  where
    branch : Bool → Option Stderr.Diagnostic → Result Stderr.Error Stderr.State
    branch a o =
        if a
        then (if st.previous_was_header then ok st else err Stderr.orphan)
        else Stderr.classified st o

    kept : (o : Option Stderr.Diagnostic) → Stderr.header (c ∷ s) ≡ o → branch false o ≡ ok next
    kept o e =
        subst (λ o. branch false o ≡ ok next) e
          (subst (λ a. branch a (Stderr.header (c ∷ s)) ≡ ok next) solid' h)

    refused : Stderr.header (c ∷ s) ≡ none → ⊥
    refused e = let h' = kept none e in cc

    found :
        (d : Stderr.Diagnostic)
        → Stderr.header (c ∷ s) ≡ some d
        → next ≡ record { actual = st.actual ++ d ∷ []; previous_was_header = true }
    found d e = let h' = kept (some d) e in cc

read_all-solid :
    (lines : List Bytes) (st last : Stderr.State)
    → Stderr.read_all st lines ≡ ok last
    → map some last.actual ≡ map some st.actual ++ map Stderr.header (solid lines)
unfolding Stderr.read_all Stderr.read
read_all-solid [] st last h =
    let e : st ≡ last = (cc) in
    ap (λ t. map some t.actual) (sym e) ∙ sym (append-nil (map some st.actual))
read_all-solid ([] ∷ lines) st last h = read_all-solid lines st last h
read_all-solid ((c ∷ s) ∷ lines) st last h =
    let (next, first, later) =
      >>=-eq-ok (Stderr.read st (c ∷ s)) (λ next. Stderr.read_all next lines) h in
    elim (Bool-cases (starts_with (codes "\t") (c ∷ s))) [
      | inl tab ↦
          let (_, same') = read-tab st next c s tab first in
          rw tab (
            read_all-solid lines next last later
            ∙ ap (λ t. map some t.actual ++ map Stderr.header (solid lines)) same')
      | inr solid' ↦
          let (d, found, added) = read-header st next c s solid' first in
          rw (solid', found)
            (read_all-solid lines next last later
              ∙ ap (λ t. map some t.actual ++ map Stderr.header (solid lines)) added
              ∙ ap (λ ds. ds ++ map Stderr.header (solid lines))
                  (map-append some st.actual (d ∷ []))
              ∙ append_assoc (map some st.actual) (some d ∷ []) (map Stderr.header (solid lines)))
    ]

-- When `validate_semantic_stderr` accepts the lines, the lines that are neither empty nor start with a tab are
-- all diagnostics, and their levels and kinds are those of the policy in order.
pub validate_semantic_stderr-solid :
    (policy : Option (List Stderr.Diagnostic)) (lines : List Bytes)
    → Stderr.validate_semantic_stderr policy lines ≡ ok tt
    → (expected : List Stderr.Diagnostic) × (policy ≡ some expected)
      × (map Stderr.header (solid lines) ≡ map some expected)
unfolding Stderr.validate_semantic_stderr
validate_semantic_stderr-solid none lines h = cc
validate_semantic_stderr-solid (some expected) lines h =
    let (st, e, h1) =
      >>=-eq-ok (Stderr.read_all Stderr.start lines)
        (λ st. require (same st.actual expected) Stderr.policy_drift) h in
    (
      expected,
      refl,
      sym (read_all-solid lines Stderr.start st e)
          ∙ ap (map some) (
              same→eq st.actual expected
                (require-eq-ok (same st.actual expected) Stderr.policy_drift h1)),
    )
