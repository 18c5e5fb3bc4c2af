-- ===== src/Benchmarks/Result/Samples.antt =====
-- The samples that the loop of `validate_result` gathers, case by case.
use ferricov.Base.{
  ◌≡◌, refl, sym, ap, ◌∙◌, not, List, [], ◌∷◌, ◌++◌, map, append-nil, append_assoc, Option, Result,
  ok, ◌>>=◌, require, if◌then◌else◌, arith, Bool-cases, inl, inr, ok_injective, >>=-eq-ok, >>-eq-ok,
}
use ferricov.Base.Bytes.{Bytes, bytes_eq, bytes_eq→eq, mem}
use ferricov.Base.Dict.{get, get-put}
use ferricov.Benchmarks.Summary.{Error, duplicate_sample}
use ferricov.Benchmarks.Suite.{Artifact, Case, Suite, artifact_path}
use ferricov.Benchmarks.Result.{
  Sample, Manifest, Document, State, samples_of, add_sample, check_sample, take_all, empty_state,
}

-- The samples that the artifacts hold.
pub read_samples :
    (Bytes → Bytes)
    → (Bytes → Option Bytes)
    → (Bytes → Result Error Sample)
    → List Artifact
    → Result Error (List Sample)
read_samples hash root read [] = ok []
read_samples hash root read (a ∷ rest) = do
  content ← artifact_path hash root a
  s ← read content
  samples ← read_samples hash root read rest
  ok (s ∷ samples)

-- Those of a case.
pub of_case : Bytes → List Sample → List Sample
of_case id [] = []
of_case id (s ∷ samples) =
    if bytes_eq s.case_id id then s ∷ of_case id samples else of_case id samples

abbrev gathered : Bytes → State → List Sample
gathered id st = samples_of (get id st.samples_by_case)

gathered-add_sample :
    (id : Bytes) (st : State) (s : Sample) (rest : List Sample)
    → gathered id (add_sample st s) ++ of_case id rest ≡ gathered id st ++ of_case id (s ∷ rest)
unfolding of_case
gathered-add_sample id st s rest =
    let here = samples_of (get s.case_id st.samples_by_case) ++ s ∷ [] in
    elim (Bool-cases (bytes_eq s.case_id id)) [
      | inl same ↦ rw (get-put s.case_id id here st.samples_by_case) (
          rw same (
            ap (λ l. (l ++ s ∷ []) ++ of_case id rest)
              (ap (λ j. gathered j st) (bytes_eq→eq s.case_id id same))
            ∙ append_assoc (gathered id st) (s ∷ []) (of_case id rest)))
      | inr other ↦ rw (get-put s.case_id id here st.samples_by_case) (rw other refl)
    ]

read_samples-cons :
    (hash : Bytes → Bytes) (root : Bytes → Option Bytes) (read : Bytes → Result Error Sample)
    (a : Artifact) (rest : List Artifact) {content : Bytes} {s : Sample} {samples : List Sample}
    → artifact_path hash root a ≡ ok content
    → read content ≡ ok s
    → read_samples hash root read rest ≡ ok samples
    → read_samples hash root read (a ∷ rest) ≡ ok (s ∷ samples)
unfolding read_samples
read_samples-cons hash root read a rest found decoded others = rw (found, decoded, others) refl

module _ (hash : Bytes → Bytes) (root : Bytes → Option Bytes) (document : Document) (suite : Suite)
    (manifest : Manifest) (read : Bytes → Result Error Sample)
    (contracts : List (Bytes × Case)) where
  pub take_all-gathers :
      (arts : List Artifact) (st : State) {last : State}
      → take_all hash root document suite manifest read contracts st arts ≡ ok last
      → (samples : List Sample) × (read_samples hash root read arts ≡ ok samples)
        × (last.sequences ≡ st.sequences ++ map (λ (s : Sample). s.sequence) samples)
        × ((id : Bytes) → gathered id last ≡ gathered id st ++ of_case id samples)
  unfolding take_all read_samples of_case
  take_all-gathers [] st {last} h =
      let same : last ≡ st = cc in
      (
        [],
        refl,
        ap (λ (l : State). l.sequences) same ∙ sym (append-nil st.sequences),
        λ id. ap (gathered id) same ∙ sym (append-nil (gathered id st)),
      )
  take_all-gathers (a ∷ rest) st {last} h =
      let (content, found, h1) = >>=-eq-ok (artifact_path hash root a) _ h in
      let (s, decoded, h2) = >>=-eq-ok (read content) _ h1 in
      let (next, taken, h3) = >>=-eq-ok _ _ h2 in
      let (_, h4) =
        >>-eq-ok (require (not (mem s.sample_id st.seen_ids)) duplicate_sample) _ taken in
      let (_, h5) =
        >>-eq-ok (check_sample hash root document suite manifest s (get s.case_id contracts)) _
          h4 in
      let added = sym (ok_injective h5) in
      let (samples, others, numbers, kept) = take_all-gathers rest next h3 in
      (
        s ∷ samples,
        read_samples-cons hash root read a rest found decoded others,
        numbers
            ∙ (ap (λ (n : State). n.sequences ++ map (λ (t : Sample). t.sequence) samples) added
                ∙ append_assoc st.sequences (s.sequence ∷ [])
                    (map (λ (t : Sample). t.sequence) samples)),
        λ id.
            kept id
            ∙ (ap (λ n. gathered id n ++ of_case id samples) added
                ∙ gathered-add_sample id st s samples),
      )

pub gathered-empty_state :
    (id : Bytes) (contracts : List (Bytes × Case)) → gathered id (empty_state contracts) ≡ []
unfolding get
gathered-empty_state id [] = refl
gathered-empty_state id ((j, c) ∷ contracts) = ground (arith, gathered-empty_state id contracts)
