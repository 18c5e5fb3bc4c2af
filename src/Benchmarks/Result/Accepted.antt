-- ===== src/Benchmarks/Result/Accepted.antt =====
-- What an accepted benchmark result says of every case of its suite.
use ferricov.Base.{
  ℕ, ◌%◌, ◌==◌, ◌≡◌, ap, ◌∙◌, subst, true, not, List, [], ◌∷◌, ◌++◌, map, Option, some, Result, ok,
  require, arith, All, length, Bool-cases, inl, inr, ok_injective, >>=-eq-ok, >>-eq-ok,
  require-eq-ok,
}
use ferricov.Base.Bytes.{Bytes, bytes_eq, bytes_eq→eq, mem}
use ferricov.Base.Dict.{get}
use ferricov.Base.Dict.Items.{get-put_all}
use ferricov.Base.Sets.{subset}
use ferricov.Base.Same.{list_test, list→eq}
use ferricov.Cases.Equality.{nat_same}
use ferricov.Benchmarks.Summary.{
  Error, sort, duplicate_case, even_runs, unsafe_path, missing_families, self_test_manifest,
  gap_in_sequence, case_set_mismatch,
}
use ferricov.Benchmarks.Suite
use ferricov.Benchmarks.Suite.{
  Artifact, Case, Suite, Repository, artifact_path, check_tool, validate_suite, required_families,
}
use ferricov.Benchmarks.Result.{
  Sample, Document, ResultCase, Readers, samples_of, take_all, empty_state, check_result_case,
  check_result_cases, range, cases_by_id, results_by_id, validate_result,
}
use ferricov.Benchmarks.Result.Samples.{
  read_samples, of_case, take_all-gathers, gathered-empty_state,
}
use ferricov.Benchmarks.Result.Summaries.{IsSummarised, check_result_case-IsSummarised}

odd_of : (n : ℕ) → not (n % 2 == 0) ≡ true → n % 2 ≡ 1
odd_of n h = ground arith

abbrev IsOdd : Case → Type 0
IsOdd c = c.measured_runs % 2 ≡ 1

check_cases-IsOdd :
    (r : Repository) (ids : List Bytes) (cs : List Case) {families : List Bytes}
    → Suite.check_cases r ids cs ≡ ok families
    → All IsOdd cs
unfolding Suite.check_cases
check_cases-IsOdd r ids [] h = tt
check_cases-IsOdd r ids (c ∷ cs) h =
    let (checked, k1) = >>-eq-ok (Suite.check_case r ids c) _ h in
    let (families, rest, _) = >>=-eq-ok (Suite.check_cases r (c.id ∷ ids) cs) _ k1 in
    let (_, k2) = >>-eq-ok (require (not (mem c.id ids)) duplicate_case) _ checked in
    let (odd, _) = >>-eq-ok (require (not (c.measured_runs % 2 == 0)) even_runs) _ k2 in
    (
      odd_of c.measured_runs (require-eq-ok (not (c.measured_runs % 2 == 0)) even_runs odd),
      check_cases-IsOdd r (c.id ∷ ids) cs rest,
    )

validate_suite-IsOdd :
    (r : Repository) (read : Bytes → Result Error Suite) (content : Bytes) {suite : Suite}
    → validate_suite r read content ≡ ok suite
    → All IsOdd suite.cases
unfolding validate_suite
validate_suite-IsOdd r read content {suite} h =
    let (found, _, k1) = >>=-eq-ok (read content) _ h in
    let (_, k2) = >>-eq-ok (require _ unsafe_path) _ k1 in
    let (_, k3) =
      >>-eq-ok (check_tool r found.measurement_tool (r.file found.measurement_tool.path)) _ k2 in
    let (families, checked, k4) = >>=-eq-ok (Suite.check_cases r [] found.cases) _ k3 in
    let (_, k5) = >>-eq-ok (require (subset required_families families) missing_families) _ k4 in
    subst (λ (s : Suite). All IsOdd s.cases) (ok_injective k5)
      (check_cases-IsOdd r [] found.cases checked)

items-IsOdd :
    (cs : List Case)
    → All IsOdd cs
    → All (λ (item : Bytes × Case). IsOdd item.1) (map (λ (c : Case). (c.id, c)) cs)
items-IsOdd [] h = tt
items-IsOdd (c ∷ cs) (o, h) = (o, items-IsOdd cs h)

none_there : (j : Bytes) (c : Case) → get j [] ≡ some c → IsOdd c
unfolding get
none_there j c h = cc

check_result_cases-found :
    (by_case : List (Bytes × List Sample)) (results : List (Bytes × ResultCase))
    (contracts : List (Bytes × Case)) (id : Bytes) {c : Case}
    → check_result_cases by_case results contracts ≡ ok tt
    → get id contracts ≡ some c
    → check_result_case c (samples_of (get id by_case)) (get id results) ≡ ok tt
unfolding check_result_cases get
check_result_cases-found by_case results [] id h found = cc
check_result_cases-found by_case results ((j, d) ∷ contracts) id {c} h found =
    let (first, others) =
      >>-eq-ok (check_result_case d (samples_of (get j by_case)) (get j results)) _ h in
    elim (Bool-cases (bytes_eq j id)) [
      | inl here ↦
          let same_case : some d ≡ some c = rw here at found in
          let e : d ≡ c = cc in
          subst (λ i. check_result_case c (samples_of (get i by_case)) (get i results) ≡ ok tt)
            (bytes_eq→eq j id here)
            (subst (λ k. check_result_case k (samples_of (get j by_case)) (get j results) ≡ ok tt) e
              first)
      | inr there ↦ check_result_cases-found by_case results contracts id others (rw there at found)
    ]

-- What is said of a result, of the suite that it names and of the samples that it holds.
abbrev pub Said : Repository → Readers → (Bytes → Option Bytes) → Document → Type 0
Said r readers root document =
    (content : Bytes) × (suite : Suite) × (samples : List Sample) × (artifact_path r.hash r.file
        document.suite
      ≡ ok content)
    × (validate_suite r readers.read_suite content ≡ ok suite)
    × (sort (map (λ (s : Sample). s.sequence) samples)
        ≡ range 0 (length (map (λ (s : Sample). s.sequence) samples)))
    × (read_samples r.hash root readers.read_sample document.raw_samples ≡ ok samples)
    × ((id : Bytes) (c : Case)
        → get id (cases_by_id suite) ≡ some c
        → (record_of : ResultCase) × (get id (results_by_id document) ≡ some record_of)
          × IsSummarised c (of_case id samples) record_of)

-- When validate_result accepts a result, its suite artifact is there and is a suite that validate_suite accepts,
-- its sample artifacts are there and hold samples, and the sequence numbers of the samples are 0, 1, … in some
-- order. For the case of every id in the suite the result has a record. The measured samples of the case are as
-- many as the suite says, which is an odd number, and the warmup samples are as many as it says. The record's
-- summary has their number, the minimum, median and maximum of the measured times and of the peak memory, and the
-- output size and file count that all of them have.
pub validate_result-IsSummarised :
    (r : Repository) (readers : Readers) (root : Bytes → Option Bytes) (bytes : Bytes)
    {document : Document}
    → validate_result r readers root bytes ≡ ok document
    → Said r readers root document
unfolding validate_result get
validate_result-IsSummarised r readers root bytes {document} h =
    let (found, _, k1) = >>=-eq-ok (readers.read_result bytes) _ h in
    let (suite_content, at_suite, k2) = >>=-eq-ok (artifact_path r.hash r.file found.suite) _ k1 in
    let (suite, valid, k3) = >>=-eq-ok (validate_suite r readers.read_suite suite_content) _ k2 in
    let (manifest_content, _, k4) =
      >>=-eq-ok (artifact_path r.hash r.file found.execution_manifest) _ k3 in
    let (manifest, _, k5) = >>=-eq-ok (readers.read_manifest manifest_content) _ k4 in
    let (_, k6) = >>-eq-ok (require _ self_test_manifest) _ k5 in
    let (tool, _, k7) = >>=-eq-ok (artifact_path r.hash r.file found.measurement_tool) _ k6 in
    let contracts = cases_by_id suite in
    let (st, taken, k8) =
      >>=-eq-ok
        (take_all r.hash root found suite manifest readers.read_sample contracts
          (empty_state contracts) found.raw_samples)
        _ k7 in
    let (sequence, k9) =
      >>-eq-ok
        (require (list_test ⦃s = nat_same⦄ (sort st.sequences) (range 0 (length st.sequences)))
          gap_in_sequence)
        _ k8 in
    let (_, k10) = >>-eq-ok (require _ case_set_mismatch) _ k9 in
    let (checked, k11) =
      >>-eq-ok (check_result_cases st.samples_by_case (results_by_id found) contracts) _ k10 in
    let (samples, gathered, numbers, kept) =
      take_all-gathers r.hash root found suite manifest readers.read_sample contracts
        found.raw_samples (empty_state contracts) taken in
    let odds =
      items-IsOdd suite.cases (validate_suite-IsOdd r readers.read_suite suite_content valid) in
    let same = ok_injective k11 in
    subst (λ (d : Document). Said r readers root d) same
      (
        suite_content,
        suite,
        samples,
        at_suite,
        valid,
        subst (λ ns. sort ns ≡ range 0 (length ns)) numbers
            (list→eq ⦃s = nat_same⦄ (sort st.sequences) (range 0 (length st.sequences)) (
              require-eq-ok
                (list_test ⦃s = nat_same⦄ (sort st.sequences) (range 0 (length st.sequences)))
                gap_in_sequence sequence)),
        gathered,
        λ id c there.
            check_result_case-IsSummarised c (of_case id samples) (get id (results_by_id found))
              (get-put_all (λ _ c. IsOdd c) (map (λ (c : Case). (c.id, c)) suite.cases) [] id odds
                none_there there)
              (subst (λ l. check_result_case c l (get id (results_by_id found)) ≡ ok tt)
                (kept id ∙ ap (λ l. l ++ of_case id samples) (gathered-empty_state id contracts))
                (check_result_cases-found st.samples_by_case (results_by_id found) contracts id
                  checked there)),
      )
