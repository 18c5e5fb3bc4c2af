-- ===== src/Benchmarks/Result.antt =====
-- `validate_result`.
pub mod Samples
pub mod Summaries
pub mod Accepted
use ferricov.Base.{
  ℕ, suc, zero, ◌+◌, ◌==◌, Bool, true, false, ◌&&◌, ◌||◌, not, List, [], ◌∷◌, ◌++◌, map, Option,
  none, some, Result, ok, err, ◌>>=◌, ◌>>◌, require, if◌then◌else◌, length, all,
}
use ferricov.Base.Bytes.{Bytes, codes, bytes_eq, mem}
use ferricov.Base.Dict.{get, put, dict_of}
use ferricov.Base.Sets.{keys_eq}
use ferricov.Base.Same.{Same, same, bytes_same, option_same, list_test}
use ferricov.Cases.Equality.{nat_same}
use ferricov.Benchmarks.Summary.{
  Metrics, Distribution, Summary, Error, self_test_manifest, duplicate_sample, unknown_case,
  suite_or_family_mismatch, identity_mismatch, outcome_mismatch, gap_in_sequence, case_set_mismatch,
  warmup_count_mismatch, measured_count_mismatch, family_mismatch, summary_mismatch, sort,
  expected_summary,
}
use ferricov.Benchmarks.Suite.{
  Artifact, Fixture, Case, Suite, Repository, artifact_path, validate_suite,
}

pub data Phase : Type 0 where
  warmup measured : Phase

abbrev pub is_measured : Phase → Bool
is_measured warmup = false
is_measured measured = true

pub record Sample : Type 0 where
  pub sample_id : Bytes
  pub suite_id : Bytes
  pub case_id : Bytes
  pub family : Bytes
  pub sequence : ℕ
  pub phase : Phase
  pub suite_sha256 : Bytes
  pub execution_manifest_sha256 : Bytes
  pub measurement_tool_sha256 : Bytes
  pub fixture_tree_sha256 : Option Bytes
  pub observed_image_sha256 : Bytes
  pub observed_executable_sha256 : Bytes
  pub exit_code : Option ℕ
  pub signal_number : Option ℕ
  pub outcome_matches_expected : Bool
  pub metrics : Metrics
  pub artifacts : List Artifact

pub record Manifest : Type 0 where
  pub scope : Bytes
  pub docker_image_id : Bytes
  pub executables : List (Bytes × Bytes)

pub record ResultCase : Type 0 where
  pub case_id : Bytes
  pub family : Bytes
  pub warmup_samples : ℕ
  pub measured_samples : ℕ
  pub summary : Summary

pub record Document : Type 0 where
  pub suite : Artifact
  pub execution_manifest : Artifact
  pub measurement_tool : Artifact
  pub raw_samples : List Artifact
  pub cases : List ResultCase

-- How the four documents are read. A manifest that is read is one that the manifests' own validator accepts.
pub record Readers : Type 0 where
  pub read_result : Bytes → Result Error Document
  pub read_suite : Bytes → Result Error Suite
  pub read_manifest : Bytes → Result Error Manifest
  pub read_sample : Bytes → Result Error Sample

-- What the loop over the raw samples has gathered.
pub record State : Type 0 where
  pub seen_ids : List Bytes
  pub sequences : List ℕ
  pub samples_by_case : List (Bytes × List Sample)

abbrev pub samples_of : Option (List Sample) → List Sample
samples_of none = []
samples_of (some samples) = samples

abbrev pub add_sample : State → Sample → State
add_sample st s = record {
  seen_ids = s.sample_id ∷ st.seen_ids;
  sequences = st.sequences ++ s.sequence ∷ [];
  samples_by_case =
      put s.case_id (samples_of (get s.case_id st.samples_by_case) ++ s ∷ []) st.samples_by_case;
}

abbrev pub expected_fixture : Option Fixture → Option Bytes
expected_fixture none = none
expected_fixture (some f) = some f.tree_sha256

unfoldable pub check_artifacts :
    (Bytes → Bytes) → (Bytes → Option Bytes) → List Artifact → Result Error (Unit {0})
check_artifacts hash root [] = ok tt
check_artifacts hash root (a ∷ rest) = do
  content ← artifact_path hash root a
  check_artifacts hash root rest

module _ (hash : Bytes → Bytes) (root : Bytes → Option Bytes) (document : Document) (suite : Suite)
    (manifest : Manifest) where
  abbrev pub check_sample : Sample → Option Case → Result Error (Unit {0})
  check_sample s none = err unknown_case
  check_sample s (some case) = do
    require (bytes_eq s.suite_id suite.suite_id && bytes_eq s.family case.family)
        suite_or_family_mismatch
    require (bytes_eq s.suite_sha256 document.suite.sha256) identity_mismatch
    require (bytes_eq s.execution_manifest_sha256 document.execution_manifest.sha256)
        identity_mismatch
    require (bytes_eq s.measurement_tool_sha256 document.measurement_tool.sha256) identity_mismatch
    require (same s.fixture_tree_sha256 (expected_fixture case.fixture)) identity_mismatch
    require (bytes_eq s.observed_image_sha256 manifest.docker_image_id) identity_mismatch
    require
        (same (some s.observed_executable_sha256) (get case.command (dict_of manifest.executables)))
        identity_mismatch
    require s.outcome_matches_expected outcome_mismatch
    require (same ⦃s = option_same ⦃s = nat_same⦄⦄ s.exit_code (some case.expected_exit_code))
        outcome_mismatch
    require (same ⦃s = option_same ⦃s = nat_same⦄⦄ s.signal_number none) outcome_mismatch
    check_artifacts hash root s.artifacts

  abbrev pub take_sample : List (Bytes × Case) → State → Sample → Result Error State
  take_sample contracts st s = do
    require (not (mem s.sample_id st.seen_ids)) duplicate_sample
    check_sample s (get s.case_id contracts)
    ok (add_sample st s)

  unfoldable pub take_all :
      (Bytes → Result Error Sample)
      → List (Bytes × Case)
      → State
      → List Artifact
      → Result Error State
  unfolding check_artifacts
  take_all read contracts st [] = ok st
  take_all read contracts st (a ∷ rest) = do
    content ← artifact_path hash root a
    s ← read content
    next ← take_sample contracts st s
    take_all read contracts next rest

unfoldable pub only : (Phase → Bool) → List Sample → List Sample
only p [] = []
only p (s ∷ samples) = if p s.phase then s ∷ only p samples else only p samples

abbrev pub distribution_eq : Distribution → Distribution → Bool
distribution_eq d e =
    (d.minimum == e.minimum) && ((d.median == e.median) && (d.maximum == e.maximum))

abbrev pub summary_eq : Summary → Summary → Bool
summary_eq s t =
    (s.measured_samples == t.measured_samples)
    && (distribution_eq s.wall_time_ns t.wall_time_ns
        && (distribution_eq s.user_cpu_time_ns t.user_cpu_time_ns
            && (distribution_eq s.system_cpu_time_ns t.system_cpu_time_ns
                && (distribution_eq s.peak_rss_bytes t.peak_rss_bytes
                    && ((s.output_bytes == t.output_bytes)
                        && (s.output_files == t.output_files))))))

abbrev pub metrics_of : List Sample → List Metrics
metrics_of samples = map (λ (s : Sample). s.metrics) samples

abbrev pub check_result_case : Case → List Sample → Option ResultCase → Result Error (Unit {0})
check_result_case c samples none = err case_set_mismatch
check_result_case c samples (some r) = do
  let warm = only (λ p. not (is_measured p)) samples
  let taken = only is_measured samples
  require (length warm == c.warmup_runs) warmup_count_mismatch
  require (length taken == c.measured_runs) measured_count_mismatch
  require (bytes_eq r.family c.family) family_mismatch
  require (r.warmup_samples == length warm) warmup_count_mismatch
  require (r.measured_samples == length taken) measured_count_mismatch
  expected ← expected_summary (metrics_of taken)
  require (summary_eq r.summary expected) summary_mismatch

unfoldable pub check_result_cases :
    List (Bytes × List Sample)
    → List (Bytes × ResultCase)
    → List (Bytes × Case)
    → Result Error (Unit {0})
unfolding only expected_summary
check_result_cases by_case results [] = ok tt
check_result_cases by_case results ((id, c) ∷ contracts) =
    check_result_case c (samples_of (get id by_case)) (get id results)
    >> check_result_cases by_case results contracts

-- list(range(n)), from a start
abbrev pub range : ℕ → ℕ → List ℕ
range start zero = []
range start (suc n) = start ∷ range (suc start) n

abbrev pub cases_by_id : Suite → List (Bytes × Case)
cases_by_id suite = dict_of (map (λ (c : Case). (c.id, c)) suite.cases)

abbrev pub results_by_id : Document → List (Bytes × ResultCase)
results_by_id document = dict_of (map (λ (r : ResultCase). (r.case_id, r)) document.cases)

abbrev pub empty_state : List (Bytes × Case) → State
empty_state contracts = record {
  seen_ids = [];
  sequences = [];
  samples_by_case = map (λ item. (item.0, [])) contracts;
}

-- The result's own directory is the root of its samples.
unfoldable pub validate_result :
    Repository → Readers → (Bytes → Option Bytes) → Bytes → Result Error Document
unfolding artifact_path validate_suite take_all check_result_cases
validate_result r readers root bytes = do
  document ← readers.read_result bytes
  suite_content ← artifact_path r.hash r.file document.suite
  suite ← validate_suite r readers.read_suite suite_content
  manifest_content ← artifact_path r.hash r.file document.execution_manifest
  manifest ← readers.read_manifest manifest_content
  require (not (bytes_eq manifest.scope (codes "harness_self_test"))) self_test_manifest
  tool ← artifact_path r.hash r.file document.measurement_tool
  let contracts = cases_by_id suite
  st ←
      take_all r.hash root document suite manifest readers.read_sample contracts
        (empty_state contracts) document.raw_samples
  require (list_test ⦃s = nat_same⦄ (sort st.sequences) (range 0 (length st.sequences)))
      gap_in_sequence
  require (keys_eq (results_by_id document) contracts) case_set_mismatch
  check_result_cases st.samples_by_case (results_by_id document) contracts
  ok document
