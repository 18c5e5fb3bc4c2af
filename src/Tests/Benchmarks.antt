-- ===== src/Tests/Benchmarks.antt =====
-- A small benchmark result, for compat/benchmarks/validate.py.
use ferricov.Base.{
  ℕ, ◌≡◌, refl, arith, true, List, [], ◌∷◌, map, length, Option, none, some, Result, ok, err,
}
use ferricov.Base.Bytes.{Bytes, codes, split}
use ferricov.Base.Dict.{sorted, get, put, put_all}
use ferricov.Benchmarks.Summary.{Metrics, Distribution, Error, unreadable_document, distribution}
use ferricov.Benchmarks.Summary.Median.{Describes, distribution-Describes}
use ferricov.Benchmarks.Suite.{Artifact, Case, Suite, Repository}
use ferricov.Benchmarks.Result.{measured, Sample, ResultCase, Document, Readers, validate_result}
use ferricov.Benchmarks.Result.Accepted.{Said, validate_result-IsSummarised}
use ferricov.Correctness.Path.{safe_relative_path, parts, join}
use ferricov.Base.Same.{list_test}
use ferricov.Base.Sets.{subset, set_eq}

distribution-Describes_example :
    (d : Distribution) × (distribution (7 ∷ 3 ∷ 9 ∷ []) ≡ ok d) × Describes (7 ∷ 3 ∷ 9 ∷ []) d
distribution-Describes_example = distribution-Describes (7 ∷ 3 ∷ 9 ∷ []) (omega arith)

-- A file whose content is its name, hashed by itself.
abbrev file : Bytes → Artifact
file name = record { path = name; sha256 = name; bytes = length name }

abbrev case : Bytes → ℕ → Case
case family runs = record {
  id = family;
  family = family;
  command = codes "lcov";
  warmup_runs = 0;
  measured_runs = runs;
  expected_exit_code = 0;
  inventory_entries = codes "command.lcov" ∷ [];
  fixture = none;
}

abbrev startup : Bytes
startup = codes "startup"

abbrev suite : Suite
suite = record {
  suite_id = codes "m0";
  measurement_tool = record { path = codes "tool"; sha256 = codes "tool" };
  cases =
      case startup 3
      ∷ case (codes "tracefile") 1
      ∷ case (codes "operation") 1
      ∷ case (codes "report") 1
      ∷ [];
}

abbrev metrics : ℕ → Metrics
metrics wall = record {
  wall_time_ns = wall;
  user_cpu_time_ns = 2;
  system_cpu_time_ns = 1;
  peak_rss_bytes = 64;
  output_bytes = 5;
  output_files = 1;
}

abbrev sample : Bytes → Bytes → ℕ → ℕ → Sample
sample name family sequence wall = record {
  sample_id = name;
  suite_id = codes "m0";
  case_id = family;
  family = family;
  sequence = sequence;
  phase = measured;
  suite_sha256 = codes "suite";
  execution_manifest_sha256 = codes "manifest";
  measurement_tool_sha256 = codes "tool";
  fixture_tree_sha256 = none;
  observed_image_sha256 = codes "image";
  observed_executable_sha256 = codes "lcov";
  exit_code = some 0;
  signal_number = none;
  outcome_matches_expected = true;
  metrics = metrics wall;
  artifacts = [];
}

abbrev samples : List (Bytes × Sample)
samples =
    (codes "a", sample (codes "a") startup 2 7)
    ∷ (codes "b", sample (codes "b") startup 0 3)
    ∷ (codes "c", sample (codes "c") startup 1 9)
    ∷ (codes "d", sample (codes "d") (codes "tracefile") 3 4)
    ∷ (codes "e", sample (codes "e") (codes "operation") 4 4)
    ∷ (codes "f", sample (codes "f") (codes "report") 5 4)
    ∷ []

abbrev same_value : ℕ → Distribution
same_value n = record { minimum = n; median = n; maximum = n }

abbrev result_case : Bytes → ℕ → Distribution → ResultCase
result_case family runs wall = record {
  case_id = family;
  family = family;
  warmup_samples = 0;
  measured_samples = runs;
  summary = record {
    measured_samples = runs;
    wall_time_ns = wall;
    user_cpu_time_ns = same_value 2;
    system_cpu_time_ns = same_value 1;
    peak_rss_bytes = same_value 64;
    output_bytes = 5;
    output_files = 1;
  };
}

abbrev document : Document
document = record {
  suite = file (codes "suite");
  execution_manifest = file (codes "manifest");
  measurement_tool = file (codes "tool");
  raw_samples = map (λ item. file item.0) samples;
  cases =
      result_case startup 3 (record { minimum = 3; median = 7; maximum = 9 })
      ∷ result_case (codes "tracefile") 1 (same_value 4)
      ∷ result_case (codes "operation") 1 (same_value 4)
      ∷ result_case (codes "report") 1 (same_value 4)
      ∷ [];
}

abbrev found_sample : Option Sample → Result Error Sample
found_sample none = err unreadable_document
found_sample (some s) = ok s

abbrev readers : Readers
readers = record {
  read_result = λ content. ok document;
  read_suite = λ content. ok suite;
  read_manifest = λ content. ok (record {
    scope = codes "baseline";
    docker_image_id = codes "image";
    executables = (codes "lcov", codes "lcov") ∷ [];
  });
  read_sample = λ content. found_sample (get content samples);
}

abbrev repository : Repository
repository = record {
  file = λ path. some path;
  tree = λ path. none;
  hash = λ content. content;
  inventory = (codes "command.lcov", some (codes "public")) ∷ [];
}

accepted : validate_result repository readers (λ path. some path) (codes "result") ≡ ok document
unfolding validate_result safe_relative_path parts split join list_test sorted get subset put_all
    put set_eq
accepted = refl

validate_result-IsSummarised_example : Said repository readers (λ path. some path) document
validate_result-IsSummarised_example =
    validate_result-IsSummarised repository readers (λ path. some path) (codes "result") accepted
