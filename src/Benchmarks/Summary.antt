-- ===== src/Benchmarks/Summary.antt =====
-- `_distribution` and `_expected_summary`. The metrics are natural numbers, as their schema has them.
pub mod Counts
pub mod Median
use ferricov.Base.{
  ℕ, zero, suc, ◌-◌, ◌/◌, ◌==◌, ltb, Bool, true, false, ◌&&◌, ◌||◌, not, List, [], ◌∷◌, map, Option,
  none, some, Result, ok, err, ◌>>=◌, ◌>>◌, require, if◌then◌else◌, length, all,
}
use ferricov.Base.Bytes.{Bytes}

pub record Metrics : Type 0 where
  pub wall_time_ns : ℕ
  pub user_cpu_time_ns : ℕ
  pub system_cpu_time_ns : ℕ
  pub peak_rss_bytes : ℕ
  pub output_bytes : ℕ
  pub output_files : ℕ

pub record Distribution : Type 0 where
  pub minimum : ℕ
  pub median : ℕ
  pub maximum : ℕ

pub record Summary : Type 0 where
  pub measured_samples : ℕ
  pub wall_time_ns : Distribution
  pub user_cpu_time_ns : Distribution
  pub system_cpu_time_ns : Distribution
  pub peak_rss_bytes : Distribution
  pub output_bytes : ℕ
  pub output_files : ℕ

-- An IndexError of an empty list is one of the errors.
pub data Error : Type 0 where
  unsafe_path missing_file size_mismatch hash_mismatch unreadable_document : Error
  duplicate_case even_runs unsorted_entries not_public fixture_missing fixture_hash_mismatch : Error
  missing_families self_test_manifest duplicate_sample unknown_case suite_or_family_mismatch : Error
  identity_mismatch outcome_mismatch gap_in_sequence case_set_mismatch warmup_count_mismatch : Error
  measured_count_mismatch family_mismatch summary_mismatch unstable_output index_error : Error

-- `sorted`, on numbers
unfoldable pub insert : ℕ → List ℕ → List ℕ
insert n [] = n ∷ []
insert n (m ∷ ms) = if ltb m n then m ∷ insert n ms else n ∷ m ∷ ms

unfoldable pub sort : List ℕ → List ℕ
unfolding insert
sort [] = []
sort (n ∷ ns) = insert n (sort ns)

-- values[index]
unfoldable pub nth : List ℕ → ℕ → Result Error ℕ
nth [] i = err index_error
nth (n ∷ ns) zero = ok n
nth (n ∷ ns) (suc i) = nth ns i

-- The last of n values is at n - 1.
abbrev pub distribution_of : List ℕ → Result Error Distribution
distribution_of values = do
  minimum ← nth values 0
  median ← nth values (length values / 2)
  maximum ← nth values (length values - 1)
  ok (record { minimum = minimum; median = median; maximum = maximum })

unfoldable pub distribution : List ℕ → Result Error Distribution
unfolding sort nth
distribution values = distribution_of (sort values)

-- `len({...}) == 1`: a value, and no other
unfoldable pub only_value : List ℕ → Result Error ℕ
only_value [] = err unstable_output
only_value (n ∷ ns) = require (all (λ m. m == n) ns) unstable_output >> ok n

unfoldable pub expected_summary : List Metrics → Result Error Summary
unfolding distribution only_value
expected_summary samples = do
  output_bytes ← only_value (map (λ (m : Metrics). m.output_bytes) samples)
  output_files ← only_value (map (λ (m : Metrics). m.output_files) samples)
  wall ← distribution (map (λ (m : Metrics). m.wall_time_ns) samples)
  user ← distribution (map (λ (m : Metrics). m.user_cpu_time_ns) samples)
  system ← distribution (map (λ (m : Metrics). m.system_cpu_time_ns) samples)
  peak ← distribution (map (λ (m : Metrics). m.peak_rss_bytes) samples)
  ok (record {
    measured_samples = length samples;
    wall_time_ns = wall;
    user_cpu_time_ns = user;
    system_cpu_time_ns = system;
    peak_rss_bytes = peak;
    output_bytes = output_bytes;
    output_files = output_files;
  })
