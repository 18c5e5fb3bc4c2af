-- ===== src/Benchmarks/Result/Summaries.antt =====
-- The summary of a case's measured samples.
use ferricov.Base.{
  ℕ, ◌%◌, ◌<◌, ◌==◌, ◌≡◌, refl, sym, ap, subst, true, not, List, [], ◌∷◌, map, Option, none, some,
  ok, require, arith, all, All, length, ok_injective, >>=-eq-ok, >>-eq-ok, require-eq-ok, ==→eq,
}
use ferricov.Base.Bytes.{bytes_eq}
use ferricov.Base.Sets.{both}
use ferricov.Benchmarks.Summary.{
  Metrics, Distribution, Summary, distribution, only_value, expected_summary, unstable_output,
  warmup_count_mismatch, measured_count_mismatch, family_mismatch, summary_mismatch,
}
use ferricov.Benchmarks.Summary.Median.{Describes, distribution-Describes}
use ferricov.Benchmarks.Suite.{Case}
use ferricov.Benchmarks.Result.{
  Sample, ResultCase, is_measured, only, metrics_of, distribution_eq, summary_eq, check_result_case,
}

pub record IsSummary (samples : List Metrics) (s : Summary) : Type 0 where
  pub counted : s.measured_samples ≡ length samples
  pub wall : Describes (map (λ (m : Metrics). m.wall_time_ns) samples) s.wall_time_ns
  pub user : Describes (map (λ (m : Metrics). m.user_cpu_time_ns) samples) s.user_cpu_time_ns
  pub system : Describes (map (λ (m : Metrics). m.system_cpu_time_ns) samples) s.system_cpu_time_ns
  pub peak : Describes (map (λ (m : Metrics). m.peak_rss_bytes) samples) s.peak_rss_bytes
  pub size : All (λ n. n ≡ s.output_bytes) (map (λ (m : Metrics). m.output_bytes) samples)
  pub files : All (λ n. n ≡ s.output_files) (map (λ (m : Metrics). m.output_files) samples)

Describes-distribution :
    (values : List ℕ) {d : Distribution}
    → 0 < length values
    → distribution values ≡ ok d
    → Describes values d
Describes-distribution values {d} h e =
    let (found, returned, describes) = distribution-Describes values h in
    let same : found ≡ d = cc in subst (Describes values) same describes

all-equal : (n : ℕ) (ns : List ℕ) → all (λ m. m == n) ns ≡ true → All (λ m. m ≡ n) ns
all-equal n [] h = tt
all-equal n (m ∷ ms) h =
    let (here, rest) = both {a = m == n} h in (==→eq m n here, all-equal n ms rest)

only_value-All : (ns : List ℕ) {n : ℕ} → only_value ns ≡ ok n → All (λ m. m ≡ n) ns
unfolding only_value
only_value-All [] h = cc
only_value-All (m ∷ ms) {n} h =
    let (same, e) = >>-eq-ok (require (all (λ k. k == m) ms) unstable_output) _ h in
    let first : m ≡ n = cc in
    subst (λ v. All (λ k. k ≡ v) (m ∷ ms)) first
      (refl, all-equal m ms (require-eq-ok (all (λ k. k == m) ms) unstable_output same))

length-map {ℓ κ} :
    {A : Type ℓ} {B : Type κ} (f : A → B) (xs : List A) → length (map f xs) ≡ length xs
length-map f [] = refl
length-map f (x ∷ xs) = ap ℕ.suc (length-map f xs)

pub expected_summary-IsSummary :
    (samples : List Metrics) {s : Summary}
    → 0 < length samples
    → expected_summary samples ≡ ok s
    → IsSummary samples s
unfolding expected_summary
expected_summary-IsSummary samples {s} h e =
    let (bytes, e1, k1) =
      >>=-eq-ok (only_value (map (λ (m : Metrics). m.output_bytes) samples)) _ e in
    let (files, e2, k2) =
      >>=-eq-ok (only_value (map (λ (m : Metrics). m.output_files) samples)) _ k1 in
    let (wall, e3, k3) =
      >>=-eq-ok (distribution (map (λ (m : Metrics). m.wall_time_ns) samples)) _ k2 in
    let (user, e4, k4) =
      >>=-eq-ok (distribution (map (λ (m : Metrics). m.user_cpu_time_ns) samples)) _ k3 in
    let (system, e5, k5) =
      >>=-eq-ok (distribution (map (λ (m : Metrics). m.system_cpu_time_ns) samples)) _ k4 in
    let (peak, e6, k6) =
      >>=-eq-ok (distribution (map (λ (m : Metrics). m.peak_rss_bytes) samples)) _ k5 in
    let long = λ (f : Metrics → ℕ). subst (λ n. 0 < n) (sym (length-map f samples)) h in
    let made = ok_injective k6 in
    subst (IsSummary samples) made (record {
      counted = refl;
      wall = Describes-distribution _ (long (λ m. m.wall_time_ns)) e3;
      user = Describes-distribution _ (long (λ m. m.user_cpu_time_ns)) e4;
      system = Describes-distribution _ (long (λ m. m.system_cpu_time_ns)) e5;
      peak = Describes-distribution _ (long (λ m. m.peak_rss_bytes)) e6;
      size = only_value-All _ e1;
      files = only_value-All _ e2;
    })

distribution_eq→eq : (d e : Distribution) → distribution_eq d e ≡ true → d ≡ e
distribution_eq→eq d e h =
    let (a, k) = both {a = d.minimum == e.minimum} h in
    let (b, c) = both {a = d.median == e.median} k in
    let p = ==→eq d.minimum e.minimum a in
    let q = ==→eq d.median e.median b in let r = ==→eq d.maximum e.maximum c in cc

summary_eq→eq : (s t : Summary) → summary_eq s t ≡ true → s ≡ t
summary_eq→eq s t h =
    let (a1, k1) = both {a = s.measured_samples == t.measured_samples} h in
    let (a2, k2) = both {a = distribution_eq s.wall_time_ns t.wall_time_ns} k1 in
    let (a3, k3) = both {a = distribution_eq s.user_cpu_time_ns t.user_cpu_time_ns} k2 in
    let (a4, k4) = both {a = distribution_eq s.system_cpu_time_ns t.system_cpu_time_ns} k3 in
    let (a5, k5) = both {a = distribution_eq s.peak_rss_bytes t.peak_rss_bytes} k4 in
    let (a6, a7) = both {a = s.output_bytes == t.output_bytes} k5 in
    let e1 = ==→eq s.measured_samples t.measured_samples a1 in
    let e2 = distribution_eq→eq s.wall_time_ns t.wall_time_ns a2 in
    let e3 = distribution_eq→eq s.user_cpu_time_ns t.user_cpu_time_ns a3 in
    let e4 = distribution_eq→eq s.system_cpu_time_ns t.system_cpu_time_ns a4 in
    let e5 = distribution_eq→eq s.peak_rss_bytes t.peak_rss_bytes a5 in
    let e6 = ==→eq s.output_bytes t.output_bytes a6 in
    let e7 = ==→eq s.output_files t.output_files a7 in cc

-- A case of the result, with the samples of the case.
pub record IsSummarised (c : Case) (samples : List Sample) (r : ResultCase) : Type 0 where
  pub odd : c.measured_runs % 2 ≡ 1
  pub measured : length (only is_measured samples) ≡ c.measured_runs
  pub warm : length (only (λ p. not (is_measured p)) samples) ≡ c.warmup_runs
  pub summary : IsSummary (metrics_of (only is_measured samples)) r.summary

pub check_result_case-IsSummarised :
    (c : Case) (samples : List Sample) (o : Option ResultCase)
    → c.measured_runs % 2 ≡ 1
    → check_result_case c samples o ≡ ok tt
    → (r : ResultCase) × (o ≡ some r) × IsSummarised c samples r
check_result_case-IsSummarised c samples none odd h = cc
check_result_case-IsSummarised c samples (some r) odd h =
    let warm = only (λ p. not (is_measured p)) samples in
    let taken = only is_measured samples in
    let (a1, k1) = >>-eq-ok (require (length warm == c.warmup_runs) warmup_count_mismatch) _ h in
    let (a2, k2) =
      >>-eq-ok (require (length taken == c.measured_runs) measured_count_mismatch) _ k1 in
    let (_, k3) = >>-eq-ok (require (bytes_eq r.family c.family) family_mismatch) _ k2 in
    let (_, k4) = >>-eq-ok (require (r.warmup_samples == length warm) warmup_count_mismatch) _ k3 in
    let (_, k5) =
      >>-eq-ok (require (r.measured_samples == length taken) measured_count_mismatch) _ k4 in
    let (expected, e, k6) = >>=-eq-ok (expected_summary (metrics_of taken)) _ k5 in
    let count =
      ==→eq (length taken) c.measured_runs (require-eq-ok (length taken == c.measured_runs) _ a2) in
    let some_taken : 0 < length (metrics_of taken) =
      rw (length-map (λ (s : Sample). s.metrics) taken) (omega arith) in
    let same =
      summary_eq→eq r.summary expected
        (require-eq-ok (summary_eq r.summary expected) summary_mismatch k6) in
    (
      r,
      refl,
      record {
        odd = odd;
        measured = count;
        warm =
            ==→eq (length warm) c.warmup_runs (require-eq-ok (length warm == c.warmup_runs) _ a1);
        summary =
            subst (IsSummary (metrics_of taken)) (sym same)
              (expected_summary-IsSummary (metrics_of taken) some_taken e);
      },
    )
