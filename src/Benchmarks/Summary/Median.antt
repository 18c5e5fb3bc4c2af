-- ===== src/Benchmarks/Summary/Median.antt =====
-- What a distribution says of its values.
use ferricov.Base.{ℕ, ◌*◌, ◌-◌, ◌/◌, ◌<◌, ◌≤◌, ◌==◌, ltb, ◌≡◌, refl, List, ok, arith, length}
use ferricov.Benchmarks.Summary.{Distribution, sort, distribution}
use ferricov.Benchmarks.Summary.Counts.{
  below, above, often, how_many-sort, length-sort, sort-IsSorted, nth-below, nth-above, nth-often,
  nth-returns,
}

-- The three are among the values, none is below the minimum or above the maximum, and at most half of them
-- are below the median, and less than half above it.
pub record Describes (values : List ℕ) (d : Distribution) : Type 0 where
  pub minimum_there : 0 < often d.minimum values
  pub median_there : 0 < often d.median values
  pub maximum_there : 0 < often d.maximum values
  pub none_below : below d.minimum values ≡ 0
  pub none_above : above d.maximum values ≡ 0
  pub half_below : 2 * below d.median values ≤ length values
  pub half_above : 2 * above d.median values < length values

-- The distribution of at least one value exists, and describes the values: its minimum, median and maximum are
-- among them, no value is below the minimum or above the maximum, at most half of the values are below the
-- median, and less than half are above it.
pub distribution-Describes :
    (values : List ℕ)
    → 0 < length values
    → (d : Distribution) × (distribution values ≡ ok d) × Describes values d
unfolding distribution
distribution-Describes values h =
    let size = length-sort values in
    let (a, first) = nth-returns (sort values) 0 (omega arith) in
    let (b, middle) = nth-returns (sort values) (length (sort values) / 2) (omega arith) in
    let (c, last) = nth-returns (sort values) (length (sort values) - 1) (omega arith) in
    let sorted = sort-IsSorted values in
    (
      record { minimum = a; median = b; maximum = c },
      rw (first, middle, last) refl,
      record {
        minimum_there =
            omega (arith, nth-often (sort values) 0 first, how_many-sort (λ n. n == a) values);
        median_there = omega (
          arith,
          nth-often (sort values) (length (sort values) / 2) middle,
          how_many-sort (λ n. n == b) values,
        );
        maximum_there = omega (
          arith,
          nth-often (sort values) (length (sort values) - 1) last,
          how_many-sort (λ n. n == c) values,
        );
        none_below =
            omega
              (arith, nth-below (sort values) 0 sorted first, how_many-sort (λ n. ltb n a) values);
        none_above = omega (
          arith,
          nth-above (sort values) (length (sort values) - 1) sorted last,
          how_many-sort (λ n. ltb c n) values,
        );
        half_below = omega (
          arith,
          nth-below (sort values) (length (sort values) / 2) sorted middle,
          how_many-sort (λ n. ltb n b) values,
        );
        half_above = omega (
          arith,
          nth-above (sort values) (length (sort values) / 2) sorted middle,
          how_many-sort (λ n. ltb b n) values,
        );
      },
    )
