-- ===== src/Benchmarks/Evidence.antt =====
-- `validate_correctness_evidence`: what a performance gate wants of a differential result.
use ferricov.Base.{
  ◌≡◌, refl, true, not, List, [], ◌∷◌, Option, none, some, Result, ok, err, ◌>>=◌, ◌>>◌, require,
  all, All, all→All, >>-eq-ok, require-eq-ok,
}
use ferricov.Base.Bytes.{Bytes, codes}
use ferricov.Base.Same.{same, same→eq, bytes_same, option_same}
use ferricov.Benchmarks.Summary
use ferricov.Benchmarks.Suite.{Artifact, artifact_path}

pub data Error : Type 0 where
  evidence_required self_test not_compatibility not_passed no_comparisons comparison_not_passed :
      Error
  artifact_error : Summary.Error → Error

-- A key that is absent is none, and comparisons that are no list are none.
pub record Evidence : Type 0 where
  pub evidence_scope : Option Bytes
  pub overall_status : Option Bytes
  pub comparisons : Option (List (Option Bytes))

abbrev pub pass_status : Option Bytes
pass_status = some (codes "pass")

abbrev pub lifted {ℓ} : {A : Type ℓ} → Result Summary.Error A → Result Error A
lifted (err e) = err (artifact_error e)
lifted (ok a) = ok a

abbrev pub check_comparisons : Option (List (Option Bytes)) → Result Error (Unit {0})
check_comparisons none = err no_comparisons
check_comparisons (some []) = err no_comparisons
check_comparisons (some (c ∷ cs)) =
    require (all (λ status. same status pass_status) (c ∷ cs)) comparison_not_passed

abbrev pub check_evidence : Evidence → Result Error (Unit {0})
check_evidence e = do
  require (not (same e.evidence_scope (some (codes "harness_self_test")))) self_test
  require (same e.evidence_scope (some (codes "compatibility"))) not_compatibility
  require (same e.overall_status pass_status) not_passed
  check_comparisons e.comparisons

unfoldable pub validate_correctness_evidence :
    (Bytes → Bytes)
    → (Bytes → Option Bytes)
    → (Bytes → Result Summary.Error Evidence)
    → Option Artifact
    → Result Error (Unit {0})
validate_correctness_evidence hash root read none = err evidence_required
validate_correctness_evidence hash root read (some a) = do
  content ← lifted (artifact_path hash root a)
  e ← lifted (read content)
  check_evidence e

-- Evidence of compatibility that has passed, with at least one comparison, all of them passed.
pub record HasPassed (e : Evidence) : Type 0 where
  pub scope : e.evidence_scope ≡ some (codes "compatibility")
  pub status : e.overall_status ≡ pass_status
  pub comparisons :
      (c : Option Bytes) × (cs : List (Option Bytes)) × (e.comparisons ≡ some (c ∷ cs))
      × All (λ s. same s pass_status ≡ true) (c ∷ cs)

check_comparisons-passed :
    (o : Option (List (Option Bytes)))
    → check_comparisons o ≡ ok tt
    → (c : Option Bytes) × (cs : List (Option Bytes)) × (o ≡ some (c ∷ cs))
      × All (λ s. same s pass_status ≡ true) (c ∷ cs)
check_comparisons-passed none h = cc
check_comparisons-passed (some []) h = cc
check_comparisons-passed (some (c ∷ cs)) h = (
  c,
  cs,
  refl,
  all→All (λ s. same s pass_status) (c ∷ cs) (require-eq-ok _ comparison_not_passed h),
)

-- What passes check_evidence, the last step of validate_correctness_evidence, has passed.
pub check_evidence-HasPassed : (e : Evidence) → check_evidence e ≡ ok tt → HasPassed e
check_evidence-HasPassed e h =
    let (_, k1) = >>-eq-ok (require _ self_test) _ h in
    let (a, k2) =
      >>-eq-ok (require (same e.evidence_scope (some (codes "compatibility"))) not_compatibility) _
        k1 in
    let (b, k3) = >>-eq-ok (require (same e.overall_status pass_status) not_passed) _ k2 in
    record {
      scope = same→eq e.evidence_scope (some (codes "compatibility")) (
          require-eq-ok (same e.evidence_scope (some (codes "compatibility"))) not_compatibility a);
      status =
          same→eq e.overall_status pass_status
            (require-eq-ok (same e.overall_status pass_status) not_passed b);
      comparisons = check_comparisons-passed e.comparisons k3;
    }
