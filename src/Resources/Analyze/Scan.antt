-- ===== src/Resources/Analyze/Scan.antt =====
-- `analyze_input` over a file of plain records goes through the records one by one.
use ferricov.Base.{
  ℕ, zero, suc, ◌+◌, ◌≡◌, refl, ◌∙◌, List, [], ◌∷◌, ◌++◌, Result, ok, ◌>>=◌, arith, All,
  Result-cases, inl, inr, subst,
}
use ferricov.Base.Bytes.{Bytes, raw_lines, raw_lines_first, strip_last-append, strip_last-Lacks}
use ferricov.Resources.Profile.{Error}
use ferricov.Resources.Generate.Emits.{IsPlain, unlines, range}
use ferricov.Resources.Analyze.{Counts, consume, absorb, read_line, read_lines}

unfoldable pub scan : List Bytes → Counts → Result Error Counts
scan [] c = ok c
scan (r ∷ rs) c = do c' ← consume r (absorb (r ++ b'\n' ∷ []) c); scan rs c'

read_line-consume :
    (r : Bytes) (c : Counts)
    → IsPlain r
    → read_line (r ++ b'\n' ∷ []) c ≡ consume r (absorb (r ++ b'\n' ∷ []) c)
unfolding read_line
read_line-consume r c h = rw (strip_last-append b'\n' r, strip_last-Lacks b'\r' r h.1)

pub read_lines-scan :
    (rs : List Bytes) (c : Counts)
    → All IsPlain rs
    → read_lines (raw_lines (unlines rs)) c ≡ scan rs c
unfolding read_lines unlines scan
read_lines-scan [] c h = unfold raw_lines in refl
read_lines-scan (r ∷ rs) c h = rw (raw_lines_first r (unlines rs) h.0.0) (
    rw (read_line-consume r c h.0) (elim (Result-cases (consume r (absorb (r ++ b'\n' ∷ []) c))) [
      | inl (c', e) ↦ rw e (read_lines-scan rs c' h.1)
      | inr (x, e) ↦ rw e
    ]))

pub scan-append : (rs ss : List Bytes) (c : Counts) → scan (rs ++ ss) c ≡ (scan rs c >>= scan ss)
unfolding scan
scan-append [] ss c = refl
scan-append (r ∷ rs) ss c = elim (Result-cases (consume r (absorb (r ++ b'\n' ∷ []) c))) [
  | inl (c', e) ↦ rw e (scan-append rs ss c')
  | inr (x, e) ↦ rw e
]

-- From `c` the records are read with no error, and lead to a state with `P`.
abbrev pub Reaches : List Bytes → Counts → (Counts → Type 0) → Type 0
Reaches rs c P = (c' : Counts) × (scan rs c ≡ ok c') × P c'

pub Reaches-append :
    (rs ss : List Bytes) (c : Counts) {P Q : Counts → Type 0}
    → Reaches rs c P
    → ((c' : Counts) → P c' → Reaches ss c' Q)
    → Reaches (rs ++ ss) c Q
Reaches-append rs ss c (c', e, p) k = let (d, f, q) = k c' p in (d, scan-append rs ss c ∙ rw e f, q)

-- A loop whose body takes round `k` to round `k + 1`.
pub Reaches-range :
    (body : ℕ → List Bytes) (P : ℕ → Counts → Type 0)
    → ((k : ℕ) (c : Counts) → P k c → Reaches (body (suc k)) c (P (suc k)))
    → (n k m : ℕ) (c : Counts) → k + n ≡ m
    → P k c
    → Reaches (range body (suc k) n) c (P m)
unfolding range scan
Reaches-range body P step zero k m c e p =
    let q : k ≡ m = omega arith in (c, refl, subst (λ j. P j c) q p)
Reaches-range body P step (suc n) k m c e p =
    Reaches-append (body (suc k)) (range body (suc (suc k)) n) c (step k c p)
      (λ c' p'. Reaches-range body P step n (suc k) m c' (omega arith) p')
