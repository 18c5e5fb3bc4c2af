-- ===== src/Benchmarks/Summary/Counts.antt =====
-- How many numbers of a list pass a test, in a sorted list and in any order.
use ferricov.Base.{
  ℕ, zero, suc, ◌+◌, ◌<◌, ◌≤◌, ◌==◌, ltb, ◌≡◌, refl, Bool, List, [], ◌∷◌, ok, if◌then◌else◌, arith,
  length, All, Bool-cases, inl, inr, ltb→lt, ltb→le, ==_refl,
}
use ferricov.Benchmarks.Summary.{insert, sort, nth}

unfoldable pub how_many : (ℕ → Bool) → List ℕ → ℕ
how_many p [] = 0
how_many p (n ∷ ns) = (if p n then 1 else 0) + how_many p ns

-- How many are below and above a number, and how often it is there.
abbrev pub below : ℕ → List ℕ → ℕ
below m ns = how_many (λ n. ltb n m) ns

abbrev pub above : ℕ → List ℕ → ℕ
above m ns = how_many (λ n. ltb m n) ns

abbrev pub often : ℕ → List ℕ → ℕ
often m ns = how_many (λ n. n == m) ns

how_many-insert :
    (p : ℕ → Bool) (n : ℕ) (ms : List ℕ) → how_many p (insert n ms) ≡ how_many p (n ∷ ms)
unfolding how_many insert
how_many-insert p n [] = refl
how_many-insert p n (m ∷ ms) = ground (arith, how_many-insert p n ms)

pub how_many-sort : (p : ℕ → Bool) (ns : List ℕ) → how_many p (sort ns) ≡ how_many p ns
unfolding how_many sort
how_many-sort p [] = refl
how_many-sort p (n ∷ ns) = omega (arith, how_many-insert p n (sort ns), how_many-sort p ns)

length-insert : (n : ℕ) (ms : List ℕ) → length (insert n ms) ≡ suc (length ms)
unfolding insert
length-insert n [] = refl
length-insert n (m ∷ ms) = ground (arith, length-insert n ms)

pub length-sort : (ns : List ℕ) → length (sort ns) ≡ length ns
unfolding sort
length-sort [] = refl
length-sort (n ∷ ns) = omega (arith, length-insert n (sort ns), length-sort ns)

abbrev pub IsSorted : List ℕ → Type 0
IsSorted [] = Unit {0}
IsSorted (n ∷ ns) = All (λ m. n ≤ m) ns × IsSorted ns

All-weaken : (n m : ℕ) (ns : List ℕ) → n ≤ m → All (λ k. m ≤ k) ns → All (λ k. n ≤ k) ns
All-weaken n m [] h hs = tt
All-weaken n m (k ∷ ks) h (g, gs) = (omega arith, All-weaken n m ks h gs)

All-insert : (m n : ℕ) (ns : List ℕ) → m ≤ n → All (λ k. m ≤ k) ns → All (λ k. m ≤ k) (insert n ns)
unfolding insert
All-insert m n [] h hs = (h, tt)
All-insert m n (k ∷ ks) h (g, gs) = elim (Bool-cases (ltb k n)) [
  | inl later ↦ rw later (g, All-insert m n ks h gs)
  | inr here ↦ rw here (h, (g, gs))
]

insert-IsSorted : (n : ℕ) (ms : List ℕ) → IsSorted ms → IsSorted (insert n ms)
unfolding insert
insert-IsSorted n [] s = (tt, tt)
insert-IsSorted n (m ∷ ms) (h, s) = elim (Bool-cases (ltb m n)) [
  | inl later ↦
      let lt = ltb→lt m n later in
      rw later (All-insert m n ms (omega arith) h, insert-IsSorted n ms s)
  | inr here ↦ let le = ltb→le m n here in rw here ((le, All-weaken n m ms le h), (h, s))
]

pub sort-IsSorted : (ns : List ℕ) → IsSorted (sort ns)
unfolding sort
sort-IsSorted [] = tt
sort-IsSorted (n ∷ ns) = insert-IsSorted n (sort ns) (sort-IsSorted ns)

below-least : (n : ℕ) (ns : List ℕ) → All (λ m. n ≤ m) ns → below n ns ≡ 0
unfolding how_many
below-least n [] h = refl
below-least n (m ∷ ms) (g, h) = ground (arith, below-least n ms h)

above-le-length : (n : ℕ) (ns : List ℕ) → above n ns ≤ length ns
unfolding how_many
above-le-length n [] = omega arith
above-le-length n (m ∷ ms) = ground (arith, above-le-length n ms)

nth-least : (n m : ℕ) (ns : List ℕ) (i : ℕ) → All (λ k. n ≤ k) ns → nth ns i ≡ ok m → n ≤ m
unfolding nth
nth-least n m [] i h e = cc
nth-least n m (k ∷ ks) zero (g, h) e = ground arith
nth-least n m (k ∷ ks) (suc i) (g, h) e = nth-least n m ks i h e

-- In a sorted list at most i numbers are below the one at i, and at most those after it are above it.
pub nth-below : (ns : List ℕ) (i : ℕ) {m : ℕ} → IsSorted ns → nth ns i ≡ ok m → below m ns ≤ i
unfolding nth how_many
nth-below [] i s e = cc
nth-below (n ∷ ns) zero {m} (h, s) e = ground (arith, below-least n ns h)
nth-below (n ∷ ns) (suc i) {m} (h, s) e = ground (arith, nth-below ns i {m = m} s e)

pub nth-above :
    (ns : List ℕ) (i : ℕ) {m : ℕ} → IsSorted ns → nth ns i ≡ ok m → above m ns + i < length ns
unfolding nth how_many
nth-above [] i s e = cc
nth-above (n ∷ ns) zero {m} (h, s) e = ground (arith, above-le-length n ns)
nth-above (n ∷ ns) (suc i) {m} (h, s) e =
    ground (arith, nth-above ns i {m = m} s e, nth-least n m ns i h e)

pub nth-often : (ns : List ℕ) (i : ℕ) {m : ℕ} → nth ns i ≡ ok m → 0 < often m ns
unfolding nth how_many
nth-often [] i e = cc
nth-often (n ∷ ns) zero {m} e = ground (arith, ==_refl n)
nth-often (n ∷ ns) (suc i) {m} e = ground (arith, nth-often ns i {m = m} e)

pub nth-returns : (ns : List ℕ) (i : ℕ) → i < length ns → (m : ℕ) × (nth ns i ≡ ok m)
unfolding nth
nth-returns [] i h = absurd (omega arith)
nth-returns (n ∷ ns) zero h = (n, refl)
nth-returns (n ∷ ns) (suc i) h = nth-returns ns i (omega arith)
