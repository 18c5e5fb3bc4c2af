-- ===== src/Correctness/Keys.antt =====
-- `keys != sorted(keys) or len(keys) != len(set(keys))` of compat/correctness/validate.py.
use ferricov.Base.{
  ℕ, suc, ◌≡◌, refl, sym, ap, ◌∙◌, subst, ◌≤◌, Bool, true, false, ◌&&◌, List, [], ◌∷◌,
  if◌then◌else◌, ◌==◌, ==_refl, ==→eq, Bool-cases, inl, inr, length, arith,
}
use ferricov.Base.Order.{bytes_lt, bytes_lt_asym, bytes_lt_trans, bytes_lt_total, lt-bytes_eq}
use ferricov.Base.Bytes.{Bytes, bytes_eq, bytes_eq→eq, bytes_eq_refl, bytes_eq_sym, mem, Distinct}

unfoldable pub insert : Bytes → List Bytes → List Bytes
insert x [] = x ∷ []
insert x (y ∷ ys) = let rest = insert x ys in if bytes_lt y x then y ∷ rest else x ∷ y ∷ ys

unfoldable pub sorted : List Bytes → List Bytes
sorted [] = []
sorted (x ∷ xs) = insert x (sorted xs)

-- len(set(keys))
unfoldable pub set_size : List Bytes → ℕ
set_size [] = 0
set_size (x ∷ xs) = let n = set_size xs in if mem x xs then n else suc n

unfoldable pub lists_eq : List Bytes → List Bytes → Bool
unfolding bytes_eq
lists_eq [] [] = true
lists_eq (x ∷ xs) (y ∷ ys) = bytes_eq x y && lists_eq xs ys
lists_eq _ _ = false

unfoldable pub sorted_and_unique : List Bytes → Bool
unfolding sorted set_size lists_eq
sorted_and_unique keys = lists_eq keys (sorted keys) && (length keys == set_size keys)

-- Every key is before the next.
abbrev pub IsAscending : List Bytes → Type 0
IsAscending [] = Unit
IsAscending (x ∷ []) = Unit
IsAscending (x ∷ y ∷ ys) = (bytes_lt x y ≡ true) × IsAscending (y ∷ ys)

abbrev IsOrdered : List Bytes → Type 0
IsOrdered [] = Unit
IsOrdered (x ∷ []) = Unit
IsOrdered (x ∷ y ∷ ys) = (bytes_lt y x ≡ false) × IsOrdered (y ∷ ys)

insert-IsOrdered : (x : Bytes) (ys : List Bytes) → IsOrdered ys → IsOrdered (insert x ys)
unfolding insert
insert-IsOrdered x [] h = tt
insert-IsOrdered x (y ∷ []) h = elim (Bool-cases (bytes_lt y x)) [
  | inl before ↦ rw before (bytes_lt_asym y x before, tt)
  | inr after ↦ rw after (after, tt)
]
insert-IsOrdered x (y ∷ z ∷ ys) (first, h) = elim (Bool-cases (bytes_lt y x)) [
  | inl before ↦
      let later = insert-IsOrdered x (z ∷ ys) h in
      elim (Bool-cases (bytes_lt z x)) [
        | inl between ↦
            rw (before, between)
              (
                first,
                subst (λ b. IsOrdered (if b then z ∷ insert x ys else x ∷ z ∷ ys)) between later,
              )
        | inr behind ↦ rw (before, behind) (bytes_lt_asym y x before, (behind, h))
      ]
  | inr after ↦ rw after (after, (first, h))
]

sorted-IsOrdered : (xs : List Bytes) → IsOrdered (sorted xs)
unfolding sorted
sorted-IsOrdered [] = tt
sorted-IsOrdered (x ∷ xs) = insert-IsOrdered x (sorted xs) (sorted-IsOrdered xs)

lists_eq→eq : (xs ys : List Bytes) → lists_eq xs ys ≡ true → xs ≡ ys
unfolding lists_eq
lists_eq→eq [] [] h = refl
lists_eq→eq (x ∷ xs) (y ∷ ys) h =
    let e = bytes_eq→eq x y (ground arith) in let es = lists_eq→eq xs ys (ground arith) in cc
lists_eq→eq _ _ h = cc

lists_eq_refl : (xs : List Bytes) → lists_eq xs xs ≡ true
unfolding lists_eq
lists_eq_refl [] = refl
lists_eq_refl (x ∷ xs) = rw (bytes_eq_refl x) (lists_eq_refl xs)

set_size-le : (xs : List Bytes) → set_size xs ≤ length xs
unfolding set_size
set_size-le [] = omega arith
set_size-le (x ∷ xs) = ground (arith, set_size-le xs)

set_size-Distinct : (xs : List Bytes) → length xs ≡ set_size xs → Distinct xs
unfolding set_size
set_size-Distinct [] h = tt
set_size-Distinct (x ∷ xs) h = elim (Bool-cases (mem x xs)) [
  | inl again ↦
      let h' : suc (length xs) ≡ set_size xs =
        subst (λ b. suc (length xs) ≡ (if b then set_size xs else suc (set_size xs))) again h in
      absurd (omega (arith, set_size-le xs, h'))
  | inr new ↦
      let h' : suc (length xs) ≡ suc (set_size xs) =
        subst (λ b. suc (length xs) ≡ (if b then set_size xs else suc (set_size xs))) new h in
      (new, set_size-Distinct xs (omega (arith, h')))
]

Distinct-set_size : (xs : List Bytes) → Distinct xs → length xs ≡ set_size xs
unfolding set_size
Distinct-set_size [] h = refl
Distinct-set_size (x ∷ xs) (new, h) = rw new (ap suc (Distinct-set_size xs h))

ordered-IsAscending : (xs : List Bytes) → IsOrdered xs → Distinct xs → IsAscending xs
ordered-IsAscending [] h d = tt
ordered-IsAscending (x ∷ []) h d = tt
ordered-IsAscending (x ∷ y ∷ ys) (e, h) (new, d) =
    (bytes_lt_total x y e (rw (bytes_eq_sym x y) ground arith), ordered-IsAscending (y ∷ ys) h d)

ascending-mem : (x : Bytes) (xs : List Bytes) → IsAscending (x ∷ xs) → mem x xs ≡ false
ascending-mem x [] h = refl
ascending-mem x (y ∷ []) (e, h) = rw (lt-bytes_eq x y e) refl
ascending-mem x (y ∷ z ∷ ys) (e, (f, h)) =
    rw (lt-bytes_eq x y e) (ascending-mem x (z ∷ ys) (bytes_lt_trans x y z e f, h))

ascending-Distinct : (xs : List Bytes) → IsAscending xs → Distinct xs
ascending-Distinct [] h = tt
ascending-Distinct (x ∷ []) h = (refl, tt)
ascending-Distinct (x ∷ y ∷ ys) (e, h) =
    (ascending-mem x (y ∷ ys) (e, h), ascending-Distinct (y ∷ ys) h)

ascending-sorted : (xs : List Bytes) → IsAscending xs → sorted xs ≡ xs
unfolding sorted insert
ascending-sorted [] h = refl
ascending-sorted (x ∷ []) h = refl
ascending-sorted (x ∷ y ∷ ys) (e, h) =
    ap (insert x) (ascending-sorted (y ∷ ys) h) ∙ (rw (bytes_lt_asym x y e) refl)

pub sorted_and_unique-IsAscending :
    (keys : List Bytes) → sorted_and_unique keys ≡ true → IsAscending keys
unfolding sorted_and_unique
sorted_and_unique-IsAscending keys h =
    let same = lists_eq→eq keys (sorted keys) (ground arith) in
    ordered-IsAscending keys (subst IsOrdered (sym same) (sorted-IsOrdered keys))
      (set_size-Distinct keys (==→eq (length keys) (set_size keys) (ground arith)))

pub IsAscending-sorted_and_unique :
    (keys : List Bytes) → IsAscending keys → sorted_and_unique keys ≡ true
unfolding sorted_and_unique
IsAscending-sorted_and_unique keys h =
    rw
      (
        ascending-sorted keys h,
        lists_eq_refl keys,
        sym (Distinct-set_size keys (ascending-Distinct keys h)),
      )
      (==_refl (length keys))
