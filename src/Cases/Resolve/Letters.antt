-- ===== src/Cases/Resolve/Letters.antt =====
-- Tests on a text in lower case.
use ferricov.Base.{
  ℕ, ◌≡◌, refl, ap, true, ◌&&◌, [], ◌∷◌, arith, length, drop, All, zero, suc, ltb, ◌==◌,
}
use ferricov.Base.Bytes.{Bytes, bytes_eq, starts_with}
use ferricov.Cases.Match.{lower_char, lower}

lower_char_twice : (c : ℕ) → lower_char (lower_char c) ≡ lower_char c
lower_char_twice c = ground arith

pub lower_twice : (s : Bytes) → lower (lower s) ≡ lower s
lower_twice [] = refl
lower_twice (c ∷ s) = cc (lower_char_twice c, lower_twice s)

lower-mark : (c d : ℕ) → ltb c 65 ≡ true → (c == lower_char d) ≡ (c == d)
lower-mark c d h = ground arith

mark-lower : (d c : ℕ) → ltb c 65 ≡ true → (lower_char d == c) ≡ (d == c)
mark-lower d c h = ground arith

pub starts_with-lower :
    (p t : Bytes) → All (λ c. ltb c 65 ≡ true) p → starts_with p (lower t) ≡ starts_with p t
unfolding starts_with
starts_with-lower [] t h = refl
starts_with-lower (c ∷ p) [] h = refl
starts_with-lower (c ∷ p) (d ∷ t) (h, hs) = rw (lower-mark c d h, starts_with-lower p t hs) refl

pub bytes_eq-lower :
    (t p : Bytes) → All (λ c. ltb c 65 ≡ true) p → bytes_eq (lower t) p ≡ bytes_eq t p
unfolding bytes_eq
bytes_eq-lower [] [] h = refl
bytes_eq-lower [] (c ∷ p) h = refl
bytes_eq-lower (d ∷ t) [] h = refl
bytes_eq-lower (d ∷ t) (c ∷ p) (h, hs) =
    rw (bytes_eq-lower t p hs) (ap (λ b. b && bytes_eq t p) (mark-lower d c h))

pub drop-lower : (n : ℕ) (t : Bytes) → drop n (lower t) ≡ lower (drop n t)
drop-lower zero t = refl
drop-lower (suc n) [] = refl
drop-lower (suc n) (c ∷ t) = drop-lower n t

pub length-lower : (t : Bytes) → length (lower t) ≡ length t
length-lower [] = refl
length-lower (c ∷ t) = ap suc (length-lower t)
