-- ===== src/Base/Decimal.antt =====
-- `str(n)` of a natural number, and `int(s)` of a run of ASCII digits.
use Prim.Native.Nat.{ℕ, zero, suc, ◌+◌, ◌-◌, ◌*◌, ◌/◌, ◌%◌, ◌≤◌, ◌<◌}
use mathlib.Core.Path.{◌≡◌, refl, ap, sym, ◌∙◌}
use mathlib.Core.Logic.{◌≢◌, inl, inr}
use mathlib.Core.Bool.{Bool, ◌&&◌}
use mathlib.Core.List.{[], ◌∷◌}
use native.Mathlib.Omega.{arith}
use ferricov.Base.Tests.{ltb, leb, ltb→lt, ltb→le, if◌then◌else◌, Bool-cases}
use ferricov.Base.Lists.{All}
use ferricov.Base.Bytes.{Bytes, codes}

-- The digits of `n` in front of `acc`; fuel bounds the number of digits.
unfoldable pub digits : ℕ → ℕ → Bytes → Bytes
digits zero n acc = acc
digits (suc f) n acc =
    let d = (48 + n % 10) ∷ acc in let rest = digits f (n / 10) d in if ltb n 10 then d else rest

-- `str(n)`; a number has no more digits than its successor has units
unfoldable pub decimal : ℕ → Bytes
unfolding digits
decimal n = digits (suc n) n []

abbrev pub is_digit : ℕ → Bool
is_digit c = leb 48 c && leb c 57

abbrev pub IsDigit : ℕ → Type 0
IsDigit c = (48 ≤ c) × (c ≤ 57)

-- The number that digits spell behind `k`.
abbrev pub value_from : ℕ → Bytes → ℕ
value_from k [] = k
value_from k (c ∷ s) = value_from (k * 10 + (c - 48)) s

-- `int(s)` for a non-empty run of digits
abbrev pub value : Bytes → ℕ
value = value_from 0

value-digits : (f n : ℕ) (acc : Bytes) → n < f → value (digits f n acc) ≡ value_from n acc
unfolding digits
value-digits zero n acc h = absurd (omega arith)
value-digits (suc f) n acc h = elim (Bool-cases (ltb n 10)) [
  | inl small ↦
      let e : 0 * 10 + (48 + n % 10 - 48) ≡ n = omega (arith, ltb→lt n 10) in
      rw small (ap (λ k. value_from k acc) e)
  | inr big ↦
      let e : n / 10 * 10 + (48 + n % 10 - 48) ≡ n = omega arith in
      rw big (
        value-digits f (n / 10) ((48 + n % 10) ∷ acc) (omega (arith, ltb→le n 10))
        ∙ ap (λ k. value_from k acc) e)
]

-- Reading back what `str` wrote.
pub value-decimal : (n : ℕ) → value (decimal n) ≡ n
unfolding decimal
value-decimal n = value-digits (suc n) n [] (omega arith)

pub decimal-injective : (m n : ℕ) → decimal m ≡ decimal n → m ≡ n
decimal-injective m n e = sym (value-decimal m) ∙ ap value e ∙ value-decimal n

digits-IsDigit : (f n : ℕ) (acc : Bytes) → All IsDigit acc → All IsDigit (digits f n acc)
unfolding digits
digits-IsDigit zero n acc h = h
digits-IsDigit (suc f) n acc h =
    let d : All IsDigit ((48 + n % 10) ∷ acc) = ((omega arith, omega arith), h) in
    elim (Bool-cases (ltb n 10)) [
      | inl small ↦ rw small d
      | inr big ↦ rw big (digits-IsDigit f (n / 10) ((48 + n % 10) ∷ acc) d)
    ]

pub decimal-IsDigit : (n : ℕ) → All IsDigit (decimal n)
unfolding decimal
decimal-IsDigit n = digits-IsDigit (suc n) n [] tt

digits-ne-nil : (f n : ℕ) (acc : Bytes) → acc ≢ [] → digits f n acc ≢ []
unfolding digits
digits-ne-nil zero n acc h = h
digits-ne-nil (suc f) n acc h = elim (Bool-cases (ltb n 10)) [
  | inl small ↦ rw small (cc)
  | inr big ↦ rw big (digits-ne-nil f (n / 10) ((48 + n % 10) ∷ acc) cc)
]

pub decimal-ne-nil : (n : ℕ) → decimal n ≢ []
unfolding decimal digits
decimal-ne-nil n = elim (Bool-cases (ltb n 10)) [
  | inl small ↦ rw small (cc)
  | inr big ↦ rw big (digits-ne-nil n (n / 10) ((48 + n % 10) ∷ []) cc)
]

decimal_1024 : decimal 1024 ≡ codes "1024"
unfolding decimal
decimal_1024 = refl
