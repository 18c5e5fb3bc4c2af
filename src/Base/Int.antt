-- ===== src/Base/Int.antt =====
-- Python's integers, and `int(s)` of an ASCII text that is already stripped.
use ferricov.Base.Tests.{◌==◌, if◌then◌else◌}
use ferricov.Base.Lists.{All}
use ferricov.Base.Bytes.{Bytes}
use ferricov.Base.Decimal.{
  is_digit, IsDigit, value_from, decimal, value-decimal, decimal-IsDigit, decimal-ne-nil,
}
use Prim.Native.Nat.{ℕ, zero, suc, ◌+◌, ◌-◌, ◌*◌}
use mathlib.Core.Path.{◌≡◌, refl, ap, ◌∙◌}
use mathlib.Core.Logic.{◌≢◌}
use mathlib.Core.Bool.{Bool, true, false, ◌&&◌}
use mathlib.Core.List.{[], ◌∷◌}
use mathlib.Core.Option.{Option, none, some}
use native.Mathlib.Omega.{arith}

-- `negsuc n` is -(n + 1).
pub data ℤ : Type 0 where
  pos : ℕ → ℤ
  negsuc : ℕ → ℤ

abbrev pub negate : ℕ → ℤ
negate zero = pos 0
negate (suc n) = negsuc n

-- digits with single underscores between them; the flag says that the last character was a digit
int_digits : ℕ → Bool → Bytes → Option ℕ
int_digits acc true [] = some acc
int_digits acc false [] = none
int_digits acc after (c ∷ s) =
    let digit = int_digits (acc * 10 + (c - 48)) true s in
    let gap = int_digits acc false s in
    if is_digit c then digit else if (c == 95) && after then gap else none

abbrev with_sign : (ℕ → ℤ) → Option ℕ → Option ℤ
with_sign sign none = none
with_sign sign (some n) = some (sign n)

-- `int(s)`; none is ValueError
unfoldable pub parse_int : Bytes → Option ℤ
unfolding int_digits
parse_int [] = none
parse_int (c ∷ s) =
    if c == b'-'
    then with_sign negate (int_digits 0 false s)
    else if c == b'+'
    then with_sign pos (int_digits 0 false s)
    else with_sign pos (int_digits 0 false (c ∷ s))

int_digits-IsDigit :
    (s : Bytes) (acc : ℕ) → All IsDigit s → int_digits acc true s ≡ some (value_from acc s)
unfolding int_digits
int_digits-IsDigit [] acc h = refl
int_digits-IsDigit (c ∷ s) acc h = ground (arith, int_digits-IsDigit s (acc * 10 + (c - 48)))

parse_int-IsDigit : (s : Bytes) → s ≢ [] → All IsDigit s → parse_int s ≡ some (pos (value_from 0 s))
unfolding parse_int
parse_int-IsDigit [] h k = absurd (h refl)
parse_int-IsDigit (c ∷ s) h k = ground (arith, int_digits-IsDigit s (0 * 10 + (c - 48)))

-- `int(str(n))` is `n`.
pub parse_int-decimal : (n : ℕ) → parse_int (decimal n) ≡ some (pos n)
parse_int-decimal n =
    parse_int-IsDigit (decimal n) (decimal-ne-nil n) (decimal-IsDigit n)
    ∙ ap (λ m. some (pos m)) (value-decimal n)
