-- ===== src/Base/Text.antt =====
-- Python's `str` restricted to ASCII, as lists of code points, with the methods that the harness calls.
use ferricov.Base.Tests.{◌==◌, ltb, leb, if◌then◌else◌}
use ferricov.Base.Lists.{All}
use ferricov.Base.Bytes.{Bytes, cons_head}
use ferricov.Base.Decimal.{is_digit, IsDigit, decimal, decimal-IsDigit}
use Prim.Native.Nat.{ℕ}
use mathlib.Core.Path.{◌≡◌, refl}
use mathlib.Core.Bool.{Bool, true, false, ◌&&◌, ◌||◌}
use mathlib.Core.List.{List, [], ◌∷◌, ◌++◌}
use native.Mathlib.Omega.{arith}

-- the line boundaries of `str.splitlines` below 128: \n \v \f \r and the separators 28, 29, 30
abbrev pub is_break : ℕ → Bool
is_break c = (leb 10 c && leb c 13) || (leb 28 c && leb c 30)

abbrev pub IsUnbroken : Bytes → Type 0
IsUnbroken = All (λ c. is_break c ≡ false)

-- The flag says that the last character was a carriage return: a line feed behind it is dropped.
lines_from : (ℕ → Bool) → Bool → Bytes → List Bytes
lines_from brk after_cr [] = []
lines_from brk after_cr (c ∷ s) =
    let skip = lines_from brk false s in
    let close = [] ∷ lines_from brk (c == 13) s in
    let keep = cons_head c (lines_from brk false s) in
    if after_cr && (c == 10) then skip else if brk c then close else keep

-- `s.splitlines()` of a text
unfoldable pub split_lines : Bytes → List Bytes
unfolding lines_from
split_lines s = lines_from is_break false s

-- `s.splitlines()` of bytes: only \n, \r and \r\n are boundaries
abbrev pub is_byte_break : ℕ → Bool
is_byte_break c = (c == 10) || (c == 13)

unfoldable pub byte_lines : Bytes → List Bytes
unfolding lines_from
byte_lines s = lines_from is_byte_break false s

lines_from_first :
    (brk : ℕ → Bool)
    → brk 10 ≡ true
    → (r s : Bytes) → All (λ c. brk c ≡ false) r
    → lines_from brk false (r ++ 10 ∷ s) ≡ r ∷ lines_from brk false s
unfolding lines_from
lines_from_first brk e [] s h = rw e
lines_from_first brk e (c ∷ r) s (k, h) = rw k (rw (lines_from_first brk e r s h))

pub split_lines_first : (r s : Bytes) → IsUnbroken r → split_lines (r ++ 10 ∷ s) ≡ r ∷ split_lines s
unfolding split_lines
split_lines_first = lines_from_first is_break refl

pub byte_lines_first :
    (r s : Bytes)
    → All (λ c. is_byte_break c ≡ false) r
    → byte_lines (r ++ 10 ∷ s) ≡ r ∷ byte_lines s
unfolding byte_lines
byte_lines_first = lines_from_first is_byte_break refl

-- whitespace of `str.strip` below 128
abbrev pub is_space : ℕ → Bool
is_space c = (leb 9 c && leb c 13) || (leb 28 c && leb c 32)

unfoldable pub left_strip : Bytes → Bytes
left_strip [] = []
left_strip (c ∷ s) = let rest = left_strip s in if is_space c then rest else c ∷ s

abbrev trim_cons : ℕ → Bytes → Bytes
trim_cons c [] = if is_space c then [] else c ∷ []
trim_cons c (d ∷ s) = c ∷ d ∷ s

unfoldable pub right_strip : Bytes → Bytes
right_strip [] = []
right_strip (c ∷ s) = trim_cons c (right_strip s)

-- `s.strip()`
unfoldable pub strip : Bytes → Bytes
unfolding left_strip right_strip
strip s = right_strip (left_strip s)

right_strip-append :
    (s : Bytes) (c : ℕ) → is_space c ≡ false → right_strip (s ++ c ∷ []) ≡ s ++ c ∷ []
unfolding right_strip
right_strip-append [] c h = ground arith
right_strip-append (d ∷ []) c h = ground arith
right_strip-append (d ∷ e ∷ s) c h = ground (arith, right_strip-append (e ∷ s) c)

-- A text between a digit and a character that is no space is left alone, but for the space before it.
pub strip_between :
    (d : ℕ) (s : Bytes) (c : ℕ)
    → is_space d ≡ false
    → is_space c ≡ false
    → strip (32 ∷ d ∷ (s ++ c ∷ [])) ≡ d ∷ (s ++ c ∷ [])
unfolding strip
strip_between d s c h k = rw h (right_strip-append (d ∷ s) c k)

-- The longest run of digits in front, and what follows it.
unfoldable pub span_digits : Bytes → Bytes × Bytes
span_digits [] = ([], [])
span_digits (c ∷ s) =
    let (ds, rest) = span_digits s in if is_digit c then (c ∷ ds, rest) else ([], c ∷ s)

pub span_digits-append :
    (ds : Bytes) (c : ℕ) (s : Bytes)
    → All IsDigit ds
    → is_digit c ≡ false
    → span_digits (ds ++ c ∷ s) ≡ (ds, c ∷ s)
unfolding span_digits
span_digits-append [] c s h k = ground arith
span_digits-append (d ∷ ds) c s h k = ground (arith, span_digits-append ds c s)

right_strip_solid : (s : Bytes) → All (λ c. is_space c ≡ false) s → right_strip s ≡ s
unfolding right_strip
right_strip_solid [] h = refl
right_strip_solid (c ∷ []) h = ground arith
right_strip_solid (c ∷ d ∷ s) h = ground (arith, right_strip_solid (d ∷ s))

digits_solid : (s : Bytes) → All IsDigit s → All (λ c. is_space c ≡ false) s
digits_solid [] h = tt
digits_solid (c ∷ s) h = (ground arith, digits_solid s h.1)

pub strip-decimal : (n : ℕ) → strip (32 ∷ decimal n) ≡ decimal n
unfolding strip
strip-decimal n = strip_digits (decimal n) (decimal-IsDigit n)
  where
    strip_digits : (s : Bytes) → All IsDigit s → strip (32 ∷ s) ≡ s
    strip_digits [] h = refl
    strip_digits (c ∷ s) h =
        let e : is_space c ≡ false = ground arith in
        rw e (right_strip_solid (c ∷ s) (digits_solid (c ∷ s) h))

-- One line of ASCII text.
abbrev pub is_line : ℕ → Bool
is_line c = ltb c 128 && (if is_break c then false else true)

abbrev pub IsLine : Bytes → Type 0
IsLine = All (λ c. is_line c ≡ true)

pub IsLine-IsUnbroken : (s : Bytes) → IsLine s → IsUnbroken s
IsLine-IsUnbroken [] h = tt
IsLine-IsUnbroken (c ∷ s) (e, h) = (ground arith, IsLine-IsUnbroken s h)

pub digits-IsLine : (s : Bytes) → All IsDigit s → IsLine s
digits-IsLine [] h = tt
digits-IsLine (c ∷ s) h = (ground arith, digits-IsLine s h.1)

pub decimal-IsLine : (n : ℕ) → IsLine (decimal n)
decimal-IsLine n = digits-IsLine (decimal n) (decimal-IsDigit n)
