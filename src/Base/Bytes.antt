-- ===== src/Base/Bytes.antt =====
-- Python's `bytes` as lists of byte values, with the methods that the harness calls.
use Prim.Native.Char.{code}
use Prim.Native.String.{String}
use Prim.Native.Nat.{ℕ, zero, suc}
use mathlib.Core.Path.{◌≡◌, refl, ap}
use mathlib.Core.Logic.{◌≢◌, inl, inr}
use mathlib.Core.Bool.{Bool, true, false, ◌||◌, ◌&&◌}
use mathlib.Core.List.{List, [], ◌∷◌, ◌++◌}
use native.Mathlib.Omega.{arith}
use ferricov.Base.Tests.{◌==◌, if◌then◌else◌, Bool-cases}
use ferricov.Base.Lists.{All}

abbrev pub Bytes : Type 0
Bytes = List ℕ

-- The code points of a literal; its bytes, since every literal here is ASCII.
abbrev pub codes : String → Bytes
codes String.[] = []
codes (String.◌∷◌ c s) = code c ∷ codes s

-- `a == b` on bytes
unfoldable pub bytes_eq : Bytes → Bytes → Bool
bytes_eq [] [] = true
bytes_eq [] (c ∷ t) = false
bytes_eq (c ∷ s) [] = false
bytes_eq (c ∷ s) (d ∷ t) = (c == d) && bytes_eq s t

pub bytes_eq_refl : (s : Bytes) → bytes_eq s s ≡ true
unfolding bytes_eq
bytes_eq_refl [] = refl
bytes_eq_refl (c ∷ s) = ground (arith, bytes_eq_refl s)

pub bytes_eq→eq : (s t : Bytes) → bytes_eq s t ≡ true → s ≡ t
unfolding bytes_eq
bytes_eq→eq [] [] h = refl
bytes_eq→eq [] (d ∷ t) h = cc
bytes_eq→eq (c ∷ s) [] h = cc
bytes_eq→eq (c ∷ s) (d ∷ t) h = ground (arith, bytes_eq→eq s t)

pub ne→bytes_eq : (s t : Bytes) → s ≢ t → bytes_eq s t ≡ false
ne→bytes_eq s t h = elim (Bool-cases (bytes_eq s t)) [
  | inl same ↦ absurd (h (bytes_eq→eq s t same))
  | inr differ ↦ differ
]

-- `s.startswith(p)`
unfoldable pub starts_with : Bytes → Bytes → Bool
starts_with [] s = true
starts_with (c ∷ p) [] = false
starts_with (c ∷ p) (d ∷ s) = (c == d) && starts_with p s

pub starts_with-append : (p s : Bytes) → starts_with p (p ++ s) ≡ true
unfolding starts_with
starts_with-append [] s = refl
starts_with-append (c ∷ p) s = ground (arith, starts_with-append p s)

-- Two literals that differ at a place where both have a byte: no text starts with both.
abbrev pub clash : Bytes → Bytes → Bool
clash [] q = false
clash (c ∷ p) [] = false
clash (c ∷ p) (d ∷ q) = if c == d then clash p q else true

pub starts_with-clash :
    (p q s : Bytes) → clash p q ≡ true → starts_with p s ≡ true → starts_with q s ≡ false
unfolding starts_with
starts_with-clash [] q s h k = cc
starts_with-clash (c ∷ p) [] s h k = cc
starts_with-clash (c ∷ p) (d ∷ q) [] h k = cc
starts_with-clash (c ∷ p) (d ∷ q) (e ∷ s) h k = ground (arith, starts_with-clash p q s)

abbrev pub Lacks : ℕ → Bytes → Type 0
Lacks b = All (λ c. c ≢ b)

-- `b in s` for a single byte
abbrev pub has_byte : ℕ → Bytes → Bool
has_byte b [] = false
has_byte b (c ∷ s) = if c == b then true else has_byte b s

pub has_byte-Lacks : (b : ℕ) (s : Bytes) → Lacks b s → has_byte b s ≡ false
has_byte-Lacks b [] h = refl
has_byte-Lacks b (c ∷ s) h = ground (arith, has_byte-Lacks b s)

abbrev pub cons_head : ℕ → List Bytes → List Bytes
cons_head c [] = (c ∷ []) ∷ []
cons_head c (p ∷ ps) = (c ∷ p) ∷ ps

-- `s.split(sep)`
unfoldable pub split : ℕ → Bytes → List Bytes
split sep [] = [] ∷ []
split sep (c ∷ s) = let rest = split sep s in if c == sep then [] ∷ rest else cons_head c rest

-- `s.split(sep, n)`: at most `n` cuts
unfoldable pub split_at_most : ℕ → ℕ → Bytes → List Bytes
split_at_most sep zero s = s ∷ []
split_at_most sep (suc n) [] = [] ∷ []
split_at_most sep (suc n) (c ∷ s) =
    let cut = [] ∷ split_at_most sep n s in
    let keep = cons_head c (split_at_most sep (suc n) s) in if c == sep then cut else keep

pub split_at_most_first :
    (sep n : ℕ) (p s : Bytes)
    → Lacks sep p
    → split_at_most sep (suc n) (p ++ sep ∷ s) ≡ p ∷ split_at_most sep n s
unfolding split_at_most
split_at_most_first sep n [] s h = ground arith
split_at_most_first sep n (c ∷ p) s h = ground (arith, split_at_most_first sep n p s)

pub split_at_most_none : (sep n : ℕ) (p : Bytes) → Lacks sep p → split_at_most sep n p ≡ p ∷ []
unfolding split_at_most
split_at_most_none sep zero p h = refl
split_at_most_none sep (suc n) [] h = refl
split_at_most_none sep (suc n) (c ∷ p) h = ground (arith, split_at_most_none sep (suc n) p)

pub split_first : (sep : ℕ) (p s : Bytes) → Lacks sep p → split sep (p ++ sep ∷ s) ≡ p ∷ split sep s
unfolding split
split_first sep [] s h = ground arith
split_first sep (c ∷ p) s h = ground (arith, split_first sep p s)

pub split_none : (sep : ℕ) (p : Bytes) → Lacks sep p → split sep p ≡ p ∷ []
unfolding split
split_none sep [] h = refl
split_none sep (c ∷ p) h = ground (arith, split_none sep p)

-- `s[:-1] if s.endswith(b) else s`
unfoldable pub strip_last : ℕ → Bytes → Bytes
strip_last b [] = []
strip_last b (c ∷ []) = if c == b then [] else c ∷ []
strip_last b (c ∷ d ∷ s) = c ∷ strip_last b (d ∷ s)

pub strip_last-append : (b : ℕ) (s : Bytes) → strip_last b (s ++ b ∷ []) ≡ s
unfolding strip_last
strip_last-append b [] = ground arith
strip_last-append b (c ∷ []) = ap (◌∷◌ c) (strip_last-append b [])
strip_last-append b (c ∷ d ∷ s) = ap (◌∷◌ c) (strip_last-append b (d ∷ s))

pub strip_last-Lacks : (b : ℕ) (s : Bytes) → Lacks b s → strip_last b s ≡ s
unfolding strip_last
strip_last-Lacks b [] h = refl
strip_last-Lacks b (c ∷ []) h = ground arith
strip_last-Lacks b (c ∷ d ∷ s) h = ap (◌∷◌ c) (strip_last-Lacks b (d ∷ s) h.1)

-- The lines of a binary stream, each with its line feed.
unfoldable pub raw_lines : Bytes → List Bytes
raw_lines [] = []
raw_lines (c ∷ s) =
    let rest = raw_lines s in if c == b'\n' then (c ∷ []) ∷ rest else cons_head c rest

pub raw_lines_first :
    (r s : Bytes) → Lacks b'\n' r → raw_lines (r ++ b'\n' ∷ s) ≡ (r ++ b'\n' ∷ []) ∷ raw_lines s
unfolding raw_lines
raw_lines_first [] s h = refl
raw_lines_first (c ∷ r) s h = ground (arith, raw_lines_first r s)

-- `b in bs`
abbrev pub mem : Bytes → List Bytes → Bool
mem p [] = false
mem p (q ∷ qs) = bytes_eq q p || mem p qs

abbrev pub Distinct : List Bytes → Type 0
Distinct [] = Unit
Distinct (p ∷ ps) = (mem p ps ≡ false) × Distinct ps

pub bytes_eq_sym : (s t : Bytes) → bytes_eq s t ≡ bytes_eq t s
unfolding bytes_eq
bytes_eq_sym [] [] = refl
bytes_eq_sym [] (d ∷ t) = refl
bytes_eq_sym (c ∷ s) [] = refl
bytes_eq_sym (c ∷ s) (d ∷ t) = ground (arith, bytes_eq_sym s t)
