-- ===== src/Base/Order.antt =====
-- The order of Python's strings and bytes.
use ferricov.Base.Tests.{ltb, ◌==◌}
use mathlib.Core.Path.{◌≡◌, refl}
use mathlib.Core.Bool.{Bool, true, false, ◌&&◌, ◌||◌}
use mathlib.Core.List.{[], ◌∷◌}
use native.Mathlib.Omega.{arith}
use ferricov.Base.Bytes.{Bytes, bytes_eq}

-- `s < t`, by code points
unfoldable pub bytes_lt : Bytes → Bytes → Bool
bytes_lt s [] = false
bytes_lt [] (d ∷ t) = true
bytes_lt (c ∷ s) (d ∷ t) = ltb c d || ((c == d) && bytes_lt s t)

pub bytes_lt_asym : (s t : Bytes) → bytes_lt s t ≡ true → bytes_lt t s ≡ false
unfolding bytes_lt
bytes_lt_asym s [] h = cc
bytes_lt_asym [] (d ∷ t) h = refl
bytes_lt_asym (c ∷ s) (d ∷ t) h = ground (arith, bytes_lt_asym s t)

pub bytes_lt_trans :
    (s t u : Bytes) → bytes_lt s t ≡ true → bytes_lt t u ≡ true → bytes_lt s u ≡ true
unfolding bytes_lt
bytes_lt_trans s t [] h k = cc
bytes_lt_trans s [] (e ∷ u) h k = cc
bytes_lt_trans [] (d ∷ t) (e ∷ u) h k = refl
bytes_lt_trans (c ∷ s) (d ∷ t) (e ∷ u) h k = ground (arith, bytes_lt_trans s t u)

pub bytes_lt_total :
    (s t : Bytes) → bytes_lt t s ≡ false → bytes_eq s t ≡ false → bytes_lt s t ≡ true
unfolding bytes_lt bytes_eq
bytes_lt_total [] [] h k = cc
bytes_lt_total (c ∷ s) [] h k = cc
bytes_lt_total [] (d ∷ t) h k = refl
bytes_lt_total (c ∷ s) (d ∷ t) h k = ground (arith, bytes_lt_total s t)

pub lt-bytes_eq : (s t : Bytes) → bytes_lt s t ≡ true → bytes_eq t s ≡ false
unfolding bytes_lt bytes_eq
lt-bytes_eq s [] h = cc
lt-bytes_eq [] (d ∷ t) h = refl
lt-bytes_eq (c ∷ s) (d ∷ t) h = ground (arith, lt-bytes_eq s t)
