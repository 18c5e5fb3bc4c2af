-- ===== src/Base/Sets.antt =====
-- Python's sets of strings, and `==` on dictionaries.
use mathlib.Core.Path.{◌≡◌, ◌∙◌, subst}
use mathlib.Core.Bool.{Bool, true, false, ◌&&◌, ◌||◌}
use mathlib.Core.Option.{some}
use mathlib.Core.Logic.{inl, inr}
use mathlib.Core.List.{List, [], ◌∷◌, map}
use native.Mathlib.Omega.{arith}
use ferricov.Base.Tests.{◌==◌, Bool-cases}
use ferricov.Base.Lists.{length, all}
use ferricov.Base.Bytes.{Bytes, bytes_eq, bytes_eq→eq, mem}
use ferricov.Base.Same.{Same, same, same→eq, option_same}
use ferricov.Base.Dict.{get}

-- `len(l) != len(set(l))`
abbrev pub has_repeat : List Bytes → Bool
has_repeat [] = false
has_repeat (s ∷ ss) = mem s ss || has_repeat ss

-- `set(xs) <= set(ys)`
unfoldable pub subset : List Bytes → List Bytes → Bool
subset xs ys = all (λ x. mem x ys) xs

-- `set(xs) == set(ys)`
unfoldable pub set_eq : List Bytes → List Bytes → Bool
unfolding subset
set_eq xs ys = subset xs ys && subset ys xs

abbrev pub keys {ℓ} : {V : Type ℓ} → List (Bytes × V) → List Bytes
keys d = map (λ item. item.0) d

-- `set(d) == set(e)`
abbrev pub keys_eq {ℓ κ} : {V : Type ℓ} {W : Type κ} → List (Bytes × V) → List (Bytes × W) → Bool
keys_eq d e = set_eq (keys d) (keys e)

-- `d == e`, on dictionaries
unfoldable pub dict_eq {ℓ} : {V : Type ℓ} ⦃s : Same V⦄ → List (Bytes × V) → List (Bytes × V) → Bool
dict_eq d e = (length d == length e) && all (λ item. same (get item.0 e) (some item.1)) d

pub both : {a b : Bool} → (a && b) ≡ true → (a ≡ true) × (b ≡ true)
both h = ground arith

all-get {ℓ} :
    {V : Type ℓ} ⦃s : Same V⦄ (d e : List (Bytes × V)) (k : Bytes) {v : V}
    → all (λ item. same (get item.0 e) (some item.1)) d ≡ true
    → get k d ≡ some v
    → get k e ≡ some v
unfolding get
all-get [] e k h found = cc
all-get ⦃s⦄ ((j, w) ∷ d) e k {v} h found =
    let (here, others) = both {a = same (get j e) (some w)} h in
    elim (Bool-cases (bytes_eq j k)) [
      | inl there ↦
          subst (λ (i : Bytes). get i e ≡ some v) (bytes_eq→eq j k there)
            (same→eq (get j e) (some w) here ∙ (rw there at found))
      | inr elsewhere ↦ all-get d e k others (rw elsewhere at found)
    ]

pub dict_eq-get {ℓ} :
    {V : Type ℓ} ⦃s : Same V⦄ (d e : List (Bytes × V)) (k : Bytes) {v : V}
    → dict_eq d e ≡ true
    → get k d ≡ some v
    → get k e ≡ some v
unfolding dict_eq
dict_eq-get ⦃s⦄ d e k h found = all-get d e k (both {a = length d == length e} h).1 found
