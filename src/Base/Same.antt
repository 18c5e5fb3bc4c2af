-- ===== src/Base/Same.antt =====
-- Python's `==` on tuples, lists and None, built up from the equality of byte strings.
use mathlib.Core.Path.{◌≡◌, refl, ap}
use mathlib.Core.Bool.{Bool, true, false, ◌&&◌}
use mathlib.Core.Option.{Option, none, some}
use mathlib.Core.List.{List, [], ◌∷◌}
use native.Mathlib.Omega.{arith}
use ferricov.Base.Bytes.{Bytes, bytes_eq, bytes_eq_refl, bytes_eq→eq}

-- A test with its two laws.
pub record Same {ℓ} (A : Type ℓ) : Type ℓ where
  pub test : A → A → Bool
  pub test_refl : (a : A) → test a a ≡ true
  pub test→eq : (a b : A) → test a b ≡ true → a ≡ b

abbrev pub same {ℓ} : {A : Type ℓ} ⦃s : Same A⦄ → A → A → Bool
same ⦃s⦄ = s.test

pub same_refl {ℓ} : {A : Type ℓ} ⦃s : Same A⦄ (a : A) → same a a ≡ true
same_refl ⦃s⦄ a = s.test_refl a

pub same→eq {ℓ} : {A : Type ℓ} ⦃s : Same A⦄ (a b : A) → same a b ≡ true → a ≡ b
same→eq ⦃s⦄ a b h = s.test→eq a b h

instance abbrev pub bytes_same : Same Bytes
bytes_same = record { test = bytes_eq; test_refl = bytes_eq_refl; test→eq = bytes_eq→eq }

module _ {ℓ κ} {A : Type ℓ} {B : Type κ} ⦃s : Same A⦄ ⦃t : Same B⦄ where
  abbrev pub pair_test : A × B → A × B → Bool
  pair_test (a, b) (c, d) = s.test a c && t.test b d

  pub pair→eq : (p q : A × B) → pair_test p q ≡ true → p ≡ q
  pair→eq (a, b) (c, d) h =
      let e = s.test→eq a c (ground arith) in let f = t.test→eq b d (ground arith) in cc

  pub pair_refl : (p : A × B) → pair_test p p ≡ true
  pair_refl (a, b) = rw (s.test_refl a) (t.test_refl b)

  instance abbrev pub pair_same : Same (A × B)
  pair_same = record { test = pair_test; test_refl = pair_refl; test→eq = pair→eq }

module _ {ℓ} {A : Type ℓ} ⦃s : Same A⦄ where
  abbrev pub option_test : Option A → Option A → Bool
  option_test none none = true
  option_test (some a) (some b) = s.test a b
  option_test _ _ = false

  pub option→eq : (o p : Option A) → option_test o p ≡ true → o ≡ p
  option→eq none none h = refl
  option→eq (some a) (some b) h = ap some (s.test→eq a b h)
  option→eq _ _ h = cc

  pub option_refl : (o : Option A) → option_test o o ≡ true
  option_refl none = refl
  option_refl (some a) = s.test_refl a

  instance abbrev pub option_same : Same (Option A)
  option_same = record { test = option_test; test_refl = option_refl; test→eq = option→eq }

  unfoldable pub list_test : List A → List A → Bool
  list_test [] [] = true
  list_test (a ∷ xs) (b ∷ ys) = s.test a b && list_test xs ys
  list_test _ _ = false

  pub list→eq : (xs ys : List A) → list_test xs ys ≡ true → xs ≡ ys
  unfolding list_test
  list→eq [] [] h = refl
  list→eq (a ∷ xs) (b ∷ ys) h =
      let e = s.test→eq a b (ground arith) in let es = list→eq xs ys (ground arith) in cc
  list→eq _ _ h = cc

  pub list_refl : (xs : List A) → list_test xs xs ≡ true
  unfolding list_test
  list_refl [] = refl
  list_refl (a ∷ xs) = rw (s.test_refl a) (list_refl xs)

  instance abbrev pub list_same : Same (List A)
  list_same = record { test = list_test; test_refl = list_refl; test→eq = list→eq }

-- A test through an injection.
abbrev pub along {ℓ κ} :
    {A : Type ℓ} {B : Type κ} (s : Same B) (f : A → B) → ((a b : A) → f a ≡ f b → a ≡ b) → Same A
along s f inj = record {
  test = λ a b. s.test (f a) (f b);
  test_refl = λ a. s.test_refl (f a);
  test→eq = λ a b h. inj a b (s.test→eq (f a) (f b) h);
}

abbrev pub triple : Bytes × Bytes × Bytes → List Bytes
triple (a, b, c) = a ∷ b ∷ c ∷ []

pub triple_injective : (p q : Bytes × Bytes × Bytes) → triple p ≡ triple q → p ≡ q
triple_injective (a, b, c) (d, e, f) h = cc

abbrev pub quadruple : Bytes × Bytes × Bytes × Bytes → List Bytes
quadruple (a, b, c, d) = a ∷ b ∷ c ∷ d ∷ []

pub quadruple_injective : (p q : Bytes × Bytes × Bytes × Bytes) → quadruple p ≡ quadruple q → p ≡ q
quadruple_injective (a, b, c, d) (e, f, g, i) h = cc

abbrev pub sextuple : Bytes × Bytes × Bytes × Bytes × Bytes × Bytes → List Bytes
sextuple (a, b, c, d, e, f) = a ∷ b ∷ c ∷ d ∷ e ∷ f ∷ []

pub sextuple_injective :
    (p q : Bytes × Bytes × Bytes × Bytes × Bytes × Bytes) → sextuple p ≡ sextuple q → p ≡ q
sextuple_injective (a, b, c, d, e, f) (g, i, j, k, l, m) h = cc

instance abbrev pub triple_same : Same (Bytes × Bytes × Bytes)
triple_same = along list_same triple triple_injective

instance abbrev pub quadruple_same : Same (Bytes × Bytes × Bytes × Bytes)
quadruple_same = along list_same quadruple quadruple_injective

instance abbrev pub sextuple_same : Same (Bytes × Bytes × Bytes × Bytes × Bytes × Bytes)
sextuple_same = along list_same sextuple sextuple_injective
