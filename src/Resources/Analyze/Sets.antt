-- ===== src/Resources/Analyze/Sets.antt =====
-- The sets of keys in `analyze_input`: adding the keys of a numbered family, one after another.
use ferricov.Base.{
  ℕ, suc, ◌<◌, ◌≡◌, ◌≢◌, refl, sym, ap, ◌∙◌, true, false, List, [], ◌∷◌, arith, All, length,
  Bool-cases, inl, inr,
}
use ferricov.Base.Bytes.{bytes_eq→eq, bytes_eq_refl}
use ferricov.Resources.Analyze.{Key, key_eq, member, add}

pub key_eq→eq : (k l : Key) → key_eq k l ≡ true → k ≡ l
unfolding key_eq
key_eq→eq [] [] h = refl
key_eq→eq [] (b ∷ l) h = cc
key_eq→eq (a ∷ k) [] h = cc
key_eq→eq (a ∷ k) (b ∷ l) h = ground (arith, bytes_eq→eq a b, key_eq→eq k l)

pub key_eq_refl : (k : Key) → key_eq k k ≡ true
unfolding key_eq
key_eq_refl [] = refl
key_eq_refl (a ∷ k) = rw (bytes_eq_refl a) (key_eq_refl k)

pub member_fresh : (k : Key) (ks : List Key) → All (λ l. l ≢ k) ks → member k ks ≡ false
unfolding member
member_fresh k [] h = refl
member_fresh k (l ∷ ls) (ne, h) = elim (Bool-cases (key_eq k l)) [
  | inl same ↦ absurd (ne (sym (key_eq→eq k l same)))
  | inr differ ↦ rw differ (member_fresh k ls h)
]

pub member-add : (k : Key) (ks : List Key) → member k (add k ks) ≡ true
unfolding add member
member-add k ks = elim (Bool-cases (member k ks)) [
  | inl old ↦ rw old old
  | inr new ↦ rw (new, key_eq_refl k)
]

add-member : (k : Key) (ks : List Key) → member k ks ≡ true → add k ks ≡ ks
unfolding add
add-member k ks h = rw h

-- A second `add` of a key changes nothing.
pub add_again : (k : Key) (ks : List Key) → add k (add k ks) ≡ add k ks
add_again k ks = add-member k (add k ks) (member-add k ks)

pub add_fresh : (k : Key) (ks : List Key) → All (λ l. l ≢ k) ks → add k ks ≡ k ∷ ks
unfolding add
add_fresh k ks h = rw (member_fresh k ks h)

module _ (key : ℕ → Key) where
  abbrev pub IsBelow : ℕ → Key → Type 0
  IsBelow n k = (j : ℕ) × (j < n) × (k ≡ key j)

  -- The set holds the first `n` keys of the family, and as many members.
  pub record Holds (n : ℕ) (ks : List Key) : Type 0 where
    pub size : length ks ≡ n
    pub below : All (IsBelow n) ks

  weaken : (n : ℕ) (ks : List Key) → All (IsBelow n) ks → All (IsBelow (suc n)) ks
  weaken n [] h = tt
  weaken n (k ∷ ks) ((j, lt, e), h) = ((j, omega arith, e), weaken n ks h)

  fresh :
      ((i j : ℕ) → key i ≡ key j → i ≡ j)
      → (n : ℕ) (ks : List Key) → All (IsBelow n) ks
      → All (λ l. l ≢ key n) ks
  fresh inj n [] h = tt
  fresh inj n (k ∷ ks) ((j, lt, e), h) =
      ((λ same. let q : j ≡ n = inj j n (sym e ∙ same) in omega arith), fresh inj n ks h)

  pub Holds-nil : Holds 0 []
  Holds-nil = record { size = refl; below = tt }

  pub Holds-add :
      ((i j : ℕ) → key i ≡ key j → i ≡ j)
      → (n : ℕ) (ks : List Key) → Holds n ks
      → Holds (suc n) (add (key n) ks)
  Holds-add inj n ks h =
      rw (add_fresh (key n) ks (fresh inj n ks h.below))
        (record { size = ap suc h.size; below = ((n, omega arith, refl), weaken n ks h.below) })
