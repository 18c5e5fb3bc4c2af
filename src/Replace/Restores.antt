-- ===== src/Replace/Restores.antt =====
-- Rolling back a state that both phases keep.
use ferricov.Base.{
  ◌≡◌, refl, sym, ◌∙◌, subst, Bool, true, false, List, [], ◌∷◌, Option, none, Bool-cases, inl, inr,
  All, arith,
}
use ferricov.Base.Bytes.{Bytes, bytes_eq_refl, mem}
use ferricov.Replace.Store.{Node, Store}
use ferricov.Replace.Commit.{Step, removing, restoring, remove_all, roll_back}
use ferricov.Replace.Rollback.{
  final_of, name_of, finals_of, IsHeld, IsVacant, remove_all-files, remove_all-kept,
  restore_all-files, restore_all-files_other,
}
use ferricov.Replace.Keeps.{IsKept}

All-finals_of :
    (Q : Bytes → Type 0) (bs : List (Bytes × Bytes))
    → ((p : Bytes) → mem p (finals_of bs) ≡ true → Q p)
    → All (λ b. Q (final_of b)) bs
All-finals_of Q [] h = tt
All-finals_of Q ((name, p) ∷ bs) h =
    (h p (rw (bytes_eq_refl p) refl), All-finals_of Q bs (λ q here. h q (rw here ground arith)))

-- Rolling a kept state back restores every path that was not staged.
module _ (raises : Step → Bool) (removes : (p : Bytes) → raises (removing p) ≡ false)
    (old : Bytes → Option Node) (staged : List Bytes) (s : Store) (k : IsKept old staged s) where
  abbrev pub removed : Store
  removed = remove_all raises s.installed s

  pub removed-empty : (p : Bytes) → mem p (finals_of s.backed) ≡ true → removed.files p ≡ none
  removed-empty p backed =
      remove_all-files raises removes s.installed s p ∙ (elim (Bool-cases (mem p s.installed)) [
        | inl placed ↦ rw placed refl
        | inr missing ↦ rw missing (k.gone p backed missing)
      ])

  pub removed-IsVacant : IsVacant removed s.backed
  removed-IsVacant = All-finals_of (λ p. removed.files p ≡ none) s.backed removed-empty

  removed-IsHeld : IsHeld old removed s.backed
  removed-IsHeld =
      let (same, _) = remove_all-kept raises s.installed s in
      subst (λ kept. All (λ b. kept (name_of b) ≡ old (final_of b)) s.backed) (sym same) k.held

  removed-same :
      (p : Bytes)
      → mem p staged ≡ false
      → mem p (finals_of s.backed) ≡ false
      → removed.files p ≡ old p
  removed-same p unstaged unbacked =
      remove_all-files raises removes s.installed s p ∙ (elim (Bool-cases (mem p s.installed)) [
        | inl placed ↦ rw placed (sym (k.new p placed unbacked))
        | inr missing ↦ rw missing (k.same p unstaged unbacked missing)
      ])

  pub roll_back-restores :
      ((p : Bytes) → raises (restoring p) ≡ false)
      → (p : Bytes) → mem p staged ≡ false
      → (roll_back raises s).files p ≡ old p
  roll_back-restores restores p unstaged = elim (Bool-cases (mem p (finals_of s.backed))) [
    | inl backed ↦
        restore_all-files raises old restores s.backed removed k.distinct_names k.distinct_finals
          removed-IsHeld removed-IsVacant p backed
    | inr unbacked ↦
        restore_all-files_other raises s.backed removed k.distinct_finals removed-IsVacant p
          unbacked
        ∙ removed-same p unstaged unbacked
  ]
