-- ===== src/Replace/Loses.antt =====
-- What becomes of a target whose restoring fails.
use ferricov.Base.{
  ◌≡◌, refl, sym, ◌∙◌, subst, Bool, true, false, not, ◌&&◌, List, [], ◌∷◌, Option, none, some,
  Bool-cases, Option-cases, inl, inr,
}
use ferricov.Base.Bytes.{Bytes, bytes_eq, bytes_eq→eq, mem, Distinct}
use ferricov.Replace.Store.{Node, occupied, Move, Store}
use ferricov.Replace.Commit.{
  Step, clear, clearing, move_back, restore, removing, restoring, raised, remove_all, restore_all,
  roll_back, commit_replace_targets,
}
use ferricov.Replace.Rollback.{
  finals_of, IsVacant, remove_all-kept, restore-files_other, restore_vacant, restore-IsVacant,
}
use ferricov.Replace.Keeps.{srcs, Ends-lift, Ends-raised, IsKept}
use ferricov.Replace.Restores.{removed-empty, removed-IsVacant}
use ferricov.Replace.Phases.{IsSeparate, phases, phases-IsKept}
use ferricov.Replace.Commits.{commit_replace_targets-Ends}

module _ (raises : Step → Bool) where
  move_back-backed :
      (o : Option Node) (b : Bytes × Bytes) (s : Store) → (move_back raises o b s).backed ≡ s.backed
  unfolding move_back
  move_back-backed none (name, p) s = refl
  move_back-backed (some n) (name, p) s = elim (Bool-cases (raises (restoring p))) [
    | inl fails ↦ rw fails refl
    | inr works ↦ rw works refl
  ]

  clear-backed : (p : Bytes) (s : Store) → (clear raises p s).backed ≡ s.backed
  clear-backed p s = elim (Bool-cases (occupied (s.files p) && not (raises (clearing p)))) [
    | inl standing ↦ rw standing refl
    | inr empty ↦ rw empty refl
  ]

  restore-backed : (b : Bytes × Bytes) (s : Store) → (restore raises b s).backed ≡ s.backed
  unfolding restore
  restore-backed (name, p) s =
      move_back-backed (s.kept name) (name, p) (clear raises p s) ∙ clear-backed p s

  restore_all-backed :
      (bs : List (Bytes × Bytes)) (s : Store) → (restore_all raises bs s).backed ≡ s.backed
  unfolding restore_all
  restore_all-backed [] s = refl
  restore_all-backed (b ∷ bs) s = restore_all-backed bs (restore raises b s) ∙ restore-backed b s

  restore-files_failed :
      (name p q : Bytes) (s : Store)
      → raises (restoring q) ≡ true
      → s.files p ≡ none
      → s.files q ≡ none
      → (restore raises (name, p) s).files q ≡ none
  unfolding move_back
  restore-files_failed name p q s fails vacant empty = elim (Bool-cases (bytes_eq p q)) [
    | inl same ↦ alone (bytes_eq→eq p q same)
    | inr differ ↦ restore-files_other raises name p s vacant q differ ∙ empty
  ]
    where
      alone : p ≡ q → (restore raises (name, p) s).files q ≡ none
      alone e =
          let stuck : raises (restoring p) ≡ true =
            subst (λ r. raises (restoring r) ≡ true) (sym e) fails in
          elim (Option-cases (s.kept name)) [
            | inl h ↦ rw (restore_vacant raises name p s vacant, h) empty
            | inr (n, h) ↦ rw (restore_vacant raises name p s vacant, h, stuck) empty
          ]

  restore_all-failed :
      (bs : List (Bytes × Bytes)) (s : Store) (q : Bytes)
      → Distinct (finals_of bs)
      → IsVacant s bs
      → raises (restoring q) ≡ true
      → s.files q ≡ none
      → (restore_all raises bs s).files q ≡ none
  unfolding restore_all
  restore_all-failed [] s q distinct vacant fails empty = empty
  restore_all-failed ((name, p) ∷ bs) s q (apart, distinct) (v, vacant) fails empty =
      restore_all-failed bs (restore raises (name, p) s) q distinct
        (restore-IsVacant raises name p s v bs apart vacant) fails
        (restore-files_failed name p q s fails v empty)

module _ (raises : Step → Bool) (fault : Bytes) (moves : List Move) (files : Bytes → Option Node)
    (apart : IsSeparate moves) where
  -- When the rollback cannot move a backed-up target back, `commit_replace_targets` still deletes the
  -- backup, so the target is left with nothing at its path and nothing in the backup: for moves with
  -- different names, targets and sources, when what was installed can be removed.
  pub commit_replace_targets-loses :
      ((p : Bytes) → raises (removing p) ≡ false)
      → (step : Step) (t : Store) (p name : Bytes)
      → commit_replace_targets raises fault moves files ≡ raised step t
      → mem p (finals_of t.backed) ≡ true
      → raises (restoring p) ≡ true
      → (t.files p ≡ none) × (t.kept name ≡ none) × (t.backup ≡ false)
  commit_replace_targets-loses removes step t p name failed backed fails =
      let Lost = λ (t : Store).
        mem p (finals_of t.backed) ≡ true
        → (t.files p ≡ none) × (t.kept name ≡ none) × (t.backup ≡ false) in
      Ends-raised (λ t. Unit {0}) Lost (commit_replace_targets raises fault moves files) step t
        (commit_replace_targets-Ends raises fault moves files (λ t. Unit {0}) Lost (λ here. (cc))
          (Ends-lift (λ t. Unit {0}) (λ t. Unit {0}) (IsKept files (srcs moves))
            (λ s. Lost (roll_back raises s)) (phases raises fault moves files) (λ s h. h)
            (λ s k here.
              (lost s k (subst (λ bs. mem p (finals_of bs) ≡ true) (still s) here), refl, refl))
            (phases-IsKept raises fault moves files apart)))
        failed backed
    where
      lost :
          (s : Store) (k : IsKept files (srcs moves) s)
          → mem p (finals_of s.backed) ≡ true
          → (roll_back raises s).files p ≡ none
      lost s k here =
          restore_all-failed raises s.backed (remove_all raises s.installed s) p k.distinct_finals
            (removed-IsVacant raises removes files (srcs moves) s k) fails
            (removed-empty raises removes files (srcs moves) s k p here)

      still : (s : Store) → (roll_back raises s).backed ≡ s.backed
      still s =
          let (_, same) = remove_all-kept raises s.installed s in
          restore_all-backed raises s.backed (remove_all raises s.installed s) ∙ same
