-- ===== src/Replace/Rollback.antt =====
-- What the `except` clause of `commit_replace_targets` restores when its own operations do not fail.
use ferricov.Base.{
  ◌≡◌, refl, sym, ◌∙◌, Bool, true, false, List, [], ◌∷◌, Option, none, map, if◌then◌else◌,
  Bool-cases, Option-cases, inl, inr, All, arith,
}
use ferricov.Base.Bytes.{Bytes, bytes_eq, bytes_eq_refl, bytes_eq→eq, bytes_eq_sym, mem, Distinct}
use ferricov.Replace.Store.{Node, occupied, exists, is_symlink, landed, Store, write}
use ferricov.Replace.Commit.{
  Step, removing, restoring, remove, remove_all, restore, restore_all, move_back,
}

abbrev pub name_of : Bytes × Bytes → Bytes
name_of (name, p) = name

abbrev pub final_of : Bytes × Bytes → Bytes
final_of (name, p) = p

abbrev pub finals_of : List (Bytes × Bytes) → List Bytes
finals_of = map final_of

abbrev pub names_of : List (Bytes × Bytes) → List Bytes
names_of = map name_of

-- What the backup holds of every path, and that the paths are vacant.
abbrev pub IsHeld : (Bytes → Option Node) → Store → List (Bytes × Bytes) → Type 0
IsHeld old s bs = All (λ b. s.kept (name_of b) ≡ old (final_of b)) bs

abbrev pub IsVacant : Store → List (Bytes × Bytes) → Type 0
IsVacant s bs = All (λ b. s.files (final_of b) ≡ none) bs

module _ (raises : Step → Bool) where
  pub remove_all-files :
      ((p : Bytes) → raises (removing p) ≡ false)
      → (ps : List Bytes) (s : Store) (p : Bytes)
      → (remove_all raises ps s).files p ≡ (if mem p ps then none else s.files p)
  unfolding remove_all remove write
  remove_all-files works [] s p = refl
  remove_all-files works (q ∷ ps) s p =
      rw (remove_all-files works ps (remove raises q s) p, works q) ground arith

  remove-kept :
      (q : Bytes) (s : Store)
      → ((remove raises q s).kept ≡ s.kept) × ((remove raises q s).backed ≡ s.backed)
  unfolding remove
  remove-kept q s = elim (Bool-cases (raises (removing q))) [
    | inl fails ↦ rw fails (refl, refl)
    | inr works ↦ rw works (refl, refl)
  ]

  pub remove_all-kept :
      (ps : List Bytes) (s : Store)
      → ((remove_all raises ps s).kept ≡ s.kept) × ((remove_all raises ps s).backed ≡ s.backed)
  unfolding remove_all
  remove_all-kept [] s = (refl, refl)
  remove_all-kept (q ∷ ps) s =
      let (kept, backed) = remove_all-kept ps (remove raises q s) in
      let (kept', backed') = remove-kept q s in (kept ∙ kept', backed ∙ backed')

  -- One target comes back where nothing stands; no other path and no other entry of the backup is touched.
  module _ (name p : Bytes) (s : Store) (vacant : s.files p ≡ none) where
    pub restore_vacant : restore raises (name, p) s ≡ move_back raises (s.kept name) (name, p) s
    unfolding restore occupied exists is_symlink
    restore_vacant = rw vacant refl

    pub restore-files_same :
        raises (restoring p) ≡ false → (restore raises (name, p) s).files p ≡ s.kept name
    unfolding move_back landed
    restore-files_same works = elim (Option-cases (s.kept name)) [
      | inl e ↦ rw (restore_vacant, e, vacant) refl
      | inr (n, e) ↦ rw (restore_vacant, e, works, vacant, bytes_eq_refl p) refl
    ]

    pub restore-files_other :
        (q : Bytes) → bytes_eq p q ≡ false → (restore raises (name, p) s).files q ≡ s.files q
    unfolding move_back write
    restore-files_other q ne = elim (Option-cases (s.kept name)) [
      | inl e ↦ rw (restore_vacant, e) refl
      | inr (n, e) ↦ elim (Bool-cases (raises (restoring p))) [
        | inl fails ↦ rw (restore_vacant, e, fails) refl
        | inr works ↦ rw (restore_vacant, e, works, ne) refl
      ]
    ]

    pub restore-kept_other :
        (other : Bytes)
        → bytes_eq name other ≡ false
        → (restore raises (name, p) s).kept other ≡ s.kept other
    unfolding move_back write
    restore-kept_other other ne = elim (Option-cases (s.kept name)) [
      | inl e ↦ rw (restore_vacant, e) refl
      | inr (n, e) ↦ elim (Bool-cases (raises (restoring p))) [
        | inl fails ↦ rw (restore_vacant, e, fails) refl
        | inr works ↦ rw (restore_vacant, e, works, ne) refl
      ]
    ]

  module _ (name p : Bytes) (s : Store) (vacant : s.files p ≡ none) where
    restore-IsHeld :
        (old : Bytes → Option Node) (bs : List (Bytes × Bytes))
        → mem name (names_of bs) ≡ false
        → IsHeld old s bs
        → IsHeld old (restore raises (name, p) s) bs
    restore-IsHeld old [] fresh h = tt
    restore-IsHeld old ((other, q) ∷ bs) fresh (held, h) = (
      restore-kept_other name p s vacant other (rw (bytes_eq_sym name other) ground arith) ∙ held,
      restore-IsHeld old bs (ground arith) h,
    )

    pub restore-IsVacant :
        (bs : List (Bytes × Bytes))
        → mem p (finals_of bs) ≡ false
        → IsVacant s bs
        → IsVacant (restore raises (name, p) s) bs
    restore-IsVacant [] fresh h = tt
    restore-IsVacant ((other, q) ∷ bs) fresh (empty, h) = (
      restore-files_other name p s vacant q (rw (bytes_eq_sym p q) ground arith) ∙ empty,
      restore-IsVacant bs (ground arith) h,
    )

  pub restore_all-files_other :
      (bs : List (Bytes × Bytes)) (s : Store)
      → Distinct (finals_of bs)
      → IsVacant s bs
      → (q : Bytes) → mem q (finals_of bs) ≡ false
      → (restore_all raises bs s).files q ≡ s.files q
  unfolding restore_all
  restore_all-files_other [] s distinct empty q fresh = refl
  restore_all-files_other ((name, p) ∷ bs) s (apart, distinct) (vacant, empty) q fresh =
      restore_all-files_other bs (restore raises (name, p) s) distinct
        (restore-IsVacant name p s vacant bs apart empty) q (ground arith)
      ∙ restore-files_other name p s vacant q (ground arith)

  pub restore_all-files :
      (old : Bytes → Option Node)
      → ((p : Bytes) → raises (restoring p) ≡ false)
      → (bs : List (Bytes × Bytes)) (s : Store) → Distinct (names_of bs)
      → Distinct (finals_of bs)
      → IsHeld old s bs
      → IsVacant s bs
      → (q : Bytes) → mem q (finals_of bs) ≡ true
      → (restore_all raises bs s).files q ≡ old q
  unfolding restore_all
  restore_all-files old works [] s names finals held empty q here = cc
  restore_all-files old works ((name, p) ∷ bs) s (fresh, names) (apart, finals) (h, held)
        (vacant, empty) q here =
      let next = restore raises (name, p) s in
      elim (Bool-cases (bytes_eq p q)) [
        | inl same ↦ rw (sym (bytes_eq→eq p q same)) (
            restore_all-files_other bs next finals (restore-IsVacant name p s vacant bs apart empty)
              p apart
            ∙ restore-files_same name p s vacant (works p)
            ∙ h)
        | inr differ ↦
            restore_all-files old works bs next names finals
              (restore-IsHeld name p s vacant old bs fresh held)
              (restore-IsVacant name p s vacant bs apart empty) q (ground arith)
      ]
