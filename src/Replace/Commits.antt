-- ===== src/Replace/Commits.antt =====
-- `commit_replace_targets` as a transaction over the files.
use ferricov.Base.{Bool, List, Option, Bool-cases, inl, inr}
use ferricov.Base.Bytes.{Bytes}
use ferricov.Replace.Store.{Node, Move, Store}
use ferricov.Replace.Commit.{
  Step, making_backup, roll_back, outside, drop_backup, commit_replace_targets,
}
use ferricov.Replace.Keeps.{Ends, Ends-settle}
use ferricov.Replace.Phases.{phases}

module _ (raises : Step → Bool) (fault : Bytes) (moves : List Move)
    (files : Bytes → Option Node) where
  pub commit_replace_targets-Ends :
      (P R : Store → Type 0)
      → R (outside files)
      → Ends
          (λ s. P (drop_backup s))
          (λ s. R (roll_back raises s))
          (phases raises fault moves files)
      → Ends P R (commit_replace_targets raises fault moves files)
  unfolding commit_replace_targets
  commit_replace_targets-Ends P R early late = elim (Bool-cases (raises making_backup)) [
    | inl fails ↦ rw fails early
    | inr works ↦ rw works (Ends-settle P R raises (phases raises fault moves files) late)
  ]
