-- ===== src/Tests/Replace.antt =====
-- Runs of compat/installation/wave2/recapture.py's replacement on three targets.
use ferricov.Base.{◌≡◌, refl, Bool, false, List, [], ◌∷◌, ◌++◌, Option, none, some, if◌then◌else◌}
use ferricov.Base.Bytes.{Bytes, codes, bytes_eq}
use ferricov.Replace.Store.{Node, file, folder, Move, Store}
use ferricov.Replace.Commit.{
  Step, installing, restoring, Ran, went, raised, commit_replace_targets, back_up_all, back_up_node,
  install_all, install, land_node, remove, remove_all, restore, restore_all, move_back,
}
use ferricov.Replace.Phases.{IsSeparate}
use ferricov.Replace.Loses.{commit_replace_targets-loses}

abbrev move : Bytes → Move
move name = record { src = codes "staging/" ++ name; final = codes "wave2/" ++ name; name = name }

abbrev moves : List Move
moves = move (codes "cases") ∷ move (codes "index") ∷ move (codes "lock") ∷ []

-- "wave2/index" is new; the two other targets are there already.
abbrev files : Bytes → Option Node
files p =
    if bytes_eq p (codes "staging/cases")
    then some (folder (codes "new cases"))
    else if bytes_eq p (codes "staging/index")
    then some (file (codes "new index"))
    else if bytes_eq p (codes "staging/lock")
    then some (file (codes "new lock"))
    else if bytes_eq p (codes "wave2/cases")
    then some (folder (codes "old cases"))
    else if bytes_eq p (codes "wave2/lock")
    then some (file (codes "old lock"))
    else none

abbrev state : Ran → Store
state (went s) = s
state (raised e s) = s

abbrev calm : Step → Bool
calm e = false

-- The last target cannot be installed.
abbrev full_disk : Step → Bool
full_disk (installing p) = bytes_eq p (codes "wave2/lock")
full_disk _ = false

-- Nor can the first be moved back.
abbrev broken : Step → Bool
broken (installing p) = bytes_eq p (codes "wave2/lock")
broken (restoring p) = bytes_eq p (codes "wave2/cases")
broken _ = false

moves-IsSeparate : IsSeparate moves
unfolding bytes_eq
moves-IsSeparate = record {
  distinct_names = (refl, (refl, (refl, tt)));
  distinct_finals = (refl, (refl, (refl, tt)));
  distinct_srcs = (refl, (refl, (refl, tt)));
  unstaged = (refl, (refl, (refl, tt)));
}

abbrev failed : Ran
failed = commit_replace_targets full_disk [] moves files

abbrev done : Ran
done = commit_replace_targets calm [] moves files

abbrev stranded : Ran
stranded = commit_replace_targets broken [] moves files

commit_replace_targets-loses_example :
    ((state stranded).files (codes "wave2/cases") ≡ none)
    × ((state stranded).kept (codes "cases") ≡ none)
    × ((state stranded).backup ≡ false)
unfolding commit_replace_targets back_up_all back_up_node install_all install land_node remove_all
    remove restore_all restore move_back bytes_eq
commit_replace_targets-loses_example =
    commit_replace_targets-loses broken [] moves files moves-IsSeparate (λ p. refl)
      (installing (codes "wave2/lock")) (state stranded) (codes "wave2/cases") (codes "cases") refl
      refl refl
