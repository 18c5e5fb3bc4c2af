-- ===== src/Replace/Commit.antt =====
-- `_inject_replace_fault` and `commit_replace_targets` of compat/installation/wave2/recapture.py.
use ferricov.Base.{
  Bool, true, false, not, ◌&&◌, List, [], ◌∷◌, ◌++◌, Option, none, some, if◌then◌else◌,
}
use ferricov.Base.Bytes.{Bytes, bytes_eq}
use ferricov.Replace.Store.{Node, exists, occupied, landed, Move, Store, write}

-- The operations that may raise, each with the name or the path it is about.
pub data Step : Type 0 where
  making_backup : Step
  backing injecting finding_source making_parent installing : Bytes → Step
  removing clearing restoring : Bytes → Step

-- A run that returned, or raised at a step.
pub data Ran : Type 0 where
  went : Store → Ran
  raised : Step → Store → Ran

infixl 5 ◌then_run◌
abbrev pub ◌then_run◌ : Ran → (Store → Ran) → Ran
went s then_run k = k s
raised e s then_run k = raised e s

-- shutil.rmtree(backup, ignore_errors=True)
abbrev pub drop_backup : Store → Store
drop_backup s = record s { kept = λ name. none; backup = false }

abbrev pub with_files : (Bytes → Option Node) → Store → Store
with_files files s = record s { files = files }

abbrev pub report : Bytes → Store → Store
report p s = record s { reported = s.reported ++ p ∷ [] }

-- The state as the `try` finds it: an empty backup directory and empty lists.
abbrev pub entered : (Bytes → Option Node) → Store
entered files = record {
  files = files;
  kept = λ name. none;
  backup = true;
  backed = [];
  installed = [];
  reported = [];
}

abbrev pub outside : (Bytes → Option Node) → Store
outside files = record {
  files = files;
  kept = λ name. none;
  backup = false;
  backed = [];
  installed = [];
  reported = [];
}

-- `_inject_replace_fault`, where `fault` is the stripped text of FERRICOV_WAVE2_REPLACE_FAULT
unfoldable pub injects : Bytes → Bytes → Bool
unfolding bytes_eq
injects fault boundary = not (bytes_eq fault []) && bytes_eq fault boundary

module _ (raises : Step → Bool) where
  abbrev pub attempt : Step → Store → Store → Ran
  attempt e before after = if raises e then raised e before else went after

  -- Phase 1, for one target: it is moved into the backup when its path is `occupied`, which any node makes it.
  unfoldable pub back_up_node : Option Node → Move → Store → Ran
  unfolding write landed
  back_up_node none m s = went s
  back_up_node (some n) m s = attempt (backing m.name) s record s {
    files = write m.final none s.files;
    kept = write m.name (some (landed n (s.kept m.name))) s.kept;
    backed = s.backed ++ (m.name, m.final) ∷ [];
  }

  abbrev pub back_up : Move → Store → Ran
  back_up m s = back_up_node (s.files m.final) m s

  unfoldable pub back_up_all : List Move → Store → Ran
  back_up_all [] s = went s
  back_up_all (m ∷ ms) s = back_up m s then_run λ t. back_up_all ms t

  -- Phase 2, for one target; the last step is `shutil.move(src, final)`.
  unfoldable pub land_node : Option Node → Move → Store → Ran
  unfolding write landed
  land_node none m s = raised (finding_source m.src) s
  land_node (some n) m s = attempt (installing m.final) s record s {
    files = write m.src none (write m.final (some (landed n (s.files m.final))) s.files);
    installed = m.final ∷ s.installed;
  }

  -- The removal of an installed target; an OSError is passed over.
  unfoldable pub remove : Bytes → Store → Store
  unfolding write
  remove p s = if raises (removing p) then s else with_files (write p none s.files) s

  -- `installed` holds the newest path first, as `reversed(installed)` gives it.
  unfoldable pub remove_all : List Bytes → Store → Store
  remove_all [] s = s
  remove_all (p ∷ ps) s = remove_all ps (remove p s)

  abbrev pub clear : Bytes → Store → Store
  clear p s =
      if occupied (s.files p) && not (raises (clearing p))
      then with_files (write p none s.files) s
      else s

  -- shutil.move(bak, final): a source that is not there is an OSError as well
  unfoldable pub move_back : Option Node → Bytes × Bytes → Store → Store
  unfolding write landed
  move_back none (name, p) s = report p s
  move_back (some n) (name, p) s = if raises (restoring p) then report p s else record s {
    files = write p (some (landed n (s.files p))) s.files;
    kept = write name none s.kept;
  }

  unfoldable pub restore : Bytes × Bytes → Store → Store
  unfolding occupied write
  restore (name, p) s = move_back (s.kept name) (name, p) (clear p s)

  unfoldable pub restore_all : List (Bytes × Bytes) → Store → Store
  restore_all [] s = s
  restore_all (b ∷ bs) s = restore_all bs (restore b s)

  abbrev pub roll_back : Store → Store
  roll_back s = drop_backup (restore_all s.backed (remove_all s.installed s))

  -- The `except` clause: roll back, and raise again.
  abbrev pub settle : Ran → Ran
  settle (went s) = went (drop_backup s)
  settle (raised e s) = raised e (roll_back s)

  module _ (fault : Bytes) where
    unfoldable pub install : Move → Store → Ran
    unfolding injects exists
    install m s =
        if injects fault m.name
        then raised (injecting m.name) s
        else if not (exists (s.files m.src))
        then raised (finding_source m.src) s
        else attempt (making_parent m.final) s s then_run λ t. land_node (t.files m.src) m t

    unfoldable pub install_all : List Move → Store → Ran
    install_all [] s = went s
    install_all (m ∷ ms) s = install m s then_run λ t. install_all ms t

    unfoldable pub commit_replace_targets : List Move → (Bytes → Option Node) → Ran
    commit_replace_targets moves files =
        attempt making_backup (outside files) (entered files) then_run λ s.
        settle (back_up_all moves s then_run λ t. install_all moves t)
