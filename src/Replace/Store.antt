-- ===== src/Replace/Store.antt =====
-- The files that `commit_replace_targets` of compat/installation/wave2/recapture.py moves about.
use ferricov.Base.{
  ◌≡◌, refl, Bool, true, false, ◌||◌, List, Option, none, some, if◌then◌else◌, Bool-cases, inl, inr,
}
use ferricov.Base.Bytes.{Bytes, bytes_eq, bytes_eq_refl}

-- What a path holds. A symbolic link counts by what it leads to; `holding d n` is the directory `d` with
-- `n` moved into it.
pub data Node : Type 0 where
  file folder : Bytes → Node
  dangling file_link folder_link : Bytes → Node
  holding : Node → Node → Node

-- path.exists(), which follows a link
unfoldable pub exists : Option Node → Bool
exists none = false
exists (some (dangling target)) = false
exists (some _) = true

-- path.is_symlink()
unfoldable pub is_symlink : Option Node → Bool
is_symlink (some (dangling target)) = true
is_symlink (some (file_link target)) = true
is_symlink (some (folder_link target)) = true
is_symlink _ = false

unfoldable pub occupied : Option Node → Bool
unfolding exists is_symlink
occupied o = exists o || is_symlink o

-- What the destination holds after shutil.move(source, destination): a directory takes the node into
-- itself, or into the directory its link leads to; anything else is replaced.
unfoldable pub landed : Node → Option Node → Node
landed n (some (folder content)) = holding (folder content) n
landed n (some (holding d k)) = holding (holding d k) n
landed n (some (folder_link target)) = folder_link target
landed n _ = n

-- One entry of `moves`.
pub record Move : Type 0 where
  pub src : Bytes
  pub final : Bytes
  pub name : Bytes

-- `files` is every path outside the backup directory, `kept` the entries of that directory by their name;
-- `backed` (the name in the backup, the final path) and `installed` are the lists the code keeps, and
-- `reported` the paths whose restoring it printed a failure for.
pub record Store : Type 0 where
  pub files : Bytes → Option Node
  pub kept : Bytes → Option Node
  pub backup : Bool
  pub backed : List (Bytes × Bytes)
  pub installed : List Bytes
  pub reported : List Bytes

unfoldable pub write {ℓ} : {A : Type ℓ} → Bytes → A → (Bytes → A) → Bytes → A
unfolding bytes_eq
write p v f q = if bytes_eq p q then v else f q

pub write_same {ℓ} : {A : Type ℓ} (p : Bytes) (v : A) (f : Bytes → A) → write p v f p ≡ v
unfolding write
write_same p v f = rw (bytes_eq_refl p)

pub write_other {ℓ} :
    {A : Type ℓ} (p q : Bytes) (v : A) (f : Bytes → A) → bytes_eq p q ≡ false → write p v f q ≡ f q
unfolding write
write_other p q v f ne = rw ne

pub write-none : (p q : Bytes) (f : Bytes → Option Node) → f q ≡ none → write p none f q ≡ none
unfolding write
write-none p q f empty = elim (Bool-cases (bytes_eq p q)) [
  | inl same ↦ rw same refl
  | inr differ ↦ rw differ empty
]
