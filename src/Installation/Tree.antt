-- ===== src/Installation/Tree.antt =====
-- `parse_tree` on the lines of the lock file, and `group_for_path`.
pub mod Rows
use ferricov.Base.{
  ℕ, ◌==◌, leb, Bool, true, false, ◌&&◌, ◌||◌, not, List, [], ◌∷◌, ◌++◌, map, take, Result, ok, err,
  ◌>>=◌, ◌>>◌, require, if◌then◌else◌, length, all,
}
use ferricov.Base.Bytes.{Bytes, codes, bytes_eq, mem, split, starts_with}
use ferricov.Base.Dict.{sorted}
use ferricov.Base.Sets.{has_repeat}
use ferricov.Base.Same.{Same, same, bytes_same, list_same}
use ferricov.Correctness.Path.{parts, join}

pub record Entry : Type 0 where
  pub kind : Bytes
  pub mode : Bytes
  pub identity : Bytes
  pub path : Bytes

pub data Error : Type 0 where
  malformed_row invalid_row invalid_path no_identity symlink_drift : Error
  entry_count duplicate_paths unsorted_paths not_in_one_group : Error

abbrev pub file_kind : Bytes
file_kind = codes "file"

abbrev pub symlink_kind : Bytes
symlink_kind = codes "symlink"

abbrev pub is_octal : ℕ → Bool
is_octal c = leb b'0' c && leb c b'7'

abbrev pub is_hex : ℕ → Bool
is_hex c = (leb b'0' c && leb c b'9') || (leb b'a' c && leb c b'f')

-- re.fullmatch of a class, n times
abbrev pub is_all : (ℕ → Bool) → ℕ → Bytes → Bool
is_all p n s = (length s == n) && all p s

-- The root of an absolute path: two leading slashes are kept, and three or more are one.
abbrev pub root_of : Bytes → Bytes
root_of path =
    if starts_with (codes "//") path && not (starts_with (codes "///") path)
    then codes "//"
    else codes "/"

abbrev pub prefix_parts : List Bytes
prefix_parts = codes "usr" ∷ codes "local" ∷ []

-- The checks on a path: `parts` has the parts of PurePosixPath after the root.
unfoldable pub is_installed_path : Bytes → Bool
is_installed_path path =
    starts_with (codes "/") path
    && (bytes_eq (root_of path) (codes "/")
        && (same (take 2 (parts path)) prefix_parts
            && (not (mem (codes "..") (parts path))
                && bytes_eq (root_of path ++ join b'/' (parts path)) path)))

abbrev pub is_legacy_symlink : Entry → Bool
is_legacy_symlink e =
    bytes_eq e.path (codes "/usr/local/man")
    && (bytes_eq e.mode (codes "777") && bytes_eq e.identity (codes "share/man"))

unfoldable pub check_entry : Entry → Result Error (Unit {0})
unfolding is_installed_path
check_entry e = do
  require ((bytes_eq e.kind file_kind || bytes_eq e.kind symlink_kind) && is_all is_octal 3 e.mode)
      invalid_row
  require (is_installed_path e.path) invalid_path
  require (not (bytes_eq e.kind file_kind && not (is_all is_hex 64 e.identity))) no_identity
  require (not (bytes_eq e.kind symlink_kind && not (is_legacy_symlink e))) symlink_drift

abbrev pub entry_of : List Bytes → Result Error Entry
entry_of (kind ∷ mode ∷ identity ∷ path ∷ []) =
    ok (record { kind = kind; mode = mode; identity = identity; path = path })
entry_of _ = err malformed_row

abbrev pub parse_row : Bytes → Result Error Entry
parse_row raw = do e ← entry_of (split 9 raw); check_entry e; ok e

unfoldable pub parse_rows : List Bytes → Result Error (List Entry)
unfolding check_entry
parse_rows [] = ok []
parse_rows (raw ∷ rest) = do e ← parse_row raw; entries ← parse_rows rest; ok (e ∷ entries)

-- The number of entries of the release, 321, is a parameter here.
unfoldable pub parse_tree_of : ℕ → List Bytes → Result Error (List Entry)
unfolding parse_rows
parse_tree_of size rows = do
  entries ← parse_rows rows
  require (length entries == size) entry_count
  require (not (has_repeat (map (λ (e : Entry). e.path) entries))) duplicate_paths
  require
      (same (map (λ (e : Entry). e.path) entries) (sorted (map (λ (e : Entry). e.path) entries)))
      unsorted_paths
  ok entries

unfoldable pub parse_tree : List Bytes → Result Error (List Entry)
unfolding parse_tree_of
parse_tree rows = parse_tree_of 321 rows

-- A prefix that ends in a slash, or a whole path.
pub data Group : Type 0 where
  below : Bytes → Group
  whole : Bytes → Group

abbrev pub groups : List (Bytes × Group)
groups =
    (codes "bin", below (codes "/usr/local/bin/"))
    ∷ (codes "config", whole (codes "/usr/local/etc/lcovrc"))
    ∷ (codes "lib", whole (codes "/usr/local/lib/lcov/lcovutil.pm"))
    ∷ (codes "man", below (codes "/usr/local/share/man/"))
    ∷ (codes "support_scripts", below (codes "/usr/local/share/lcov/support-scripts/"))
    ∷ (codes "html", below (codes "/usr/local/share/lcov/html/"))
    ∷ (codes "example", below (codes "/usr/local/share/lcov/example/"))
    ∷ (codes "tests", below (codes "/usr/local/share/lcov/tests/"))
    ∷ (codes "legacy_man_symlink", whole (codes "/usr/local/man"))
    ∷ []

abbrev pub has_path : Bytes → Group → Bool
has_path path (below p) = starts_with p path
has_path path (whole p) = bytes_eq path p

unfoldable pub matches : Bytes → List (Bytes × Group) → List Bytes
matches path [] = []
matches path ((name, g) ∷ rest) =
    if has_path path g then name ∷ matches path rest else matches path rest

abbrev pub only_match : List Bytes → Result Error Bytes
only_match (name ∷ []) = ok name
only_match _ = err not_in_one_group

-- The name of the group; the prefix that is returned with it is the group's.
unfoldable pub group_for_path : Bytes → Result Error Bytes
unfolding matches
group_for_path path = only_match (matches path groups)

-- The text of a row, as `installed_tree` writes it to hash a group.
abbrev pub row : Entry → Bytes
row e = join 9 (e.kind ∷ e.mode ∷ e.identity ∷ e.path ∷ [])
