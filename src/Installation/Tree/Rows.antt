-- ===== src/Installation/Tree/Rows.antt =====
-- What the entries of a parsed tree are.
use ferricov.Base.{
  ℕ, ◌==◌, ◌≡◌, refl, sym, ap, ◌∙◌, subst, Bool, true, false, not, ◌&&◌, ◌||◌, List, [], ◌∷◌, ◌++◌,
  map, take, ok, require, arith, length, All, >>=-eq-ok, >>-eq-ok, require-eq-ok, ok_injective,
  ==→eq,
}
use ferricov.Base.Bytes.{Bytes, codes, bytes_eq, bytes_eq→eq, mem, split, starts_with}
use ferricov.Base.Dict.{sorted}
use ferricov.Base.Sets.{has_repeat, both}
use ferricov.Base.Same.{same, same→eq, list_same, bytes_same}
use ferricov.Correctness.Path.{parts, join, join-split}
use ferricov.Installation.Tree.{
  Entry, invalid_row, invalid_path, no_identity, symlink_drift, entry_count, duplicate_paths,
  unsorted_paths, file_kind, symlink_kind, is_octal, is_hex, is_all, root_of, prefix_parts,
  is_installed_path, is_legacy_symlink, check_entry, entry_of, parse_row, parse_rows, parse_tree_of,
  row,
}

-- /usr/local, or a path below it with no part that is a double dot.
abbrev pub IsUnder : Bytes → Type 0
IsUnder path =
    (rest : List Bytes) × (path ≡ codes "/" ++ join b'/' (codes "usr" ∷ codes "local" ∷ rest))
    × (mem (codes "..") rest ≡ false)

pub record IsEntry (e : Entry) : Type 0 where
  pub mode : is_all is_octal 3 e.mode ≡ true
  pub path : IsUnder e.path
  pub file : bytes_eq e.kind file_kind ≡ true → is_all is_hex 64 e.identity ≡ true
  pub symlink :
      bytes_eq e.kind file_kind ≡ false → (e.kind ≡ symlink_kind) × (is_legacy_symlink e ≡ true)

after_prefix :
    (ps : List Bytes)
    → take 2 ps ≡ prefix_parts
    → (rest : List Bytes) × (ps ≡ codes "usr" ∷ codes "local" ∷ rest)
after_prefix [] h = cc
after_prefix (p ∷ []) h = cc
after_prefix (p ∷ q ∷ rest) h = (rest, cc)

later-mem :
    (p q : Bytes) (rest : List Bytes)
    → mem (codes "..") (p ∷ q ∷ rest) ≡ false
    → mem (codes "..") rest ≡ false
later-mem p q rest h = ground arith

not-true : (b : Bool) → not b ≡ true → b ≡ false
not-true b h = ground arith

is_installed_path-IsUnder : (path : Bytes) → is_installed_path path ≡ true → IsUnder path
unfolding is_installed_path
is_installed_path-IsUnder path h =
    let (_, k1) = both {a = starts_with (codes "/") path} h in
    let (a, k2) = both {a = bytes_eq (root_of path) (codes "/")} k1 in
    let (b, k3) = both {a = same (take 2 (parts path)) prefix_parts} k2 in
    let (c, d) = both {a = not (mem (codes "..") (parts path))} k3 in
    let (rest, split_up) =
      after_prefix (parts path) (same→eq (take 2 (parts path)) prefix_parts b) in
    (
      rest,
      sym (bytes_eq→eq (root_of path ++ join b'/' (parts path)) path d)
          ∙ (ap (λ r. r ++ join b'/' (parts path)) (bytes_eq→eq (root_of path) (codes "/") a)
              ∙ ap (λ ps. codes "/" ++ join b'/' ps) split_up),
      later-mem (codes "usr") (codes "local") rest (
          subst (λ ps. mem (codes "..") ps ≡ false) split_up
            (not-true (mem (codes "..") (parts path)) c)),
    )

second-true : (a b : Bool) → a ≡ true → not (a && not b) ≡ true → b ≡ true
second-true a b h k = ground arith

other-true : (a b : Bool) → a ≡ false → (a || b) ≡ true → b ≡ true
other-true a b h k = ground arith

entry_of-fields :
    (fields : List Bytes) {e : Entry}
    → entry_of fields ≡ ok e
    → e.kind ∷ e.mode ∷ e.identity ∷ e.path ∷ [] ≡ fields
entry_of-fields [] h = cc
entry_of-fields (a ∷ []) h = cc
entry_of-fields (a ∷ b ∷ []) h = cc
entry_of-fields (a ∷ b ∷ c ∷ []) h = cc
entry_of-fields (a ∷ b ∷ c ∷ d ∷ []) h =
    subst (λ (f : Entry). f.kind ∷ f.mode ∷ f.identity ∷ f.path ∷ [] ≡ a ∷ b ∷ c ∷ d ∷ [])
      (ok_injective h) refl
entry_of-fields (a ∷ b ∷ c ∷ d ∷ f ∷ rest) h = cc

check_entry-IsEntry : (e : Entry) → check_entry e ≡ ok tt → IsEntry e
unfolding check_entry
check_entry-IsEntry e h =
    let (a, k1) = >>-eq-ok (require _ invalid_row) _ h in
    let (b, k2) = >>-eq-ok (require (is_installed_path e.path) invalid_path) _ k1 in
    let (c, d) = >>-eq-ok (require _ no_identity) _ k2 in
    let (kinds, mode) = both (require-eq-ok _ invalid_row a) in
    let no_bad_file =
      require-eq-ok (not (bytes_eq e.kind file_kind && not (is_all is_hex 64 e.identity)))
        no_identity c in
    let no_bad_link =
      require-eq-ok (not (bytes_eq e.kind symlink_kind && not (is_legacy_symlink e))) symlink_drift
        d in
    record {
      mode = mode;
      path =
          is_installed_path-IsUnder e.path
            (require-eq-ok (is_installed_path e.path) invalid_path b);
      file =
          λ f. second-true (bytes_eq e.kind file_kind) (is_all is_hex 64 e.identity) f no_bad_file;
      symlink = λ f.
          let s = other-true (bytes_eq e.kind file_kind) (bytes_eq e.kind symlink_kind) f kinds in
          (
            bytes_eq→eq e.kind symlink_kind s,
            second-true (bytes_eq e.kind symlink_kind) (is_legacy_symlink e) s no_bad_link,
          );
    }

-- A row is the text of its entry.
parse_row-row : (raw : Bytes) {e : Entry} → parse_row raw ≡ ok e → (row e ≡ raw) × IsEntry e
parse_row-row raw {e} h =
    let (f, fields, k1) = >>=-eq-ok (entry_of (split 9 raw)) _ h in
    let (checked, k2) = >>-eq-ok (check_entry f) _ k1 in
    subst (λ g. (row g ≡ raw) × IsEntry g) (ok_injective k2)
      (
        ap (join 9) (entry_of-fields (split 9 raw) fields) ∙ join-split 9 raw,
        check_entry-IsEntry f checked,
      )

parse_rows-row :
    (rows : List Bytes) {entries : List Entry}
    → parse_rows rows ≡ ok entries
    → (map row entries ≡ rows) × All IsEntry entries
unfolding parse_rows
parse_rows-row [] {entries} h =
    subst (λ es. (map row es ≡ []) × All IsEntry es) (ok_injective h) (refl, tt)
parse_rows-row (raw ∷ rest) {entries} h =
    let (e, first, k1) = >>=-eq-ok (parse_row raw) _ h in
    let (es, others, k2) = >>=-eq-ok (parse_rows rest) _ k1 in
    let (text, good) = parse_row-row raw first in
    let (texts, all_good) = parse_rows-row rest others in
    subst (λ fs. (map row fs ≡ raw ∷ rest) × All IsEntry fs) (ok_injective k2)
      (cc, (good, all_good))

-- When parse_tree returns, for any number of entries that it asks for, the rows of its entries are the lines of
-- the file in order, and there are as many as it asks for, with different paths in lexicographic order. Every
-- entry has a mode of three octal digits and a path at or below /usr/local without a double dot, and is a file
-- with an identity of 64 hexadecimal digits or the legacy symbolic link.
pub parse_tree_of-row :
    (size : ℕ) (rows : List Bytes) {entries : List Entry}
    → parse_tree_of size rows ≡ ok entries
    → (map row entries ≡ rows)
      × (length entries ≡ size)
      × (has_repeat (map (λ (e : Entry). e.path) entries) ≡ false)
      × (sorted (map (λ (e : Entry). e.path) entries) ≡ map (λ (e : Entry). e.path) entries)
      × All IsEntry entries
unfolding parse_tree_of
parse_tree_of-row size rows {entries} h =
    let (es, parsed, k1) = >>=-eq-ok (parse_rows rows) _ h in
    let (a, k2) = >>-eq-ok (require (length es == size) entry_count) _ k1 in
    let paths = map (λ (e : Entry). e.path) es in
    let (b, k3) = >>-eq-ok (require (not (has_repeat paths)) duplicate_paths) _ k2 in
    let (c, k4) = >>-eq-ok (require (same paths (sorted paths)) unsorted_paths) _ k3 in
    let (texts, good) = parse_rows-row rows parsed in
    subst
      (λ fs.
        (map row fs ≡ rows)
        × (length fs ≡ size)
        × (has_repeat (map (λ (e : Entry). e.path) fs) ≡ false)
        × (sorted (map (λ (e : Entry). e.path) fs) ≡ map (λ (e : Entry). e.path) fs)
        × All IsEntry fs)
      (ok_injective k4)
      (
        texts,
        ==→eq (length es) size (require-eq-ok (length es == size) entry_count a),
        not-true (has_repeat paths) (require-eq-ok (not (has_repeat paths)) duplicate_paths b),
        sym (
            same→eq paths (sorted paths)
              (require-eq-ok (same paths (sorted paths)) unsorted_paths c)),
        good,
      )
