-- ===== src/Correctness/FileTree/Accepts.antt =====
-- What `validate_file_tree` accepts.
use ferricov.Base.{
  ℕ, suc, ◌+◌, ◌≡◌, refl, sym, ap, ◌∙◌, subst, Bool, true, false, ◌&&◌, List, [], ◌∷◌, ◌++◌,
  append_assoc, append-nil, map, Option, none, some, Result, ok, require, >>=-eq-ok, >>-eq-ok,
  require-eq-ok, ==→eq, ==_refl, Bool-cases, inl, inr, arith,
}
use ferricov.Base.Bytes.{Bytes}
use ferricov.Base.Int.{ℤ, pos, negsuc}
use ferricov.Json.Value.{Value, string, array, object, Items, no_items, item, Members, get, int_eq}
use ferricov.Correctness.Keys.{
  IsAscending, sorted_and_unique, sorted_and_unique-IsAscending, IsAscending-sorted_and_unique,
}
use ferricov.Correctness.FileTree.{
  Error, Totals, Metrics, path_of, size_of, is_file, path_key, kind_key, bytes_key, with_key,
  with_file, add_size, read_entry, read_entries, check_totals, none_read, not_sorted, totals_differ,
  validate_file_tree,
}

-- A row is the path of an entry, and its size when it is a file.
abbrev pub Row : Type 0
Row = Bytes × Option ℕ

-- `entry` is an object with the row's path, and with the row's size when its kind is "file".
pub data IsRow : Value → Row → Type 0 where
  file_row :
      (fs : Members) (key : Bytes) (n : ℕ)
      → get path_key fs ≡ some (string key)
      → is_file (get kind_key fs) ≡ true
      → size_of (get bytes_key fs) ≡ ok n
      → IsRow (object fs) (key, some n)
  other_row :
      (fs : Members) (key : Bytes)
      → get path_key fs ≡ some (string key)
      → is_file (get kind_key fs) ≡ false
      → IsRow (object fs) (key, none)

pub data AreRows : Items → List Row → Type 0 where
  no_rows : AreRows no_items []
  row :
      (v : Value) (r : Row) (vs : Items) (rs : List Row)
      → IsRow v r
      → AreRows vs rs
      → AreRows (item v vs) (r ∷ rs)

abbrev pub paths : List Row → List Bytes
paths = map (λ (key, size). key)

abbrev pub total_bytes : List Row → ℕ
total_bytes [] = 0
total_bytes ((key, none) ∷ rs) = total_bytes rs
total_bytes ((key, some n) ∷ rs) = n + total_bytes rs

abbrev pub total_files : List Row → ℕ
total_files [] = 0
total_files ((key, none) ∷ rs) = total_files rs
total_files ((key, some n) ∷ rs) = suc (total_files rs)

-- The totals after the rows are read.
abbrev after : List Row → Totals → Totals
after rs t = record {
  keys = t.keys ++ paths rs;
  output_bytes = t.output_bytes + total_bytes rs;
  output_files = t.output_files + total_files rs;
}

abbrev step : Row → Totals → Totals
step (key, none) t = with_key key t
step (key, some n) t = with_file n (with_key key t)

step-after : (r : Row) (rs : List Row) (t : Totals) → after rs (step r t) ≡ after (r ∷ rs) t
step-after (key, none) rs t = rw (append_assoc t.keys (key ∷ []) (paths rs)) refl
step-after (key, some n) rs t =
    let bytes : (t.output_bytes + n) + total_bytes rs ≡ t.output_bytes + (n + total_bytes rs) =
      omega arith in
    let files : (t.output_files + 1) + total_files rs ≡ t.output_files + suc (total_files rs) =
      omega arith in
    rw (append_assoc t.keys (key ∷ []) (paths rs), bytes, files) refl

path_of-string : (o : Option Value) (key : Bytes) → path_of o ≡ ok key → o ≡ some (string key)
unfolding path_of
path_of-string (some (string k)) key h = cc
path_of-string none key h = cc
path_of-string (some _) key h = cc

read_entry-IsRow :
    (v : Value) (t u : Totals) → read_entry v t ≡ ok u → (r : Row) × IsRow v r × (u ≡ step r t)
unfolding read_entry
read_entry-IsRow (object fs) t u h =
    let (key, e, h1) =
      >>=-eq-ok (path_of (get path_key fs))
        (λ key. add_size (is_file (get kind_key fs)) (get bytes_key fs) (with_key key t)) h in
    let there = path_of-string (get path_key fs) key e in
    let sized : Bool → Result Error Totals = λ b. add_size b (get bytes_key fs) (with_key key t) in
    elim (Bool-cases (is_file (get kind_key fs))) [
      | inl file ↦
          let (n, s, h2) =
            >>=-eq-ok (size_of (get bytes_key fs)) (λ n. ok (with_file n (with_key key t)))
              (subst (λ b. sized b ≡ ok u) file h1) in
          ((key, some n), file_row fs key n there file s, cc)
      | inr other ↦
          let h2 = subst (λ b. sized b ≡ ok u) other h1 in
          ((key, none), other_row fs key there other, cc)
    ]
read_entry-IsRow _ t u h = cc

IsRow-read_entry : (v : Value) (r : Row) (t : Totals) → IsRow v r → read_entry v t ≡ ok (step r t)
unfolding read_entry path_of
IsRow-read_entry _ _ t (file_row fs key n e k s) = rw (e, k, s) refl
IsRow-read_entry _ _ t (other_row fs key e k) = rw (e, k) refl

after-nil : (t : Totals) → t ≡ after [] t
after-nil t =
    let bytes : t.output_bytes + 0 ≡ t.output_bytes = omega arith in
    let files : t.output_files + 0 ≡ t.output_files = omega arith in
    rw (append-nil t.keys, bytes, files) refl

read_entries-AreRows :
    (vs : Items) (t u : Totals)
    → read_entries vs t ≡ ok u
    → (rs : List Row) × AreRows vs rs × (u ≡ after rs t)
unfolding read_entries
read_entries-AreRows no_items t u h = ([], no_rows, (cc) ∙ after-nil t)
read_entries-AreRows (item v vs) t u h =
    let (next, e, h1) = >>=-eq-ok (read_entry v t) (λ next. read_entries vs next) h in
    let (r, is_row, stepped) = read_entry-IsRow v t next e in
    let (rs, rows, ended) = read_entries-AreRows vs next u h1 in
    (r ∷ rs, row v r vs rs is_row rows, ended ∙ (ap (after rs) stepped ∙ step-after r rs t))

AreRows-read_entries :
    (vs : Items) (rs : List Row) (t : Totals) → AreRows vs rs → read_entries vs t ≡ ok (after rs t)
unfolding read_entries
AreRows-read_entries _ _ t no_rows = ap ok (after-nil t)
AreRows-read_entries _ _ t (row v r vs rs is_row rows) =
    rw (IsRow-read_entry v r t is_row)
      (AreRows-read_entries vs rs (step r t) rows ∙ ap ok (step-after r rs t))

int_eq→eq : (n : ℤ) (m : ℕ) → int_eq n (pos m) ≡ true → n ≡ pos m
unfolding int_eq
int_eq→eq (pos n) m h = ap pos (==→eq n m h)
int_eq→eq (negsuc n) m h = cc

-- What `validate_file_tree` asks of the rows.
pub record AreCounted (rs : List Row) (metrics : Metrics) : Type 0 where
  pub ascending : IsAscending (paths rs)
  pub counted_bytes : metrics.output_bytes ≡ pos (total_bytes rs)
  pub counted_files : metrics.output_files ≡ pos (total_files rs)

zero_add : (n : ℕ) → 0 + n ≡ n
zero_add n = omega arith

check_totals-AreCounted :
    (rs : List Row) (metrics : Metrics)
    → check_totals metrics (after rs none_read) ≡ ok tt
    → AreCounted rs metrics
unfolding check_totals
check_totals-AreCounted rs metrics h =
    let (sorted, h1) = >>-eq-ok (require (sorted_and_unique (paths rs)) not_sorted) _ h in
    let same =
      require-eq-ok
        (int_eq metrics.output_bytes (pos (0 + total_bytes rs))
          && int_eq metrics.output_files (pos (0 + total_files rs)))
        totals_differ h1 in
    record {
      ascending =
          sorted_and_unique-IsAscending (paths rs)
            (require-eq-ok (sorted_and_unique (paths rs)) not_sorted sorted);
      counted_bytes =
          int_eq→eq metrics.output_bytes (0 + total_bytes rs) (ground arith)
          ∙ ap pos (zero_add (total_bytes rs));
      counted_files =
          int_eq→eq metrics.output_files (0 + total_files rs) (ground arith)
          ∙ ap pos (zero_add (total_files rs));
    }

AreCounted-check_totals :
    (rs : List Row) (metrics : Metrics)
    → AreCounted rs metrics
    → check_totals metrics (after rs none_read) ≡ ok tt
unfolding check_totals int_eq
AreCounted-check_totals rs metrics c =
    rw (IsAscending-sorted_and_unique (paths rs) c.ascending, c.counted_bytes, c.counted_files) rw
      (
        zero_add (total_bytes rs),
        zero_add (total_files rs),
        ==_refl (total_bytes rs),
        ==_refl (total_files rs),
      )
      refl

-- What `validate_file_tree` accepts is an array of entries that are rows: their paths are strictly
-- ascending, and the run's metrics are the number of the files and the sum of their sizes.
pub validate_file_tree-AreRows :
    (document : Option Value) (metrics : Metrics)
    → validate_file_tree document metrics ≡ ok tt
    → (vs : Items) × (rs : List Row) × (document ≡ some (array vs))
      × AreRows vs rs
      × AreCounted rs metrics
unfolding validate_file_tree
validate_file_tree-AreRows (some (array vs)) metrics h =
    let (t, e, h1) = >>=-eq-ok (read_entries vs none_read) (check_totals metrics) h in
    let (rs, rows, ended) = read_entries-AreRows vs none_read t e in
    (
      vs,
      rs,
      refl,
      rows,
      check_totals-AreCounted rs metrics (ap (check_totals metrics) (sym ended) ∙ h1),
    )
validate_file_tree-AreRows _ metrics h = cc

-- `validate_file_tree` accepts an array of entries that are rows, when their paths are strictly ascending
-- and the run's metrics are the number of the files and the sum of their sizes.
pub AreRows-validate_file_tree :
    (vs : Items) (rs : List Row) (metrics : Metrics)
    → AreRows vs rs
    → AreCounted rs metrics
    → validate_file_tree (some (array vs)) metrics ≡ ok tt
unfolding validate_file_tree
AreRows-validate_file_tree vs rs metrics rows c =
    rw (AreRows-read_entries vs rs none_read rows) (AreCounted-check_totals rs metrics c)
