-- ===== src/Tests/Installation.antt =====
-- A lock file with two rows, for compat/installation/contract.py.
use ferricov.Base.{◌≡◌, refl, false, [], ◌∷◌, map, length, ok, All, replicate}
use ferricov.Base.Bytes.{codes, bytes_eq, starts_with, split}
use ferricov.Base.Dict.{sorted}
use ferricov.Base.Sets.{has_repeat}
use ferricov.Installation.Tree.{Entry, parse_tree_of, group_for_path, row}
use ferricov.Installation.Tree.Rows.{IsEntry, parse_tree_of-row}
use ferricov.Correctness.Path.{join, parts}
use ferricov.Base.Same.{list_test}
use ferricov.Base.Order.{bytes_lt}

abbrev genhtml : Entry
genhtml = record {
  kind = codes "file";
  mode = codes "755";
  identity = replicate 64 b'a';
  path = codes "/usr/local/bin/genhtml";
}

abbrev man : Entry
man = record {
  kind = codes "symlink";
  mode = codes "777";
  identity = codes "share/man";
  path = codes "/usr/local/man";
}

two_rows : parse_tree_of 2 (map row (genhtml ∷ man ∷ [])) ≡ ok (genhtml ∷ man ∷ [])
unfolding parse_tree_of split join bytes_eq starts_with list_test parts sorted bytes_lt
two_rows = refl

parse_tree_of-row_example :
    (map row (genhtml ∷ man ∷ []) ≡ map row (genhtml ∷ man ∷ []))
    × (length (genhtml ∷ man ∷ []) ≡ 2)
    × (has_repeat (genhtml.path ∷ man.path ∷ []) ≡ false)
    × (sorted (genhtml.path ∷ man.path ∷ []) ≡ genhtml.path ∷ man.path ∷ [])
    × All IsEntry (genhtml ∷ man ∷ [])
parse_tree_of-row_example = parse_tree_of-row 2 (map row (genhtml ∷ man ∷ [])) two_rows

group_of_genhtml : group_for_path (codes "/usr/local/bin/genhtml") ≡ ok (codes "bin")
unfolding group_for_path starts_with bytes_eq
group_of_genhtml = refl

manual_page : group_for_path (codes "/usr/local/share/man/man1") ≡ ok (codes "man")
unfolding group_for_path starts_with bytes_eq
manual_page = refl
