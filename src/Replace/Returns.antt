-- ===== src/Replace/Returns.antt =====
-- When `commit_replace_targets` returns.
use ferricov.Base.{◌≡◌}
use ferricov.Base.Bytes.{Bytes}
use ferricov.Replace.Store.{Store}
use ferricov.Replace.Commit.{Ran, went}

-- The run returned.
abbrev pub Returned : Ran → Type 0
Returned r = (t : Store) × (r ≡ went t)
