-- ===== src/Benchmarks/Suite.antt =====
-- `validate_suite` and `_artifact_path`. A document that is read is decoded JSON that its schema allows and that
-- is written canonically; reading one is a parameter. A path stands for the file's content.
use ferricov.Base.{
  ℕ, ◌%◌, ◌==◌, Bool, not, List, [], ◌∷◌, Option, none, some, Result, ok, err, ◌>>=◌, ◌>>◌, require,
  length, all,
}
use ferricov.Base.Bytes.{Bytes, codes, bytes_eq, mem}
use ferricov.Base.Dict.{get, sorted}
use ferricov.Base.Sets.{subset}
use ferricov.Base.Same.{same, bytes_same, list_same, option_same}
use ferricov.Correctness.Path.{safe_relative_path}
use ferricov.Benchmarks.Summary.{
  Error, unsafe_path, missing_file, size_mismatch, hash_mismatch, duplicate_case, even_runs,
  unsorted_entries, not_public, fixture_missing, fixture_hash_mismatch, missing_families,
}

pub record Artifact : Type 0 where
  pub path : Bytes
  pub sha256 : Bytes
  pub bytes : ℕ

pub record Tool : Type 0 where
  pub path : Bytes
  pub sha256 : Bytes

pub record Fixture : Type 0 where
  pub path : Bytes
  pub tree_sha256 : Bytes

pub record Case : Type 0 where
  pub id : Bytes
  pub family : Bytes
  pub command : Bytes
  pub warmup_runs : ℕ
  pub measured_runs : ℕ
  pub expected_exit_code : ℕ
  pub inventory_entries : List Bytes
  pub fixture : Option Fixture

pub record Suite : Type 0 where
  pub suite_id : Bytes
  pub measurement_tool : Tool
  pub cases : List Case

-- The repository: the content of the regular file at a path, the hash of the tree at a directory, the hash of
-- bytes, and the classification of the inventory's entries by id.
pub record Repository : Type 0 where
  pub file : Bytes → Option Bytes
  pub tree : Bytes → Option Bytes
  pub hash : Bytes → Bytes
  pub inventory : List (Bytes × Option Bytes)

abbrev pub check_content : (Bytes → Bytes) → Artifact → Option Bytes → Result Error Bytes
check_content hash a none = err missing_file
check_content hash a (some content) = do
  require (length content == a.bytes) size_mismatch
  require (bytes_eq (hash content) a.sha256) hash_mismatch
  ok content

-- `_artifact_path`
unfoldable pub artifact_path :
    (Bytes → Bytes) → (Bytes → Option Bytes) → Artifact → Result Error Bytes
artifact_path hash root a = do
  require (safe_relative_path a.path) unsafe_path
  check_content hash a (root a.path)

abbrev pub is_public : Option (Option Bytes) → Bool
is_public entry = same entry (some (some (codes "public")))

abbrev pub check_tree : Fixture → Option Bytes → Result Error (Unit {0})
check_tree f none = err fixture_missing
check_tree f (some actual) = require (bytes_eq actual f.tree_sha256) fixture_hash_mismatch

abbrev pub check_fixture : Repository → Option Fixture → Result Error (Unit {0})
check_fixture r none = ok tt
check_fixture r (some f) =
    require (safe_relative_path f.path) unsafe_path >> check_tree f (r.tree f.path)

abbrev pub check_case : Repository → List Bytes → Case → Result Error (Unit {0})
check_case r ids c = do
  require (not (mem c.id ids)) duplicate_case
  require (not (c.measured_runs % 2 == 0)) even_runs
  require (same c.inventory_entries (sorted c.inventory_entries)) unsorted_entries
  require (all (λ id. is_public (get id r.inventory)) c.inventory_entries) not_public
  check_fixture r c.fixture

-- The loop over the cases, by the ids that it has seen; what it leaves are the families.
unfoldable pub check_cases : Repository → List Bytes → List Case → Result Error (List Bytes)
check_cases r ids [] = ok []
check_cases r ids (c ∷ cs) = do
  check_case r ids c
  families ← check_cases r (c.id ∷ ids) cs
  ok (c.family ∷ families)

abbrev pub required_families : List Bytes
required_families = codes "startup" ∷ codes "tracefile" ∷ codes "operation" ∷ codes "report" ∷ []

abbrev pub check_tool : Repository → Tool → Option Bytes → Result Error (Unit {0})
check_tool r t none = err hash_mismatch
check_tool r t (some content) = require (bytes_eq (r.hash content) t.sha256) hash_mismatch

unfoldable pub validate_suite :
    Repository → (Bytes → Result Error Suite) → Bytes → Result Error Suite
unfolding check_cases
validate_suite r read_suite content = do
  suite ← read_suite content
  require (safe_relative_path suite.measurement_tool.path) unsafe_path
  check_tool r suite.measurement_tool (r.file suite.measurement_tool.path)
  families ← check_cases r [] suite.cases
  require (subset required_families families) missing_families
  ok suite
