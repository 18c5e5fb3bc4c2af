-- ===== src/Correctness/Artifact.antt =====
-- `artifact_path` and `raw_artifact` of compat/correctness/validate.py, over the files below a root.
pub mod Accepts
use ferricov.Base.{
  ℕ, ◌≡◌, refl, Bool, true, false, not, ◌&&◌, List, [], ◌∷◌, ◌++◌, Option, none, some, Result, ok,
  err, ◌>>=◌, ◌>>◌, require, length, ◌==◌, if◌then◌else◌,
}
use ferricov.Base.Bytes.{Bytes, codes, bytes_eq}
use ferricov.Correctness.Path.{safe_relative_path, parts}

-- What os.lstat finds at a path; a symbolic link is not followed.
pub data Entry : Type 0 where
  link folder : Entry
  regular : Bytes → Entry

-- The files, by the parts of a path below the root.
abbrev pub Files : Type 0
Files = List Bytes → Option Entry

pub record Reference : Type 0 where
  pub path : Bytes
  pub sha256 : Bytes
  pub bytes : ℕ

pub data Error : Type 0 where
  unsafe_path missing contains_symlink not_regular byte_count hash_mismatch unexpected_path : Error

abbrev pub unlinked : Option Entry → Result Error (Unit {0})
unlinked none = err missing
unlinked (some link) = err contains_symlink
unlinked (some folder) = ok tt
unlinked (some (regular content)) = ok tt

-- The loop over the parts; `current` is the path so far.
unfoldable pub walk : Files → List Bytes → List Bytes → Result Error (Unit {0})
walk files current [] = ok tt
walk files current (part ∷ rest) = do
  unlinked (files (current ++ part ∷ []))
  walk files (current ++ part ∷ []) rest

-- current.is_file(), and its content
abbrev pub content_of : Option Entry → Result Error Bytes
content_of (some (regular content)) = ok content
content_of _ = err not_regular

module _ (sha256_bytes : Bytes → Bytes) where
  unfoldable pub artifact_path : Files → Reference → Result Error (List Bytes)
  unfolding bytes_eq
  artifact_path files reference = do
    require (safe_relative_path reference.path) unsafe_path
    walk files [] (parts reference.path)
    content ← content_of (files (parts reference.path))
    require (length content == reference.bytes) byte_count
    require (bytes_eq (sha256_bytes content) reference.sha256) hash_mismatch
    ok (parts reference.path)

  unfoldable pub raw_artifact : Files → Bytes → Bytes → Bytes → ℕ → Result Error (List Bytes)
  unfolding artifact_path
  raw_artifact files value expected_path expected_sha256 expected_bytes = do
    require (bytes_eq value expected_path) unexpected_path
    artifact_path files (record {
      path = value;
      sha256 = codes "sha256:" ++ expected_sha256;
      bytes = expected_bytes;
    })
