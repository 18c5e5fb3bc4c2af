-- ===== src/Correctness/Artifact/Accepts.antt =====
-- What `artifact_path` accepts.
use ferricov.Base.{
  ◌≡◌, refl, true, List, [], ◌∷◌, ◌++◌, Option, none, some, ok, require, >>=-eq-ok, >>-eq-ok,
  require-eq-ok, length, ◌==◌, ==→eq, ==_refl,
}
use ferricov.Base.Bytes.{Bytes, bytes_eq, bytes_eq→eq, bytes_eq_refl}
use ferricov.Correctness.Path.{safe_relative_path, parts}
use ferricov.Correctness.Artifact.{
  Entry, link, folder, regular, Files, Reference, unsafe_path, byte_count, hash_mismatch, unlinked,
  walk, content_of, artifact_path,
}

-- An entry that is there and no link.
pub data IsPlain : Option Entry → Type 0 where
  plain_folder : IsPlain (some folder)
  plain_file : (content : Bytes) → IsPlain (some (regular content))

unlinked-IsPlain : (o : Option Entry) → unlinked o ≡ ok tt → IsPlain o
unlinked-IsPlain none h = cc
unlinked-IsPlain (some link) h = cc
unlinked-IsPlain (some folder) h = plain_folder
unlinked-IsPlain (some (regular content)) h = plain_file content

IsPlain-unlinked : (o : Option Entry) → IsPlain o → unlinked o ≡ ok tt
IsPlain-unlinked _ plain_folder = refl
IsPlain-unlinked _ (plain_file content) = refl

-- No part of the way down is a link, or missing.
abbrev pub PlainWay : Files → List Bytes → List Bytes → Type 0
PlainWay files current [] = Unit
PlainWay files current (part ∷ rest) =
    IsPlain (files (current ++ part ∷ [])) × PlainWay files (current ++ part ∷ []) rest

walk-PlainWay :
    (files : Files) (current rest : List Bytes)
    → walk files current rest ≡ ok tt
    → PlainWay files current rest
unfolding walk
walk-PlainWay files current [] h = tt
walk-PlainWay files current (part ∷ rest) h =
    let (here, below) =
      >>-eq-ok (unlinked (files (current ++ part ∷ []))) (walk files (current ++ part ∷ []) rest)
        h in
    (
      unlinked-IsPlain (files (current ++ part ∷ [])) here,
      walk-PlainWay files (current ++ part ∷ []) rest below,
    )

PlainWay-walk :
    (files : Files) (current rest : List Bytes)
    → PlainWay files current rest
    → walk files current rest ≡ ok tt
unfolding walk
PlainWay-walk files current [] h = refl
PlainWay-walk files current (part ∷ rest) (p, h) =
    rw (IsPlain-unlinked (files (current ++ part ∷ [])) p)
      (PlainWay-walk files (current ++ part ∷ []) rest h)

pub content_of-regular :
    (o : Option Entry) (content : Bytes) → content_of o ≡ ok content → o ≡ some (regular content)
content_of-regular none content h = cc
content_of-regular (some link) content h = cc
content_of-regular (some folder) content h = cc
content_of-regular (some (regular c)) content h = cc

module _ (sha256_bytes : Bytes → Bytes) (files : Files) (reference : Reference) where
  abbrev way : List Bytes
  way = parts reference.path

  -- When `artifact_path` returns, it returns the parts of a safe path on which every entry is there and none
  -- is a symbolic link, and the last is a regular file with the referenced length and hash.
  pub artifact_path-ok :
      (path : List Bytes)
      → artifact_path sha256_bytes files reference ≡ ok path
      → (content : Bytes) × (path ≡ way)
        × (safe_relative_path reference.path ≡ true)
        × PlainWay files [] way
        × (files way ≡ some (regular content))
        × (length content ≡ reference.bytes)
        × (sha256_bytes content ≡ reference.sha256)
  unfolding artifact_path
  artifact_path-ok path h =
      let (safe, h1) = >>-eq-ok (require (safe_relative_path reference.path) unsafe_path) _ h in
      let (plain, h2) = >>-eq-ok (walk files [] way) _ h1 in
      let (content, here, h3) = >>=-eq-ok (content_of (files way)) _ h2 in
      let (bytes, h4) = >>-eq-ok (require (length content == reference.bytes) byte_count) _ h3 in
      let (hash, h5) =
        >>-eq-ok (require (bytes_eq (sha256_bytes content) reference.sha256) hash_mismatch) _ h4 in
      (
        content,
        cc,
        require-eq-ok (safe_relative_path reference.path) unsafe_path safe,
        walk-PlainWay files [] way plain,
        content_of-regular (files way) content here,
        ==→eq (length content) reference.bytes
            (require-eq-ok (length content == reference.bytes) byte_count bytes),
        bytes_eq→eq (sha256_bytes content) reference.sha256
            (require-eq-ok (bytes_eq (sha256_bytes content) reference.sha256) hash_mismatch hash),
      )

  pub artifact_path-returns :
      (content : Bytes)
      → safe_relative_path reference.path ≡ true
      → PlainWay files [] way
      → files way ≡ some (regular content)
      → length content ≡ reference.bytes
      → sha256_bytes content ≡ reference.sha256
      → artifact_path sha256_bytes files reference ≡ ok way
  unfolding artifact_path
  artifact_path-returns content safe plain here bytes hash =
      rw
        (
          safe,
          PlainWay-walk files [] way plain,
          here,
          bytes,
          hash,
          ==_refl reference.bytes,
          bytes_eq_refl reference.sha256,
        )
        refl
