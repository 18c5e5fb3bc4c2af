-- ===== src/Correctness/Run/Accepts.antt =====
-- What `validate_run` accepts.
use ferricov.Base.{
  ◌≡◌, sym, ap, ◌∙◌, subst, Bool, true, false, not, ◌&&◌, List, [], ◌++◌, Option, some, Result, ok,
  err, require, >>=-eq-ok, >>-eq-ok, require-eq-ok, length, ◌==◌, arith,
}
use ferricov.Base.Bytes.{Bytes, codes, bytes_eq, bytes_eq→eq}
use ferricov.Json.Value.{Value, array, Items}
use ferricov.Correctness.Path.{parts}
use ferricov.Correctness.Artifact
use ferricov.Correctness.Artifact.{
  Files, Reference, regular, artifact_path, raw_artifact, content_of,
}
use ferricov.Correctness.Artifact.Accepts.{PlainWay, artifact_path-ok, content_of-regular}
use ferricov.Correctness.FileTree.{validate_file_tree}
use ferricov.Correctness.FileTree.Accepts.{Row, AreRows, AreCounted, validate_file_tree-AreRows}
use ferricov.Correctness.Run
use ferricov.Correctness.Run.{
  Retained, failing, look, retained, check_end, validate_run, is_none, same_truth, is_true,
  at_most_zero,
}

failing-ok :
    {E A : Type 0} (f : E → Run.Error) (r : Result E A) (a : A) → failing f r ≡ ok a → r ≡ ok a
failing-ok f (err e) a h = cc
failing-ok f (ok b) a h = cc

-- A retained file is a regular file at the expected path, reached over no symbolic link, with the length and
-- the hash that the run names.
pub record IsRetained (sha256_bytes : Bytes → Bytes) (files : Files) (r : Retained)
    (expected : Bytes) : Type 0 where
  pub content : Bytes
  pub at_expected : r.artifact ≡ expected
  pub plain : PlainWay files [] (parts expected)
  pub found : files (parts expected) ≡ some (regular content)
  pub same_length : length content ≡ r.bytes
  pub same_hash : sha256_bytes content ≡ codes "sha256:" ++ r.sha256

module _ (sha256_bytes : Bytes → Bytes) (files : Files) where
  retained-IsRetained :
      (r : Retained) (expected : Bytes) (path : List Bytes)
      → raw_artifact sha256_bytes files r.artifact expected r.sha256 r.bytes ≡ ok path
      → IsRetained sha256_bytes files r expected × (path ≡ parts expected)
  unfolding raw_artifact
  retained-IsRetained r expected path h =
      let (h1, h2) =
        >>-eq-ok (require (bytes_eq r.artifact expected) Artifact.unexpected_path) _ h in
      let here =
        bytes_eq→eq r.artifact expected
          (require-eq-ok (bytes_eq r.artifact expected) Artifact.unexpected_path h1) in
      let (content, same_path, safe, plain, found, bytes, hash) =
        artifact_path-ok sha256_bytes files
          (record { path = r.artifact; sha256 = codes "sha256:" ++ r.sha256; bytes = r.bytes }) path
          h2 in
      (
        record {
          content = content;
          at_expected = here;
          plain = subst (λ p. PlainWay files [] (parts p)) here plain;
          found = ap (λ p. files (parts p)) (sym here) ∙ found;
          same_length = bytes;
          same_hash = hash;
        },
        same_path ∙ ap parts here,
      )

-- How a qualified run ended.
pub record IsFinished (run : Run.Run) : Type 0 where
  pub in_time : run.expired ≡ false
  pub unsignaled : is_none run.termination_signal_sent ≡ true
  pub reaped : run.direct_child_reaped ≡ true
  pub container_gone : is_true run.container_absent ≡ true
  pub no_group : is_none run.process_group_empty ≡ true
  pub positive_time : at_most_zero run.wall_seconds ≡ false

check_end-IsFinished :
    (sha256_bytes : Bytes → Bytes) (parse : Bytes → Option Value) (files later : Files)
    (run : Run.Run)
    → check_end sha256_bytes parse files later run ≡ ok tt
    → IsFinished run
unfolding check_end
check_end-IsFinished sha256_bytes parse files later run h =
    let (h1, k1) = >>-eq-ok (require (not run.expired) Run.timed_out) _ h in
    let (h2, k2) = >>-eq-ok (require (is_none run.termination_signal_sent) Run.signal_sent) _ k1 in
    let (h3, k3) =
      >>-eq-ok (require (run.direct_child_reaped && is_true run.container_absent) Run.not_cleaned) _
        k2 in
    let (h4, h5) = >>-eq-ok (require (is_none run.process_group_empty) Run.group_claimed) _ k3 in
    let expired = require-eq-ok (not run.expired) Run.timed_out h1 in
    let cleaned =
      require-eq-ok (run.direct_child_reaped && is_true run.container_absent) Run.not_cleaned h3 in
    let time = require-eq-ok (not (at_most_zero run.wall_seconds)) Run.wall_time h5 in
    record {
      in_time = ground arith;
      unsignaled = require-eq-ok (is_none run.termination_signal_sent) Run.signal_sent h2;
      reaped = ground arith;
      container_gone = ground arith;
      no_group = require-eq-ok (is_none run.process_group_empty) Run.group_claimed h4;
      positive_time = ground arith;
    }

-- The text that is found at the expected path of the file tree, and what it decodes to.
pub record HasTree (parse : Bytes → Option Value) (later : Files) (run : Run.Run) : Type 0 where
  pub text : Bytes
  pub entries : Items
  pub rows : List Row
  pub found : later (parts (codes "reference/file-tree.json")) ≡ some (regular text)
  pub decoded : parse text ≡ some (array entries)
  pub are_rows : AreRows entries rows
  pub counted : AreCounted rows run.metrics

module _ (sha256_bytes : Bytes → Bytes) (parse : Bytes → Option Value) (files later : Files)
    (run : Run.Run) where
  -- When `validate_run` accepts a run, it has either an exit code or a signal and not both; its standard
  -- output, standard error and file tree are retained at their paths with the lengths and hashes of the run,
  -- the file tree found afterwards is an array of rows with ascending paths and the totals of the metrics; and it
  -- ended in time, unsignaled, reaped, with its container gone, no claim on a process group and a wall time that
  -- is not zero or negative.
  pub validate_run-ok :
      validate_run sha256_bytes parse files later run ≡ ok tt
      → (same_truth (is_none run.exit_code) (is_none run.signal) ≡ false)
        × IsRetained sha256_bytes files run.stdout (codes "reference/stdout.bin")
        × IsRetained sha256_bytes files run.stderr (codes "reference/stderr.bin")
        × IsRetained sha256_bytes files run.file_tree (codes "reference/file-tree.json")
        × HasTree parse later run
        × IsFinished run
  unfolding validate_run
  validate_run-ok h =
      let (h0, k0) =
        >>-eq-ok
          (require (not (same_truth (is_none run.exit_code) (is_none run.signal)))
            Run.exit_or_signal)
          _ h in
      let (stdout, h1, k1) = >>=-eq-ok (kept run.stdout (codes "reference/stdout.bin")) _ k0 in
      let (stderr, h2, k2) = >>=-eq-ok (kept run.stderr (codes "reference/stderr.bin")) _ k1 in
      let (tree, h3, k3) = >>=-eq-ok (kept run.file_tree (codes "reference/file-tree.json")) _ k2 in
      let (out, h4, k4) = >>=-eq-ok (look later stdout) _ k3 in
      let (h5, k5) = >>-eq-ok (require (length out == run.stdout.bytes) Run.stdout_changed) _ k4 in
      let (error_text, h6, k6) = >>=-eq-ok (look later stderr) _ k5 in
      let (h7, k7) =
        >>-eq-ok (require (length error_text == run.stderr.bytes) Run.stderr_changed) _ k6 in
      let (text, h8, k8) = >>=-eq-ok (look later tree) _ k7 in
      let (h9, k9) =
        >>-eq-ok (failing Run.tree (validate_file_tree (parse text) run.metrics)) _ k8 in
      let (tree_kept, tree_path) =
        is_kept run.file_tree (codes "reference/file-tree.json") tree h3 in
      let (stdout_kept, stdout_path) =
        is_kept run.stdout (codes "reference/stdout.bin") stdout h1 in
      let (stderr_kept, stderr_path) =
        is_kept run.stderr (codes "reference/stderr.bin") stderr h2 in
      (
        negated (same_truth (is_none run.exit_code) (is_none run.signal))
            (require-eq-ok _ Run.exit_or_signal h0),
        stdout_kept,
        stderr_kept,
        tree_kept,
        has_tree text
            (ap later (sym tree_path)
              ∙ content_of-regular (later tree) text (failing-ok Run.artifact _ text h8))
            h9,
        check_end-IsFinished sha256_bytes parse files later run k9,
      )
    where
      kept : Retained → Bytes → Result Run.Error (List Bytes)
      kept = retained sha256_bytes parse files later

      negated : (b : Bool) → not b ≡ true → b ≡ false
      negated b e = ground arith

      is_kept :
          (r : Retained) (expected : Bytes) (path : List Bytes)
          → kept r expected ≡ ok path
          → IsRetained sha256_bytes files r expected × (path ≡ parts expected)
      is_kept r expected path e =
          retained-IsRetained sha256_bytes files r expected path (failing-ok Run.artifact _ path e)

      has_tree :
          (text : Bytes)
          → later (parts (codes "reference/file-tree.json")) ≡ some (regular text)
          → failing Run.tree (validate_file_tree (parse text) run.metrics) ≡ ok tt
          → HasTree parse later run
      has_tree text found e =
          let (vs, rs, decoded, rows, counted) =
            validate_file_tree-AreRows (parse text) run.metrics (failing-ok Run.tree _ tt e) in
          record {
            text = text;
            entries = vs;
            rows = rs;
            found = found;
            decoded = decoded;
            are_rows = rows;
            counted = counted;
          }
