-- ===== src/Lib.antt =====
-- Ferricov is a rewrite of LCOV that has to behave as LCOV does. The Python tools under compat/ hold it
-- to that: they generate inputs, run the reference LCOV in a container, keep what it wrote, and validate
-- the kept files against each other. These modules model the parts of the tools that decide something.
--
-- Base: byte strings as lists of code points, decimal numbers, line splitting, Python's exceptions as
-- values (Outcome), and equality tests as instances (Same).
--
-- Json: a decoded JSON document (Value), with `json_values_equal` and `reject_duplicate_json_keys` of
-- compat/fixtures/m0-tracefiles/validation_common.py (Equal). Observe says what can be seen of a document
-- along a path of keys and indices, without the comparison. The text of a document is decoded by the
-- standard library and is not modelled. Floats are a sign and a number of units of 2 ^ -1074.
--
-- Resources: compat/resources/generate.py and the reader of compat/resources/validate.py. Profile is the
-- table of profiles, Generate the writers (`write_profile`), Analyze the one pass over a file that counts
-- records and keys (`analyze_input`), Shape the guards (`validate_shape`) and their composition
-- (`generate_and_analyze`), Summary the text expected of LCOV (`expected_stdout`), Reader its parser
-- (`parse_summary`). A file is the bytes written to it. SHA-256 and the one-decimal print of a percentage
-- are parameters, and any function will do for them.
--
-- Tracefile: the two line readers of compat/fixtures/m0-tracefiles/validation_common.py: Output for
-- rewritten files (`parse_tracefile_sections`), Input for raw fixtures (`parse_input_semantic_model`), both
-- as a state (the sections done, the open one) that steps by a line. Preserve is
-- `assert_tf045_input_to_output_preservation`, which compares what the two readers find.
-- Argv is `semantic_inputs_from_argv` and `validate_semantic_input_identity`, on argv as a list of strings.
-- Stderr is `validate_semantic_stderr`, on the lines of the decoded text.
-- Metadata is `classify_record` and `data_metadata` of compat/fixtures/m0-tracefiles/generate.py, with the
-- UTF-8 decoder as a scanner over the bytes and SHA-256 as a parameter.
--
-- Replace: `commit_replace_targets` of compat/installation/wave2/recapture.py, which moves old captures
-- into a backup, installs the new ones and rolls back when anything raises. The state is what every path
-- holds, what the backup holds, and the code's lists; a parameter says which operation raises, so a
-- theorem for every such parameter covers a failure at any point. An operation that raises has no effect of
-- its own, and the final removal of the backup, which ignores errors, is taken to succeed. A move into
-- a directory or over a file follows shutil.move. Rollback, Keeps, BackUp, Install, Restores and Phases
-- hold the lemmas.
--
-- Correctness: of compat/correctness/validate.py, `safe_relative_path` (Path), `artifact_path` and
-- `raw_artifact` over the files below a root (Artifact), `validate_file_tree` (FileTree, with the order
-- of its keys in Keys), and `validate_run`, which applies them (Run). The files are looked at twice, so the
-- model has what they hold when hashed and what they hold later.
--
-- Cases: of compat/cases/m0-cli-contract.py, the inventory's commands and policies (Policy), the records and
-- tables of a signature (Token), what a token is by the parser's tables (Match), `case_resolution_signature` as
-- a state that reads one argument at a time (Resolve), `inventory_maps` and `build_family_equivalence`
-- (Inventory), the records of a case contract as `build_case_contract` derives them (Records), the checks of
-- `validate_contract` on one case (Contract), and those on the whole contract, as far as the end of the loop over
-- the cases (Validate). Equality holds Python's == on these. Tokens are ASCII, and the hashes of a policy and of
-- a suite are parameters.
--
-- Inventory: `validate_inventory_semantics` of compat/verify.py, on the same commands. Pins is what it expects, by
-- the pins of compat/inventory/expected-pins.v2.5.json, Commands its loop over the commands, Profiles its checks
-- on the generated tokens, Semantics the whole. Semantics/Composes puts it together with
-- `build_family_equivalence`: the first says of an inventory what the second needs.
--
-- Benchmarks: of compat/benchmarks/validate.py, `_distribution` and `_expected_summary` (Summary), `_artifact_path`
-- and `validate_suite` (Suite), `validate_result` (Result) and `validate_correctness_evidence`
-- (Evidence). A decoded document is a record; decoding one, with
-- its schema and its canonical form, is a parameter, and so are the files, the hash of bytes and of a directory's
-- tree, and the inventory's classifications. A file is the same whenever it is read.
--
-- Installation: of compat/installation/contract.py, `parse_tree` on the lines of the lock file, with the number of
-- entries as an argument, and `group_for_path` (Tree).
--
-- Observer: compat/installation/wave2/process-observer.py. Loop is the loop of `main` over rounds, each with the
-- time and what the kernel answers, Outcome the checks and files after it, Environment `parse_env_file` and the
-- lines that are written of the environment. Times are in ticks, with the number of ticks to a second a
-- parameter.
--
-- The loops run over lists and need no fuel; `decimal` alone takes fuel, one more than the number, which
-- is more than its digits.
--
-- Not modelled: process and container control, the file system calls of the capture scripts, JSON
-- Schema validation, the tables of literal cases, and the contracts of the other directories of compat/.
pub mod Base
pub mod Json
pub mod Resources
pub mod Tracefile
pub mod Replace
pub mod Correctness
pub mod Cases
pub mod Inventory
pub mod Benchmarks
pub mod Installation
pub mod Observer
pub mod Tests
