-- ===== src/Correctness.antt =====
-- The validation of retained baselines, compat/correctness/validate.py.
pub mod Path
pub mod Artifact
pub mod Keys
pub mod FileTree
pub mod Run
