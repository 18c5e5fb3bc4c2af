-- ===== src/Json.antt =====
-- JSON documents as the validators of compat/ see them, and their comparison.
pub mod Value
pub mod Equal
pub mod Observe
pub mod Sound
pub mod Complete
pub mod Duplicates
