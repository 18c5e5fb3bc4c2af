-- ===== src/Resources.antt =====
-- compat/resources: the deterministic profiles, their inputs, and the summary LCOV prints of them.
pub mod Profile
pub mod Generate
pub mod Analyze
pub mod Shape
pub mod Summary
pub mod Reader
