-- ===== src/Tracefile.antt =====
-- compat/fixtures/m0-tracefiles/validation_common.py: the two readers of LCOV tracefiles.
pub mod Section
pub mod Output
pub mod Input
pub mod Preserve
pub mod Argv
pub mod Stderr
pub mod Metadata
