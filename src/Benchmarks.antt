-- ===== src/Benchmarks.antt =====
-- The benchmark suites, samples and results of compat/benchmarks/validate.py.
pub mod Summary
pub mod Suite
pub mod Result
pub mod Evidence
