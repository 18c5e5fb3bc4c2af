-- ===== src/Tests.antt =====
-- Runs of the models on small inputs, and the theorems at inputs that meet their hypotheses.
pub mod Resources
pub mod Json
pub mod Stderr
pub mod Metadata
pub mod Argv
pub mod Run
pub mod Cases
pub mod Inventory
pub mod Benchmarks
pub mod Installation
pub mod Observer
pub mod Correctness
pub mod Replace
pub mod Tracefile
