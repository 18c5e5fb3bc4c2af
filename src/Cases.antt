-- ===== src/Cases.antt =====
-- The static suites of command lines, compat/cases/m0-cli-contract.py.
pub mod Policy
pub mod Token
pub mod Match
pub mod Resolve
pub mod Equality
pub mod Inventory
pub mod Records
pub mod Contract
pub mod Validate
