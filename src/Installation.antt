-- ===== src/Installation.antt =====
-- The installed tree of compat/installation/contract.py.
pub mod Tree
