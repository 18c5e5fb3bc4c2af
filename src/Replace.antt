-- ===== src/Replace.antt =====
-- The replacement of committed captures, compat/installation/wave2/recapture.py.
pub mod Store
pub mod Commit
pub mod Rollback
pub mod Keeps
pub mod BackUp
pub mod Moved
pub mod Install
pub mod Restores
pub mod Phases
pub mod Commits
pub mod Lands
pub mod Returns
pub mod Loses
