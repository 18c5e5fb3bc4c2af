-- ===== src/Observer.antt =====
-- The live-process observer, compat/installation/wave2/process-observer.py.
pub mod Loop
pub mod Outcome
pub mod Environment
