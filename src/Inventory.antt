-- ===== src/Inventory.antt =====
-- The checks of compat/verify.py on the inventory of the commands.
pub mod Pins
pub mod Commands
pub mod Profiles
pub mod Semantics
