-- ===== src/Panics.antt =====
-- The panics of the reducers of spacetimedb/src/lib.rs: the host panics at an insert under a key that
-- is taken and at an update under one that is not.
pub mod Rules
pub mod Calls
pub mod Records
pub mod Platform
pub mod Duplicates
