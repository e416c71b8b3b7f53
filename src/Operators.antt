-- ===== src/Operators.antt =====
-- The reducers of spacetimedb/src/lib.rs for operators: what they do to the tables.
pub mod Challenges
