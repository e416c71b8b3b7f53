-- ===== src/Rows.antt =====
-- The rows of the tables of spacetimedb/src/lib.rs, by the part of the system that they serve.
pub mod Agents
pub mod Threads
pub mod Workflow
pub mod Browser
pub mod Memory
pub mod Sessions
pub mod Operators
pub mod Bus
pub mod Chat
pub mod Training
pub mod Sandboxes
pub mod Skills
