-- ===== src/Reducers.antt =====
-- The reducers of spacetimedb/src/lib.rs. A reducer takes the database and returns the one that it
-- commits; the host discards what it wrote before an error or a panic.
pub mod Jobs
pub mod Schedules
pub mod Runs
pub mod Steps
pub mod Approvals
pub mod Browser
pub mod Messages
pub mod Memory
pub mod Sessions
pub mod Operators
pub mod Accounts
pub mod Bus
pub mod Training
pub mod Chat
pub mod Sandboxes
pub mod Skills
