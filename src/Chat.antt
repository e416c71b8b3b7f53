-- ===== src/Chat.antt =====
-- The state of chat bots in spacetimedb/src/lib.rs, as a map from keys to entries.
pub mod State
