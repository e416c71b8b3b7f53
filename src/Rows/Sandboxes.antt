-- ===== src/Rows/Sandboxes.antt =====
-- Rows of spacetimedb/src/lib.rs: sandboxes with their snapshots and checkpoints. An `i64` or a
-- `Timestamp` is an integer (microseconds), a `u32` or a `u64` a natural number.
use cadet.Shared.{ℕ, String}
use cadet.Shared.Int.{ℤ}

pub record SandboxInstance : Type 0 where
  pub sandbox_id : String
  pub operator_id : String
  pub agent_id : String
  pub run_id : String
  pub snapshot_id : String
  pub status : String
  pub metadata_json : String
  pub created_at_micros : ℤ
  pub updated_at_micros : ℤ

pub record SandboxSnapshot : Type 0 where
  pub snapshot_id : String
  pub sandbox_id : String
  pub operator_id : String
  pub created_at_micros : ℤ

pub record AgentCheckpoint : Type 0 where
  pub checkpoint_id : String
  pub session_id : String
  pub sandbox_id : String
  pub snapshot_id : String
  pub label : String
  pub turn_number : ℕ
  pub created_at_micros : ℤ
