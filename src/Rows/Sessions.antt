-- ===== src/Rows/Sessions.antt =====
-- Rows of spacetimedb/src/lib.rs: the sessions of agents.
-- An `i64` is an integer (microseconds), and a `u32` a natural number.
use cadet.Shared.{ℕ, String, Bool}
use cadet.Shared.Int.{ℤ}

pub record AgentSessionRecord : Type 0 where
  pub session_id : String
  pub operator_id : String
  pub agent_id : String
  pub sandbox_id : String
  pub repo_url : String
  pub status : String
  pub cancel_requested : Bool
  pub turn_count : ℕ
  pub last_prompt : String
  pub created_at_micros : ℤ
  pub updated_at_micros : ℤ
