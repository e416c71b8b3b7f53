-- ===== src/Rows/Skills.antt =====
-- Rows of spacetimedb/src/lib.rs: the skills and hooks of agents. An `i64` or a `Timestamp` is
-- an integer (microseconds), a `u32` or a `u64` a natural number.
use cadet.Shared.{ℕ, String, Bool}
use cadet.Shared.Int.{ℤ}

pub record AgentSkill : Type 0 where
  pub skill_id : String
  pub name : String
  pub description : String
  pub category : String
  pub version : String
  pub author : String
  pub token_estimate : ℕ
  pub content : String
  pub activation_patterns_json : String
  pub source : String
  pub created_at_micros : ℤ
  pub updated_at_micros : ℤ

pub record AgentHook : Type 0 where
  pub hook_id : String
  pub event : String
  pub name : String
  pub description : String
  pub handler : String
  pub enabled : Bool
  pub priority : ℕ
  pub operator_id : String
  pub created_at_micros : ℤ
  pub updated_at_micros : ℤ
