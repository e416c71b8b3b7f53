-- ===== src/Rows/Browser.antt =====
-- Rows of spacetimedb/src/lib.rs: browser tasks and artifacts.
-- An `i64` and a `Timestamp` are integers (microseconds), and `u32` and `u64` natural numbers.
use cadet.Shared.{String, Option}
use cadet.Shared.Int.{ℤ}

pub record BrowserTask : Type 0 where
  pub task_id : String
  pub run_id : String
  pub step_id : String
  pub agent_id : String
  pub mode : String
  pub risk : String
  pub status : String
  pub owner_execution : String
  pub url : String
  pub request_json : String
  pub result_json : Option String
  pub runner_id : Option String
  pub created_at_micros : ℤ
  pub updated_at_micros : ℤ

pub record BrowserArtifact : Type 0 where
  pub artifact_id : String
  pub task_id : String
  pub run_id : String
  pub step_id : String
  pub kind : String
  pub title : String
  pub url : String
  pub metadata_json : String
  pub created_at_micros : ℤ
