-- ===== src/Rows/Workflow.antt =====
-- Rows of spacetimedb/src/lib.rs: workflow runs, steps, approvals and tool calls.
-- An `i64` and a `Timestamp` are integers (microseconds), and `u32` and `u64` natural numbers.
use cadet.Shared.{ℕ, String, Option}
use cadet.Shared.Int.{ℤ}

pub record WorkflowRun : Type 0 where
  pub run_id : String
  pub thread_id : String
  pub agent_id : String
  pub goal : String
  pub priority : String
  pub trigger_source : String
  pub requested_by : String
  pub current_stage : String
  pub status : String
  pub summary : Option String
  pub context_json : String
  pub created_at_micros : ℤ
  pub updated_at_micros : ℤ
  pub completed_at_micros : Option ℤ

pub record WorkflowStep : Type 0 where
  pub step_id : String
  pub run_id : String
  pub agent_id : String
  pub stage : String
  pub owner_execution : String
  pub status : String
  pub input_json : String
  pub output_json : Option String
  pub retry_count : ℕ
  pub depends_on_step_id : Option String
  pub approval_request_id : Option String
  pub runner_id : Option String
  pub created_at_micros : ℤ
  pub updated_at_micros : ℤ
  pub claimed_at_micros : Option ℤ
  pub completed_at_micros : Option ℤ

pub record ApprovalRequest : Type 0 where
  pub approval_id : String
  pub run_id : String
  pub step_id : String
  pub agent_id : String
  pub title : String
  pub detail : String
  pub status : String
  pub risk : String
  pub requested_by : String
  pub resolution_json : Option String
  pub created_at_micros : ℤ
  pub updated_at_micros : ℤ

pub record ToolCallRecord : Type 0 where
  pub tool_call_id : String
  pub run_id : String
  pub step_id : String
  pub agent_id : String
  pub tool_name : String
  pub status : String
  pub input_json : String
  pub output_json : Option String
  pub created_at_micros : ℤ
  pub updated_at_micros : ℤ
