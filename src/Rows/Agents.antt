-- ===== src/Rows/Agents.antt =====
-- Rows of spacetimedb/src/lib.rs: agents, jobs, notes, presence and schedules.
-- An `i64` and a `Timestamp` are integers (microseconds), and `u32` and `u64` natural numbers.
use cadet.Shared.{ℕ, String, Bool, Option}
use cadet.Shared.Int.{ℤ}
use cadet.Store.{Store}

pub record AgentRecord : Type 0 where
  pub agent_id : String
  pub display_name : String
  pub runtime : String
  pub control_plane : String
  pub execution_target : String
  pub workflow : String
  pub model : String
  pub tags_json : String
  pub updated_at : ℤ

module _ ⦃S : Store⦄ where
  pub record JobRecord : Type 0 where
    pub job_id : String
    pub agent_id : String
    pub goal : String
    pub priority : String
    pub requested_by : String
    pub requested_by_identity : S.Identity
    pub context_json : String
    pub status : String
    pub runner_id : Option String
    pub result_summary : Option String
    pub created_at : ℤ
    pub updated_at : ℤ

pub record MemoryNote : Type 0 where
  pub id : ℕ
  pub agent_id : String
  pub namespace : String
  pub content : String
  pub created_at : ℤ

pub record RunnerPresence : Type 0 where
  pub runner_id : String
  pub agent_id : String
  pub control_plane : String
  pub status : String
  pub last_seen_at : ℤ

pub record ScheduleRecord : Type 0 where
  pub schedule_id : String
  pub agent_id : String
  pub control_plane : String
  pub goal : String
  pub interval_minutes : ℕ
  pub priority : String
  pub requested_by : String
  pub enabled : Bool
  pub next_run_at_micros : ℤ
  pub last_run_at_micros : Option ℤ
  pub last_job_id : Option String
  pub status : String
  pub updated_at : ℤ
