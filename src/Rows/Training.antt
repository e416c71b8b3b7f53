-- ===== src/Rows/Training.antt =====
-- Rows of spacetimedb/src/lib.rs: trajectories, their scores, and training. An `i64` or a
-- `Timestamp` is an integer (microseconds), a `u32` or a `u64` a natural number, an `f32` or an
-- `f64` a number of the interface.
use cadet.Shared.{ℕ, String, Bool}
use cadet.Shared.Int.{ℤ}
use cadet.Store.{Store}

pub record TrajectoryLog : Type 0 where
  pub trajectory_id : String
  pub run_id : String
  pub step_id : String
  pub agent_id : String
  pub stage : String
  pub instruction : String
  pub context_toon : String
  pub output : String
  pub tool_calls_json : String
  pub success : Bool
  pub duration_ms : ℕ
  pub created_at_micros : ℤ

module _ ⦃S : Store⦄ where
  pub record TrajectoryScore : Type 0 where
    pub score_id : String
    pub trajectory_id : String
    pub run_id : String
    pub correctness : S.f32.Carrier
    pub efficiency : S.f32.Carrier
    pub tool_use_quality : S.f32.Carrier
    pub adherence : S.f32.Carrier
    pub composite : S.f32.Carrier
    pub loss : S.f32.Carrier
    pub surprise : S.f32.Carrier
    pub delight : S.f32.Carrier
    pub source : String
    pub judge_model : String
    pub judge_reasoning : String
    pub rlvr_signals_json : String
    pub created_at_micros : ℤ

module _ ⦃S : Store⦄ where
  pub record TrainingBuffer : Type 0 where
    pub buffer_id : String
    pub trajectory_id : String
    pub score_id : String
    pub delight : S.f32.Carrier
    pub task_cluster : String
    pub consumed : Bool
    pub created_at_micros : ℤ

module _ ⦃S : Store⦄ where
  pub record TrainingRun : Type 0 where
    pub training_id : String
    pub base_model : String
    pub adapter_path : String
    pub method : String
    pub trajectory_count : ℕ
    pub group_count : ℕ
    pub epochs : ℕ
    pub final_loss : S.f32.Carrier
    pub delight_threshold : S.f32.Carrier
    pub duration_seconds : ℕ
    pub status : String
    pub created_at_micros : ℤ
