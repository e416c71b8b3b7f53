-- ===== src/Progress.antt =====
-- How the reducers of spacetimedb/src/lib.rs move workflow steps and runs from status to status.
pub mod Completion
pub mod Approval
pub mod Status
pub mod Pipeline
pub mod Enqueue
pub mod Tasks
pub mod Threads
pub mod Moves
pub mod Unguarded
use cadet.Shared.{
  String, ◌≡◌, ◌≢◌, Option, some, none, refl, ◌==◌, if◌then◌else◌, Bool-cases, inl, inr,
}
use cadet.Shared.Int.{ℤ}
use cadet.Store.{Store}
use cadet.Text.{trim}
use cadet.Rows.Workflow.{WorkflowRun, WorkflowStep}
use cadet.Db.{Db, Context, now_micros}

module _ ⦃S : Store⦄ where
  -- The run was there, and has this status, stage and completion time since the time of the call;
  -- every other run is as it was.
  pub record RunMoved (ctx : Context) (run_id status stage : String) (completed : Option ℤ)
      (db db' : Db) : Type 0 where
    pub run : WorkflowRun
    pub found : S.find db.workflow_run run_id ≡ some run
    pub moved :
        S.find db'.workflow_run run_id
        ≡ some (record run {
          status = status;
          current_stage = stage;
          summary = none;
          updated_at_micros = now_micros ctx;
          completed_at_micros = completed;
        })
    pub others : (k : String) → run_id ≢ k → S.find db'.workflow_run k ≡ S.find db.workflow_run k

  -- The step `before` was there, and is now `after`; every other step is as it was.
  pub record StepMoved (step_id : String) (before after : WorkflowStep) (db db' : Db) : Type 0 where
    pub found : S.find db.workflow_step step_id ≡ some before
    pub moved : S.find db'.workflow_step step_id ≡ some after
    pub others : (k : String) → step_id ≢ k → S.find db'.workflow_step k ≡ S.find db.workflow_step k
