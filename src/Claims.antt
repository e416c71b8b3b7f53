-- ===== src/Claims.antt =====
-- The claims of spacetimedb/src/lib.rs, by which a runner takes a workflow step or a browser task.
pub mod Steps
pub mod Tasks
use cadet.Shared.{String, ◌≡◌, ◌≢◌, some}
use cadet.Store.{Store}
use cadet.Text.{trim}
use cadet.Rows.Workflow.{WorkflowStep}
use cadet.Rows.Browser.{BrowserTask}
use cadet.Db.{Db, Context, now_micros}

module _ ⦃S : Store⦄ where
  -- The step was ready and for this owner; it is now running for this runner since the time of the
  -- call; every other step is as it was.
  pub record StepClaimed (ctx : Context) (step_id owner runner : String) (db db' : Db)
      : Type 0 where
    pub step : WorkflowStep
    pub found : S.find db.workflow_step step_id ≡ some step
    pub ready : step.status ≡ "ready"
    pub owned : step.owner_execution ≡ owner
    pub taken :
        S.find db'.workflow_step step_id
        ≡ some (record step {
          status = "running";
          runner_id = some runner;
          claimed_at_micros = some (now_micros ctx);
          updated_at_micros = now_micros ctx;
        })
    pub others : (k : String) → step_id ≢ k → S.find db'.workflow_step k ≡ S.find db.workflow_step k

  pub record TaskClaimed (ctx : Context) (task_id runner : String) (db db' : Db) : Type 0 where
    pub task : BrowserTask
    pub found : S.find db.browser_task task_id ≡ some task
    pub queued : task.status ≡ "queued"
    pub taken :
        S.find db'.browser_task task_id
        ≡ some (record task {
          status = "running";
          runner_id = some runner;
          updated_at_micros = now_micros ctx;
        })
    pub others : (k : String) → task_id ≢ k → S.find db'.browser_task k ≡ S.find db.browser_task k
