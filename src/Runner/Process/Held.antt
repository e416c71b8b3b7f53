-- ===== src/Runner/Process/Held.antt =====
-- What `record_tool_call` and `record_browser_artifact` of spacetimedb/src/lib.rs leave as it is: the
-- browser task, its step and its run.
use cadet.Shared.{
  String, ◌≡◌, refl, ok, err, panicked, Option, some, Result, Ensures, Ensures-bind, Ensures-ok,
}
use cadet.Store.{Store}
use cadet.Rows.Workflow.{WorkflowStep, WorkflowRun}
use cadet.Rows.Browser.{BrowserTask}
use cadet.Db.{Db, Context}
use cadet.Reducers.Browser.{record_browser_artifact}
use cadet.Reducers.Memory.{record_tool_call}
use cadet.System.{commit}

module _ ⦃S : Store⦄ where
  pub commit_Ensures :
      {Q : Db → Type 0} (db : Db) {r : Result Db} → Q db → Ensures Q r → Q (commit db r)
  commit_Ensures db {r = ok after} q h = h.at after refl
  commit_Ensures db {r = err message} q h = q
  commit_Ensures db {r = panicked} q h = q

module _ ⦃S : Store⦄ (task : BrowserTask) where
  -- The task, its step and its run are there.
  pub record Held (step : WorkflowStep) (owner : WorkflowRun) (db : Db) : Type 0 where
    pub task_found : S.find db.browser_task task.task_id ≡ some task
    pub step_found : S.find db.workflow_step task.step_id ≡ some step
    pub run_found : S.find db.workflow_run task.run_id ≡ some owner

  module _ {step : WorkflowStep} {owner : WorkflowRun} (ctx : Context) (db : Db)
      (held : Held step owner db) where
    pub record_tool_call-Held :
        (tool_call_id run_id step_id agent_id tool_name status input_json : String)
        (output_json : Option String)
        → Ensures (Held step owner) (
            record_tool_call ctx tool_call_id run_id step_id agent_id tool_name status input_json
              output_json db)
    unfolding record_tool_call
    record_tool_call-Held i1 i2 i3 i4 i5 i6 i7 i8 = Ensures-bind λ _ _. Ensures-bind λ _ _.
        Ensures-bind λ _ _. Ensures-bind λ _ _. Ensures-bind λ _ _. Ensures-bind λ _ _.
          Ensures-bind λ _ _. Ensures-bind λ _ _. Ensures-bind λ _ _. Ensures-ok (record {
            task_found = held.task_found;
            step_found = held.step_found;
            run_found = held.run_found;
          })

    pub record_browser_artifact-Held :
        (artifact_id task_id run_id step_id kind title url metadata_json : String)
        → Ensures (Held step owner) (
            record_browser_artifact ctx artifact_id task_id run_id step_id kind title url
              metadata_json db)
    unfolding record_browser_artifact
    record_browser_artifact-Held i1 i2 i3 i4 i5 i6 i7 i8 = Ensures-bind λ _ _. Ensures-bind λ _ _.
        Ensures-bind λ _ _. Ensures-bind λ _ _. Ensures-bind λ _ _. Ensures-bind λ _ _.
          Ensures-bind λ _ _. Ensures-bind λ _ _. Ensures-bind λ _ _. Ensures-ok (record {
            task_found = held.task_found;
            step_found = held.step_found;
            run_found = held.run_found;
          })
