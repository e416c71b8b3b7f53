-- ===== src/Progress/Moves.antt =====
-- `update_workflow_run_status` and `block_linked_step` of spacetimedb/src/lib.rs: what they need to
-- succeed, and so `complete_browser_task` and `fail_browser_task`.
use cadet.Shared.{String, ◌≡◌, refl, ◌∙◌, ok, Option, some, none, false, ◌>>=◌}
use cadet.Shared.Int.{ℤ}
use cadet.Store.{Store}
use cadet.Store.Tables.{update_found}
use cadet.Text.{is_empty, trim, normalize_json_blob}
use cadet.Text.Checks.{
  IsIdentifier, validate_identifier_iff, validate_text_complete, normalize_json_blob-eq,
}
use cadet.Validate.{
  validate_workflow_run_status, validate_step_status, validate_browser_task_status,
}
use cadet.Rows.Workflow.{WorkflowStep, WorkflowRun}
use cadet.Rows.Browser.{BrowserTask}
use cadet.Db.{Db, Context, now_micros}
use cadet.Reducers.Runs.{update_workflow_run_status, block_linked_step}
use cadet.Reducers.Browser.{complete_browser_task, fail_browser_task}

words_accepted :
    (validate_step_status "ready" ≡ ok "ready")
    × (validate_step_status "failed" ≡ ok "failed")
    × (validate_workflow_run_status "running" ≡ ok "running")
    × (validate_workflow_run_status "failed" ≡ ok "failed")
    × (validate_browser_task_status "completed" ≡ ok "completed")
    × (validate_browser_task_status "failed" ≡ ok "failed")
unfolding validate_step_status validate_workflow_run_status validate_browser_task_status
    cadet.Validate.parse_as cadet.Vocab.StepState.step_state cadet.Vocab.StepState.from_str
    cadet.Vocab.StepState.as_str cadet.Vocab.RunState.run_state cadet.Vocab.RunState.from_str
    cadet.Vocab.RunState.as_str cadet.Vocab.BrowserTaskState.browser_task_state
    cadet.Vocab.BrowserTaskState.from_str cadet.Vocab.BrowserTaskState.as_str
    cadet.Text.validate_text ◌>>=◌ trim
words_accepted = (refl, refl, refl, refl, refl, refl)

module _ ⦃S : Store⦄ (ctx : Context) (db : Db) where
  pub run_moves :
      (run_id status stage : String) (completed : Option ℤ) (run : WorkflowRun)
      → validate_workflow_run_status status ≡ ok status
      → S.find db.workflow_run run_id ≡ some run
      → (db' : Db) × (update_workflow_run_status ctx run_id status stage none completed db ≡ ok db')
  unfolding update_workflow_run_status ◌>>=◌
  run_moves run_id status stage completed run accepted found =
      let row : WorkflowRun = record run {
        status = status;
        current_stage = stage;
        summary = none;
        updated_at_micros = now_micros ctx;
        completed_at_micros = completed;
      } in
      let (runs, updated) = update_found db.workflow_run row run found refl in
      (record db { workflow_run = runs }, rw (found, accepted, updated) refl)

  pub step_moves :
      (step_id status : String) (step : WorkflowStep)
      → validate_step_status status ≡ ok status
      → S.find db.workflow_step step_id ≡ some step
      → (steps : S.Table WorkflowStep (λ row. row.step_id)) × (block_linked_step ctx step_id status
            db
          ≡ ok (record db { workflow_step = steps }))
  unfolding block_linked_step ◌>>=◌
  step_moves step_id status step accepted found =
      let row : WorkflowStep = record step {
        status = status;
        updated_at_micros = now_micros ctx;
      } in
      let (steps, updated) = update_found db.workflow_step row step found refl in
      (steps, rw (found, accepted, updated) refl)

module _ ⦃S : Store⦄ (ctx : Context) (task_id result_json : String) (db : Db) (task : BrowserTask)
    (step : WorkflowStep) (run : WorkflowRun) (id_valid : IsIdentifier (trim task_id))
    (filled : is_empty (trim result_json) ≡ false)
    (found : S.find db.browser_task (trim task_id) ≡ some task)
    (step_found : S.find db.workflow_step task.step_id ≡ some step)
    (run_found : S.find db.workflow_run task.run_id ≡ some run) where
  result_ok : normalize_json_blob result_json "result_json" ≡ ok (trim result_json)
  result_ok =
      normalize_json_blob-eq result_json "result_json"
      ∙ validate_text_complete result_json "result_json" filled

  pub complete_browser_task_succeeds :
      (db' : Db) × (complete_browser_task ctx task_id result_json db ≡ ok db')
  unfolding complete_browser_task ◌>>=◌
  complete_browser_task_succeeds =
      let id_ok = (validate_identifier_iff task_id "task_id" (trim task_id)).1 (refl, id_valid) in
      let row : BrowserTask = record task {
        status = "completed";
        result_json = some (trim result_json);
        updated_at_micros = now_micros ctx;
      } in
      let (tasks, updated) = update_found db.browser_task row task found refl in
      let db₁ : Db = record db { browser_task = tasks } in
      let (steps, moved) =
        step_moves ctx db₁ task.step_id "ready" step words_accepted.0 step_found in
      let (db', ended) =
        run_moves ctx (record db₁ { workflow_step = steps }) task.run_id "running" "verify" none run
          words_accepted.2 run_found in
      (db', rw (id_ok, result_ok, found, words_accepted.4, updated, moved) ended)

  pub fail_browser_task_succeeds :
      (db' : Db) × (fail_browser_task ctx task_id result_json db ≡ ok db')
  unfolding fail_browser_task ◌>>=◌
  fail_browser_task_succeeds =
      let id_ok = (validate_identifier_iff task_id "task_id" (trim task_id)).1 (refl, id_valid) in
      let now = now_micros ctx in
      let row : BrowserTask = record task {
        status = "failed";
        result_json = some (trim result_json);
        updated_at_micros = now;
      } in
      let (tasks, updated) = update_found db.browser_task row task found refl in
      let db₁ : Db = record db { browser_task = tasks } in
      let (steps, moved) =
        step_moves ctx db₁ task.step_id "failed" step words_accepted.1 step_found in
      let (db', ended) =
        run_moves ctx (record db₁ { workflow_step = steps }) task.run_id "failed" "verify"
          (some now) run words_accepted.3 run_found in
      (db', rw (id_ok, result_ok, found, words_accepted.5, updated, moved) ended)
