-- ===== src/Progress/Tasks.antt =====
-- `enqueue_browser_task`, `complete_browser_task` and `fail_browser_task` of spacetimedb/src/lib.rs.
use cadet.Shared.{
  String, ◌≡◌, ◌≢◌, refl, sym, ◌∙◌, ok, Option, some, none, Ensures, Ensures-bind, Ensures-nest,
  or_err-eq-ok,
}
use cadet.Shared.Int.{ℤ}
use cadet.Store.{Store}
use cadet.Store.Tables.{update-Wrote, find-Wrote_self, find-Wrote_ne}
use cadet.Text.{trim}
use cadet.Text.Checks.{validate_identifier_iff, validate_text-eq-trim, normalize_json_blob-eq}
use cadet.Vocab.BrowserTaskState.{browser_task_state}
use cadet.Validate.{validate_browser_task_status}
use cadet.Validate.Words.{parse_as_iff}
use cadet.Rows.Workflow.{WorkflowStep}
use cadet.Rows.Browser.{BrowserTask}
use cadet.Db.{Db, Context, now_micros}
use cadet.Reducers.Browser.{complete_browser_task, fail_browser_task}
use cadet.Sound.Runs.{update_workflow_run_status_rule, block_linked_step_rule}
use cadet.Progress.{RunMoved, StepMoved}
use cadet.Progress.Completion.{moved_run, moved_step}

trim_word :
    (trim "completed" ≡ "completed")
    × (trim "failed" ≡ "failed")
    × (trim "ready" ≡ "ready")
    × (trim "running" ≡ "running")
unfolding trim
trim_word = (refl, refl, refl, refl)

module _ ⦃S : Store⦄ (ctx : Context) (task_id result_json : String) (db : Db) where
  -- The task with its end written in.
  abbrev pub task_ended : String → BrowserTask → BrowserTask
  task_ended status task = record task {
    status = status;
    result_json = some (trim result_json);
    updated_at_micros = now_micros ctx;
  }

  abbrev pub step_set : String → WorkflowStep → WorkflowStep
  step_set status step = record step { status = status; updated_at_micros = now_micros ctx }

  -- The task has ended with this status, its step and its run have the others.
  pub record TaskEnded (status step_status run_status : String) (completed : Option ℤ) (db' : Db)
      : Type 0 where
    pub task : BrowserTask
    pub found : S.find db.browser_task (trim task_id) ≡ some task
    pub ended : S.find db'.browser_task (trim task_id) ≡ some (task_ended status task)
    pub others :
        (k : String) → trim task_id ≢ k → S.find db'.browser_task k ≡ S.find db.browser_task k
    pub step : WorkflowStep
    pub step_moved : StepMoved task.step_id step (step_set step_status step) db db'
    pub run_moved : RunMoved ctx task.run_id run_status "verify" completed db db'

  complete_Ensures :
      Ensures
        (TaskEnded "completed" "ready" "running" none)
        (complete_browser_task ctx task_id result_json db)
  unfolding complete_browser_task validate_browser_task_status
  complete_Ensures = Ensures-bind λ id valid_id. Ensures-bind λ result valid_result.
      Ensures-bind λ task found. Ensures-bind λ status valid_status. Ensures-bind λ tasks wrote.
        Ensures-nest (
          block_linked_step_rule ctx _ _ _ λ step step_checked steps step_found step_is _ rewritten.
            update_workflow_run_status_rule ctx _ _ _ _ _ _
              λ run checked runs run_found is _ run_rewritten.
                let id_is = ((validate_identifier_iff task_id "task_id" id).0 valid_id).0 in
                let result_is =
                  (validate_text-eq-trim result_json "result_json"
                    (rw normalize_json_blob-eq at valid_result)).0 in
                let status_is =
                  ((parse_as_iff browser_task_state "completed" "status" status).0 valid_status).0
                  ∙ trim_word.0 in
                let known = or_err-eq-ok _ _ found in
                let key = S.find-key _ _ _ known in
                record {
                  task = task;
                  found = rw (← id_is) known;
                  ended =
                      rw (← status_is, ← result_is, ← id_is, ← key)
                        (find-Wrote_self (update-Wrote wrote));
                  others = λ k ne.
                      find-Wrote_ne k (update-Wrote wrote) (λ e. ne (sym id_is ∙ sym key ∙ e));
                  step = step;
                  step_moved =
                      moved_step ctx step_found refl (rw (step_is ∙ trim_word.2) at rewritten);
                  run_moved = moved_run ctx run_found (is ∙ trim_word.3) run_rewritten;
                })

  -- A browser task that completes is stored as completed with its result; its step, which was there,
  -- is ready again, and its run, which was there, is running at stage `verify` with no completion
  -- time. All other tasks, steps and runs are as they were.
  pub complete_browser_task_effect :
      {db' : Db}
      → complete_browser_task ctx task_id result_json db ≡ ok db'
      → TaskEnded "completed" "ready" "running" none db'
  complete_browser_task_effect {db'} e = complete_Ensures.at db' e

  fail_Ensures :
      Ensures
        (TaskEnded "failed" "failed" "failed" (some (now_micros ctx)))
        (fail_browser_task ctx task_id result_json db)
  unfolding fail_browser_task validate_browser_task_status
  fail_Ensures = Ensures-bind λ id valid_id. Ensures-bind λ result valid_result.
      Ensures-bind λ task found. Ensures-bind λ status valid_status. Ensures-bind λ tasks wrote.
        Ensures-nest (
          block_linked_step_rule ctx _ _ _ λ step step_checked steps step_found step_is _ rewritten.
            update_workflow_run_status_rule ctx _ _ _ _ _ _
              λ run checked runs run_found is _ run_rewritten.
                let id_is = ((validate_identifier_iff task_id "task_id" id).0 valid_id).0 in
                let result_is =
                  (validate_text-eq-trim result_json "result_json"
                    (rw normalize_json_blob-eq at valid_result)).0 in
                let status_is =
                  ((parse_as_iff browser_task_state "failed" "status" status).0 valid_status).0
                  ∙ trim_word.1 in
                let known = or_err-eq-ok _ _ found in
                let key = S.find-key _ _ _ known in
                record {
                  task = task;
                  found = rw (← id_is) known;
                  ended =
                      rw (← status_is, ← result_is, ← id_is, ← key)
                        (find-Wrote_self (update-Wrote wrote));
                  others = λ k ne.
                      find-Wrote_ne k (update-Wrote wrote) (λ e. ne (sym id_is ∙ sym key ∙ e));
                  step = step;
                  step_moved =
                      moved_step ctx step_found refl (rw (step_is ∙ trim_word.1) at rewritten);
                  run_moved = moved_run ctx run_found (is ∙ trim_word.1) run_rewritten;
                })

  -- A browser task that fails is stored as failed with its result; its step and its run, which were
  -- there, have failed, the run at stage `verify` at the time of the call. All other tasks, steps and
  -- runs are as they were.
  pub fail_browser_task_effect :
      {db' : Db}
      → fail_browser_task ctx task_id result_json db ≡ ok db'
      → TaskEnded "failed" "failed" "failed" (some (now_micros ctx)) db'
  fail_browser_task_effect {db'} e = fail_Ensures.at db' e
