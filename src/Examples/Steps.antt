-- ===== src/Examples/Steps.antt =====
-- Workflow steps on the tables of the examples.
use cadet.Shared.{[], ◌∷◌, String, none, ◌≡◌, ◌≢◌, refl, ok, some, none}
use cadet.Shared.Int.{pos}
use cadet.Text.{trim}
use cadet.Text.Checks.{IsIdentifier}
use cadet.Vocab.Enum.{IsWord}
use cadet.Vocab.ExecutionOwner.{ExecutionOwner, execution_owner}
use cadet.Rows.Workflow.{WorkflowStep}
use cadet.Db.{Db}
use cadet.System.{commit}
use cadet.Reducers.Steps.{
  enqueue_workflow_step, claim_workflow_step, complete_workflow_step, fail_workflow_step,
}
use cadet.Reducers.Runs.{update_run_stage, update_run_status}
use cadet.Claims.Steps.{claim_workflow_step_succeeds, claim_workflow_step_exclusive}
use cadet.Progress.{StepMoved, RunMoved}
use cadet.Progress.Completion.{
  status_after, finished_at, complete_workflow_step_effect, fail_workflow_step_effect,
}
use cadet.Examples.{workflow, tables, at, step, busy, step_at}
use cadet.Progress.Unguarded.{complete_workflow_step_succeeds}
use cadet.Progress.Enqueue.{enqueued, enqueue_workflow_step_effect}

abbrev claimed : Db
claimed =
    commit busy (claim_workflow_step (at (pos 5)) "run-1_learn" "learning-worker" " runner-1 " busy)

claimed_lem :
    claim_workflow_step (at (pos 5)) "run-1_learn" "learning-worker" " runner-1 " busy ≡ ok claimed
unfolding claim_workflow_step cadet.Shared.◌>>=◌ cadet.Text.validate_identifier
    cadet.Validate.validate_execution_owner cadet.Validate.parse_as cadet.Text.validate_text
    execution_owner cadet.Vocab.ExecutionOwner.from_str cadet.Vocab.ExecutionOwner.as_str
claimed_lem = refl

claim_workflow_step_exclusive_example :
    claim_workflow_step (at (pos 6)) " run-1_learn" "learning-worker" "runner-2" claimed ≢ ok busy
unfolding trim
claim_workflow_step_exclusive_example =
    claim_workflow_step_exclusive (at (pos 5)) (at (pos 6)) "run-1_learn" " run-1_learn"
      "learning-worker" "learning-worker" " runner-1 " "runner-2" busy claimed claimed_lem refl busy

id_valid : IsIdentifier (trim "run-1_learn")
unfolding trim cadet.Text.is_identifier_char
id_valid = record { tidy = record { trimmed = refl; filled = refl }; chars = refl }

owner-IsWord : IsWord execution_owner (trim "learning-worker")
unfolding trim execution_owner cadet.Vocab.ExecutionOwner.as_str
owner-IsWord = record { variant = ExecutionOwner.learning_worker; spelled = refl }

claim_workflow_step_succeeds_example :
    (db : Db) × (claim_workflow_step (at (pos 5)) "run-1_learn" "learning-worker" "runner-1" busy
      ≡ ok db)
unfolding trim
claim_workflow_step_succeeds_example =
    claim_workflow_step_succeeds (at (pos 5)) "run-1_learn" "learning-worker" "runner-1" busy step
      id_valid owner-IsWord refl refl refl refl

abbrev completed : Db
completed = commit busy (complete_workflow_step (at (pos 8)) "run-1_learn" "{}" busy)

completed_lem : complete_workflow_step (at (pos 8)) "run-1_learn" "{}" busy ≡ ok completed
unfolding complete_workflow_step cadet.Shared.◌>>=◌ cadet.Text.validate_identifier
    cadet.Text.normalize_json_blob cadet.Reducers.Runs.update_workflow_run_status
    cadet.Validate.validate_workflow_run_status cadet.Validate.parse_as cadet.Text.validate_text
    cadet.Reducers.Runs.run_status_after_step_completion cadet.Vocab.RunState.run_state
    cadet.Vocab.RunState.from_str
completed_lem = refl

complete_workflow_step_effect_example :
    (row : WorkflowStep) × StepMoved
      (trim "run-1_learn")
      row
      (record row {
        status = "completed";
        output_json = some (trim "{}");
        updated_at_micros = pos 8;
        completed_at_micros = some (pos 8);
      })
      busy
      completed
    × RunMoved
        (at (pos 8))
        row.run_id
        (status_after row.stage)
        row.stage
        (finished_at row.stage (pos 8))
        busy
        completed
complete_workflow_step_effect_example =
    complete_workflow_step_effect (at (pos 8)) "run-1_learn" "{}" busy completed_lem

abbrev failed : Db
failed = commit busy (fail_workflow_step (at (pos 8)) "run-1_learn" "{}" busy)

failed_lem : fail_workflow_step (at (pos 8)) "run-1_learn" "{}" busy ≡ ok failed
unfolding fail_workflow_step cadet.Shared.◌>>=◌ cadet.Text.validate_identifier
    cadet.Text.normalize_json_blob cadet.Reducers.Runs.update_workflow_run_status
    cadet.Validate.validate_workflow_run_status cadet.Validate.parse_as cadet.Text.validate_text
    cadet.Vocab.RunState.run_state cadet.Vocab.RunState.from_str
failed_lem = refl

fail_workflow_step_effect_example :
    (row : WorkflowStep) × StepMoved
      (trim "run-1_learn")
      row
      (record row {
        status = "failed";
        output_json = some (trim "{}");
        updated_at_micros = pos 8;
        completed_at_micros = some (pos 8);
      })
      busy
      failed
    × RunMoved (at (pos 8)) row.run_id "failed" row.stage (some (pos 8)) busy failed
fail_workflow_step_effect_example =
    fail_workflow_step_effect (at (pos 8)) "run-1_learn" "{}" busy failed_lem

abbrev enqueued_db : Db
enqueued_db = commit busy (
    enqueue_workflow_step (at (pos 4)) "run-1_verify" "run-1" "saturn" "verify" "browser-worker"
      "{}" (some "run-1_learn") busy)

enqueued_lem :
    enqueue_workflow_step
      (at (pos 4))
      "run-1_verify"
      "run-1"
      "saturn"
      "verify"
      "browser-worker"
      "{}"
      (some "run-1_learn")
      busy
    ≡ ok enqueued_db
unfolding enqueue_workflow_step cadet.Shared.◌>>=◌ cadet.Text.validate_identifier
    cadet.Validate.validate_stage cadet.Validate.parse_as cadet.Text.validate_text
    cadet.Vocab.WorkflowStage.workflow_stage cadet.Vocab.WorkflowStage.from_str
    cadet.Validate.validate_execution_owner execution_owner cadet.Vocab.ExecutionOwner.from_str
    cadet.Text.normalize_json_blob cadet.Reducers.Steps.check_option
    cadet.Reducers.Runs.update_workflow_run_status cadet.Validate.validate_workflow_run_status
    cadet.Vocab.RunState.run_state cadet.Vocab.RunState.from_str
enqueued_lem = refl

enqueue_workflow_step_effect_example :
    (step_at busy (trim "run-1_verify") ≡ none)
    × (step_at enqueued_db (trim "run-1_verify")
        ≡ some (
            enqueued
              (at (pos 4))
              "run-1_verify"
              "run-1"
              "saturn"
              "verify"
              "browser-worker"
              "{}"
              (some "run-1_learn")))
    × ((k : String) → trim "run-1_verify" ≢ k → step_at enqueued_db k ≡ step_at busy k)
    × RunMoved (at (pos 4)) (trim "run-1") "queued" (trim "verify") none busy enqueued_db
enqueue_workflow_step_effect_example =
    enqueue_workflow_step_effect (at (pos 4)) "run-1_verify" "run-1" "saturn" "verify"
      "browser-worker" "{}" (some "run-1_learn") busy enqueued_lem

-- A step that has failed, with its run.
abbrev dead : Db
dead = record busy {
  workflow_step = record step { status = "failed"; runner_id = some "runner-1" } ∷ [];
}

complete_workflow_step_succeeds_example :
    (db : Db) × (complete_workflow_step (at (pos 9)) "run-1_learn" "{}" dead ≡ ok db)
unfolding trim
complete_workflow_step_succeeds_example =
    complete_workflow_step_succeeds (at (pos 9)) "run-1_learn" "{}" dead
      (record step { status = "failed"; runner_id = some "runner-1" }) workflow id_valid refl refl
      refl
