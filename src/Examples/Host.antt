-- ===== src/Examples/Host.antt =====
-- Calls of the host on the tables of the examples.
use mathlib.Core.Option
use cadet.Shared.{some, ◌>>=◌, refl, String, ◌≡◌, ◌≢◌, refl, ok, none, panicked, List, [], ◌∷◌}
use cadet.Shared.Int.{pos}
use cadet.Db.{Db, Context}
use cadet.Sound.{Sound}
use cadet.Reducers.Jobs.{enqueue_job}
use cadet.System.{Call, perform, commit, run}
use cadet.System.Invariant.{run-Sound}
use cadet.System.Panics.{Checks, perform_never_panics}
use cadet.Panics.Duplicates.{enqueue_job_again_panics}
use cadet.Examples.{run_at, tables, at, busy}
use cadet.Examples.Schedules.{scheduled, scheduled-Sound}

-- A message opens a thread, a run of the agent is started in it, and its last step is done.
abbrev calls : List (Context × Call)
calls =
    (
      at (pos 200),
      Call.ingest_message "thread-1" "web" "web-1" "Report" "event-1" none "inbound" "operator"
          "Please report" "{}",
    )
    ∷ (
      at (pos 201),
      Call.start_workflow_run "run-1" "thread-1" "saturn" "report" "normal" "chat" "operator" "{}",
    )
    ∷ (
      at (pos 202),
      Call.enqueue_workflow_step "run-1_learn" "run-1" "saturn" "learn" "learning-worker" "{}" none,
    )
    ∷ (at (pos 203), Call.claim_workflow_step "run-1_learn" "learning-worker" "runner-1")
    ∷ (at (pos 204), Call.complete_workflow_step "run-1_learn" "{}")
    ∷ []

run-Sound_example : Sound (run calls scheduled)
run-Sound_example = run-Sound calls scheduled scheduled-Sound

-- The calls all succeed: the run has completed.
calls_complete :
    Option.map (λ row. row.status) (run_at (run calls scheduled) "run-1") ≡ some "completed"
unfolding run perform ◌>>=◌ cadet.Reducers.Messages.ingest_message
    cadet.Reducers.Runs.start_workflow_run cadet.Reducers.Steps.enqueue_workflow_step
    cadet.Reducers.Steps.claim_workflow_step cadet.Reducers.Steps.complete_workflow_step
    cadet.Reducers.Steps.check_option cadet.Reducers.Runs.update_workflow_run_status
    cadet.Reducers.Runs.run_status_after_step_completion cadet.Text.validate_identifier
    cadet.Text.validate_text cadet.Text.normalize_json_blob cadet.Validate.parse_as
    cadet.Validate.validate_channel cadet.Validate.validate_direction
    cadet.Validate.validate_priority cadet.Validate.validate_stage
    cadet.Validate.validate_execution_owner cadet.Validate.validate_workflow_run_status
    cadet.Vocab.MessageChannel.message_channel cadet.Vocab.MessageChannel.from_str
    cadet.Vocab.MessageChannel.as_str cadet.Vocab.MessageDirection.message_direction
    cadet.Vocab.MessageDirection.from_str cadet.Vocab.MessageDirection.as_str
    cadet.Vocab.JobPriority.job_priority cadet.Vocab.JobPriority.from_str
    cadet.Vocab.JobPriority.as_str cadet.Vocab.WorkflowStage.workflow_stage
    cadet.Vocab.WorkflowStage.from_str cadet.Vocab.WorkflowStage.as_str
    cadet.Vocab.ExecutionOwner.execution_owner cadet.Vocab.ExecutionOwner.from_str
    cadet.Vocab.ExecutionOwner.as_str cadet.Vocab.RunState.run_state cadet.Vocab.RunState.from_str
    cadet.Vocab.RunState.as_str
calls_complete = refl

perform_never_panics_example :
    perform (at (pos 5)) (Call.claim_workflow_step "run-1_learn" "vercel-edge" "runner-1") busy
    ≢ panicked
perform_never_panics_example =
    perform_never_panics (at (pos 5)) busy
      (Call.claim_workflow_step "run-1_learn" "vercel-edge" "runner-1") Checks.claim_workflow_step

abbrev enqueued : Db
enqueued =
    commit busy (enqueue_job (at (pos 5)) "job-1" "saturn" "report" "high" "operator" "{}" busy)

enqueued_lem :
    enqueue_job (at (pos 5)) "job-1" "saturn" "report" "high" "operator" "{}" busy ≡ ok enqueued
unfolding enqueue_job cadet.Shared.◌>>=◌ cadet.Text.validate_identifier cadet.Text.validate_text
    cadet.Validate.validate_priority cadet.Validate.parse_as cadet.Vocab.JobPriority.job_priority
    cadet.Vocab.JobPriority.from_str cadet.Text.normalize_json_blob
enqueued_lem = refl

enqueue_job_again_panics_example :
    enqueue_job (at (pos 6)) "job-1" "saturn" "report" "high" "operator" "{}" enqueued ≡ panicked
enqueue_job_again_panics_example =
    enqueue_job_again_panics (at (pos 5)) (at (pos 6)) "job-1" "saturn" "report" "high" "operator"
      "{}" busy enqueued_lem
