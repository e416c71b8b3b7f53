-- ===== src/Examples/Tasks.antt =====
-- Browser tasks and messages on the tables of the examples.
use cadet.Shared.{◌≡◌, ◌≢◌, refl, ok, some, none}
use cadet.Shared.Int.{pos}
use cadet.Text.{trim}
use cadet.Db.{Db}
use cadet.System.{Call, perform, commit}
use cadet.Reducers.Browser.{claim_browser_task, complete_browser_task, fail_browser_task}
use cadet.Reducers.Messages.{ingest_message}
use cadet.Progress.Tasks.{TaskEnded, complete_browser_task_effect, fail_browser_task_effect}
use cadet.Progress.Threads.{Ingested, ingest_message_effect}
use cadet.Vocab.ExecutionOwner.{ExecutionOwner}
use cadet.Text.Checks.{IsIdentifier, IsTidy}
use cadet.Rows.Browser.{BrowserTask}
use cadet.Runner.{WorkerState, Action, maybe_handle_browser_task}
use cadet.Runner.Tasks.{maybe_handle_browser_task-takes}
use cadet.Claims.Tasks.{claim_browser_task_exclusive}
use cadet.Examples.{tables, at, task, busy, task_at}

abbrev claimed : Db
claimed = commit busy (claim_browser_task (at (pos 5)) "task-1" "runner-1" busy)

claimed_lem : claim_browser_task (at (pos 5)) "task-1" "runner-1" busy ≡ ok claimed
unfolding claim_browser_task cadet.Shared.◌>>=◌ cadet.Text.validate_identifier
    cadet.Text.validate_text cadet.Validate.validate_browser_task_status cadet.Validate.parse_as
    cadet.Vocab.BrowserTaskState.browser_task_state cadet.Vocab.BrowserTaskState.from_str
claimed_lem = refl

claim_browser_task_exclusive_example :
    claim_browser_task (at (pos 6)) "task-1" "runner-2" claimed ≢ ok busy
claim_browser_task_exclusive_example =
    claim_browser_task_exclusive (at (pos 5)) (at (pos 6)) "task-1" "task-1" "runner-1" "runner-2"
      busy claimed claimed_lem refl busy

abbrev completed : Db
completed = commit busy (complete_browser_task (at (pos 6)) "task-1" " {} " busy)

completed_lem : complete_browser_task (at (pos 6)) "task-1" " {} " busy ≡ ok completed
unfolding complete_browser_task cadet.Shared.◌>>=◌ cadet.Text.validate_identifier
    cadet.Text.normalize_json_blob cadet.Validate.validate_browser_task_status
    cadet.Validate.parse_as cadet.Text.validate_text cadet.Vocab.BrowserTaskState.browser_task_state
    cadet.Vocab.BrowserTaskState.from_str cadet.Reducers.Runs.block_linked_step
    cadet.Validate.validate_step_status cadet.Vocab.StepState.step_state
    cadet.Vocab.StepState.from_str cadet.Reducers.Runs.update_workflow_run_status
    cadet.Validate.validate_workflow_run_status cadet.Vocab.RunState.run_state
    cadet.Vocab.RunState.from_str
completed_lem = refl

complete_browser_task_effect_example :
    TaskEnded (at (pos 6)) "task-1" " {} " busy "completed" "ready" "running" none completed
complete_browser_task_effect_example =
    complete_browser_task_effect (at (pos 6)) "task-1" " {} " busy completed_lem

abbrev failed : Db
failed = commit busy (fail_browser_task (at (pos 6)) "task-1" "{}" busy)

failed_lem : fail_browser_task (at (pos 6)) "task-1" "{}" busy ≡ ok failed
unfolding fail_browser_task cadet.Shared.◌>>=◌ cadet.Text.validate_identifier
    cadet.Text.normalize_json_blob cadet.Validate.validate_browser_task_status
    cadet.Validate.parse_as cadet.Text.validate_text cadet.Vocab.BrowserTaskState.browser_task_state
    cadet.Vocab.BrowserTaskState.from_str cadet.Reducers.Runs.block_linked_step
    cadet.Validate.validate_step_status cadet.Vocab.StepState.step_state
    cadet.Vocab.StepState.from_str cadet.Reducers.Runs.update_workflow_run_status
    cadet.Validate.validate_workflow_run_status cadet.Vocab.RunState.run_state
    cadet.Vocab.RunState.from_str
failed_lem = refl

fail_browser_task_effect_example :
    TaskEnded (at (pos 6)) "task-1" "{}" busy "failed" "failed" "failed" (some (pos 6)) failed
fail_browser_task_effect_example =
    fail_browser_task_effect (at (pos 6)) "task-1" "{}" busy failed_lem

abbrev ingested : Db
ingested = commit busy (
    ingest_message (at (pos 6)) "thread-1" "web" "web-1" "Report" "event-1" (some "run-1") "inbound"
      "operator" "Please report" "{}" busy)

ingested_lem :
    ingest_message
      (at (pos 6))
      "thread-1"
      "web"
      "web-1"
      "Report"
      "event-1"
      (some "run-1")
      "inbound"
      "operator"
      "Please report"
      "{}"
      busy
    ≡ ok ingested
unfolding ingest_message cadet.Shared.◌>>=◌ cadet.Text.validate_identifier
    cadet.Validate.validate_channel cadet.Validate.parse_as cadet.Text.validate_text
    cadet.Vocab.MessageChannel.message_channel cadet.Vocab.MessageChannel.from_str
    cadet.Validate.validate_direction cadet.Vocab.MessageDirection.message_direction
    cadet.Vocab.MessageDirection.from_str cadet.Text.normalize_json_blob
ingested_lem = refl

ingest_message_effect_example :
    Ingested
      (at (pos 6))
      (trim "thread-1")
      (trim "web")
      (trim "web-1")
      (trim "Report")
      (trim "event-1")
      (some "run-1")
      (trim "inbound")
      (trim "operator")
      (trim "Please report")
      (trim "{}")
      busy
      ingested
ingest_message_effect_example =
    ingest_message_effect (at (pos 6)) "thread-1" "web" "web-1" "Report" "event-1" (some "run-1")
      "inbound" "operator" "Please report" "{}" busy ingested_lem

task_id-IsIdentifier : IsIdentifier "task-1"
unfolding trim cadet.Text.is_identifier_char
task_id-IsIdentifier = record { tidy = record { trimmed = refl; filled = refl }; chars = refl }

runner_id-IsTidy : IsTidy "runner-1"
unfolding trim
runner_id-IsTidy = record { trimmed = refl; filled = refl }

-- A worker for browser tasks.
abbrev browser : WorkerState
browser = record { owner = ExecutionOwner.browser_worker; runner_id = "runner-1" }

maybe_handle_browser_task-takes_example :
    (call : Call) × (maybe_handle_browser_task browser task ≡ Action.send call)
    × ((db' : Db) × (perform (at (pos 5)) call busy ≡ ok db')
        × ((taken : BrowserTask) × (task_at db' "task-1" ≡ some taken)
            × (maybe_handle_browser_task browser taken ≡ Action.process_browser_task taken)))
maybe_handle_browser_task-takes_example =
    maybe_handle_browser_task-takes (at (pos 5)) "runner-1" task busy refl task_id-IsIdentifier
      runner_id-IsTidy refl refl
