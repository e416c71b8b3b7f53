-- ===== src/Examples/Approvals.antt =====
-- Approvals and the statuses of runs on the tables of the examples.
use cadet.Shared.{◌≡◌, ◌≢◌, refl, ok, some, none, String}
use cadet.Shared.Int.{pos}
use cadet.Text.{trim}
use cadet.Vocab.Enum.{IsWord}
use cadet.Vocab.RunState.{run_state}
use cadet.Rows.Workflow.{WorkflowRun, WorkflowStep, ApprovalRequest}
use cadet.Db.{Db}
use cadet.System.{commit}
use cadet.Reducers.Approvals.{request_approval, resolve_approval}
use cadet.Reducers.Runs.{update_run_stage, update_run_status}
use cadet.Progress.{StepMoved, RunMoved}
use cadet.Progress.Approval.{
  request_approval_effect, resolve_approval_effect, waiting, resumed, resolved, run_after,
}
use cadet.Progress.Status.{update_run_stage_any, update_run_status_effect, staged, restated}
use cadet.Examples.{tables, at, workflow, busy, run_at, approval_at}

abbrev asked : Db
asked = commit busy (
    request_approval (at (pos 6)) "ask-2" "run-1" "run-1_learn" "saturn" "Post" "Now" "high"
      "operator" busy)

asked_lem :
    request_approval
      (at (pos 6))
      "ask-2"
      "run-1"
      "run-1_learn"
      "saturn"
      "Post"
      "Now"
      "high"
      "operator"
      busy
    ≡ ok asked
unfolding request_approval cadet.Shared.◌>>=◌ cadet.Text.validate_identifier
    cadet.Text.validate_text cadet.Validate.validate_browser_risk cadet.Validate.parse_as
    cadet.Vocab.ToolRisk.tool_risk cadet.Vocab.ToolRisk.from_str
    cadet.Reducers.Runs.update_workflow_run_status cadet.Validate.validate_workflow_run_status
    run_state cadet.Vocab.RunState.from_str
asked_lem = refl

request_approval_effect_example :
    (row : ApprovalRequest) × (approval_at asked (trim "ask-2") ≡ some row)
    × (row.status ≡ "pending")
    × (row.step_id ≡ trim "run-1_learn")
    × (row.run_id ≡ trim "run-1")
    × ((step : WorkflowStep) × StepMoved
          (trim "run-1_learn")
          step
          (waiting (at (pos 6)) (trim "ask-2") step)
          busy
          asked)
    × RunMoved (at (pos 6)) (trim "run-1") "awaiting-approval" "act" none busy asked
request_approval_effect_example =
    request_approval_effect (at (pos 6)) "ask-2" "run-1" "run-1_learn" "saturn" "Post" "Now" "high"
      "operator" busy asked_lem

abbrev rejected : Db
rejected = commit busy (resolve_approval (at (pos 7)) "ask-1" "rejected" "{}" busy)

rejected_lem : resolve_approval (at (pos 7)) "ask-1" "rejected" "{}" busy ≡ ok rejected
unfolding resolve_approval cadet.Shared.◌>>=◌ cadet.Text.validate_identifier
    cadet.Validate.validate_approval_status cadet.Validate.parse_as cadet.Text.validate_text
    cadet.Vocab.ApprovalStatus.approval_status cadet.Vocab.ApprovalStatus.from_str
    cadet.Text.normalize_json_blob cadet.Reducers.Runs.update_workflow_run_status
    cadet.Validate.validate_workflow_run_status cadet.Reducers.Runs.run_status_for_step_status
    cadet.Reducers.Runs.step_status_for_approval cadet.Vocab.ApprovalStatus.as_str run_state
    cadet.Vocab.RunState.from_str
rejected_lem = refl

resolve_approval_effect_example :
    (row : ApprovalRequest) × (approval_at busy (trim "ask-1") ≡ some row)
    × (approval_at rejected (trim "ask-1")
        ≡ some (resolved (at (pos 7)) (trim "rejected") (trim "{}") row))
    × ((step : WorkflowStep) × StepMoved row.step_id step
          (resumed (at (pos 7)) (trim "rejected") step)
          busy
          rejected)
    × RunMoved (at (pos 7)) row.run_id (run_after (trim "rejected")) "act" none busy rejected
resolve_approval_effect_example =
    resolve_approval_effect (at (pos 7)) "ask-1" "rejected" "{}" busy rejected_lem

update_run_stage_any_example :
    (db : Db) × (update_run_stage (at (pos 9)) "run-1" "no stage" busy ≡ ok db)
    × (run_at db "run-1" ≡ some (staged (at (pos 9)) "no stage" workflow))
    × ((k : String) → "run-1" ≢ k → run_at db k ≡ run_at busy k)
update_run_stage_any_example =
    update_run_stage_any (at (pos 9)) "run-1" "no stage" busy workflow refl

abbrev restarted : Db
restarted = commit busy (update_run_status (at (pos 9)) "run-1" " failed" busy)

restarted_lem : update_run_status (at (pos 9)) "run-1" " failed" busy ≡ ok restarted
unfolding update_run_status cadet.Shared.◌>>=◌ cadet.Validate.validate_workflow_run_status
    cadet.Validate.parse_as cadet.Text.validate_text run_state cadet.Vocab.RunState.from_str
restarted_lem = refl

update_run_status_effect_example :
    (run : WorkflowRun) × IsWord run_state (trim " failed")
    × (run_at busy "run-1" ≡ some run)
    × (run_at restarted "run-1" ≡ some (restated (at (pos 9)) (trim " failed") run))
    × ((k : String) → "run-1" ≢ k → run_at restarted k ≡ run_at busy k)
update_run_status_effect_example =
    update_run_status_effect (at (pos 9)) "run-1" " failed" busy restarted_lem
