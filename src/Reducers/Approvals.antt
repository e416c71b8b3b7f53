-- ===== src/Reducers/Approvals.antt =====
-- The reducers of spacetimedb/src/lib.rs for approvals of a step.
use cadet.Shared.{String, none, some, Result, ◌>>=◌, or_err}
use cadet.Store.{Store}
use cadet.Text.{validate_identifier, validate_text, normalize_json_blob}
use cadet.Validate.{validate_browser_risk, validate_approval_status}
use cadet.Db.{Db, Context, now_micros}
use cadet.Reducers.Runs.{
  step_status_for_approval, run_status_for_step_status, update_workflow_run_status,
}

module _ ⦃S : Store⦄ where
  unfoldable pub request_approval :
      Context
      → String
      → String
      → String
      → String
      → String
      → String
      → String
      → String
      → Db
      → Result Db
  request_approval ctx approval_id run_id step_id agent_id title detail risk requested_by db = do
    approval_id ← validate_identifier approval_id "approval_id"
    run_id ← validate_identifier run_id "run_id"
    step_id ← validate_identifier step_id "step_id"
    agent_id ← validate_identifier agent_id "agent_id"
    title ← validate_text title "title"
    detail ← validate_text detail "detail"
    risk ← validate_browser_risk risk
    requested_by ← validate_text requested_by "requested_by"
    let now = now_micros ctx
    approvals ← S.insert db.approval_request (record {
      approval_id = approval_id;
      run_id = run_id;
      step_id = step_id;
      agent_id = agent_id;
      title = title;
      detail = detail;
      status = "pending";
      risk = risk;
      requested_by = requested_by;
      resolution_json = none;
      created_at_micros = now;
      updated_at_micros = now;
    })
    step ← or_err (S.find db.workflow_step step_id) "workflow step not found"
    steps ← S.update db.workflow_step (record step {
      status = "awaiting-approval";
      approval_request_id = some approval_id;
      updated_at_micros = now;
    })
    update_workflow_run_status ctx run_id "awaiting-approval" "act" none none
        (record db { approval_request = approvals; workflow_step = steps })

  unfoldable pub resolve_approval : Context → String → String → String → Db → Result Db
  resolve_approval ctx approval_id status resolution_json db = do
    approval_id ← validate_identifier approval_id "approval_id"
    status ← validate_approval_status status
    resolution_json ← normalize_json_blob resolution_json "resolution_json"
    let now = now_micros ctx
    approval ← or_err (S.find db.approval_request approval_id) "approval request not found"
    approvals ← S.update db.approval_request (record approval {
      status = status;
      resolution_json = some resolution_json;
      updated_at_micros = now;
    })
    step ← or_err (S.find db.workflow_step approval.step_id) "workflow step not found"
    let step_status = step_status_for_approval status
    steps ←
        S.update db.workflow_step (record step { status = step_status; updated_at_micros = now })
    update_workflow_run_status ctx approval.run_id (run_status_for_step_status step_status) "act"
        none none (record db { approval_request = approvals; workflow_step = steps })
