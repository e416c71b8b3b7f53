-- ===== src/Progress/Approval.antt =====
-- `request_approval` and `resolve_approval` of spacetimedb/src/lib.rs.
use cadet.Shared.{
  String, ◌≡◌, refl, ◌∙◌, ok, some, none, ◌==◌, if◌then◌else◌, Bool-cases, inl, inr, Ensures,
  Ensures-bind, or_err-eq-ok,
}
use cadet.Store.{Store}
use cadet.Store.Tables.{insert-Wrote, update-Wrote, find-Wrote_self}
use cadet.Text.{trim}
use cadet.Text.Checks.{validate_identifier_iff, validate_text-eq-trim, normalize_json_blob-eq}
use cadet.Vocab.ApprovalStatus.{approval_status}
use cadet.Validate.{validate_approval_status}
use cadet.Validate.Words.{parse_as_iff}
use cadet.Rows.Workflow.{WorkflowStep, ApprovalRequest}
use cadet.Db.{Db, Context, now_micros}
use cadet.Reducers.Runs.{step_status_for_approval, run_status_for_step_status}
use cadet.Reducers.Approvals.{request_approval, resolve_approval}
use cadet.Sound.Runs.{update_workflow_run_status_rule}
use cadet.Progress.{RunMoved, StepMoved}
use cadet.Progress.Completion.{moved_run, moved_step}

trim_awaiting : trim "awaiting-approval" ≡ "awaiting-approval"
unfolding trim
trim_awaiting = refl

-- What an approval of this status makes of its step, and of its run.
abbrev pub step_after : String → String
step_after status = if status == "approved" then "ready" else "failed"

abbrev pub run_after : String → String
run_after status = if status == "approved" then "running" else "failed"

step_after_lem : (status : String) → step_status_for_approval status ≡ step_after status
unfolding step_status_for_approval
step_after_lem status = refl

run_after_lem :
    (status : String)
    → trim (run_status_for_step_status (step_status_for_approval status)) ≡ run_after status
unfolding run_status_for_step_status step_status_for_approval trim
run_after_lem status = elim (Bool-cases (status == "approved")) [
  | inl approved ↦ rw approved refl
  | inr other ↦ rw other refl
]

module _ ⦃S : Store⦄ (ctx : Context) where
  -- The step with an approval that it waits for.
  abbrev pub waiting : String → WorkflowStep → WorkflowStep
  waiting approval_id step = record step {
    status = "awaiting-approval";
    approval_request_id = some approval_id;
    updated_at_micros = now_micros ctx;
  }

  -- The step after an approval of this status.
  abbrev pub resumed : String → WorkflowStep → WorkflowStep
  resumed status step = record step {
    status = step_after status;
    updated_at_micros = now_micros ctx;
  }

  abbrev pub resolved : String → String → ApprovalRequest → ApprovalRequest
  resolved status resolution approval = record approval {
    status = status;
    resolution_json = some resolution;
    updated_at_micros = now_micros ctx;
  }

module _ ⦃S : Store⦄ (ctx : Context)
    (approval_id run_id step_id agent_id title detail risk requested_by : String) (db : Db) where
  request_Ensures :
      Ensures
        (λ db'.
          (approval : ApprovalRequest) × (S.find db'.approval_request (trim approval_id)
            ≡ some approval)
          × (approval.status ≡ "pending")
          × (approval.step_id ≡ trim step_id)
          × (approval.run_id ≡ trim run_id)
          × ((step : WorkflowStep) × StepMoved
                (trim step_id)
                step
                (waiting ctx (trim approval_id) step)
                db
                db')
          × RunMoved ctx (trim run_id) "awaiting-approval" "act" none db db')
        (request_approval ctx approval_id run_id step_id agent_id title detail risk requested_by db)
  unfolding request_approval
  request_Ensures = Ensures-bind λ id valid_id. Ensures-bind λ run_key valid_run.
      Ensures-bind λ step_key valid_step. Ensures-bind λ agent _. Ensures-bind λ title _.
        Ensures-bind λ detail _. Ensures-bind λ risk _. Ensures-bind λ by _.
          Ensures-bind λ approvals wrote. Ensures-bind λ step found. Ensures-bind λ steps written.
            update_workflow_run_status_rule ctx _ _ _ _ _ _
              λ run checked runs run_found is _ rewritten.
                let id_is = ((validate_identifier_iff approval_id "approval_id" id).0 valid_id).0 in
                let run_is = ((validate_identifier_iff run_id "run_id" run_key).0 valid_run).0 in
                let step_is =
                  ((validate_identifier_iff step_id "step_id" step_key).0 valid_step).0 in
                (
                  _,
                  rw id_is at (find-Wrote_self (insert-Wrote wrote)),
                  refl,
                  step_is,
                  run_is,
                  (
                    step,
                    moved_step ctx (rw (← step_is) (or_err-eq-ok _ _ found)) refl
                        (rw (← id_is) (update-Wrote written)),
                  ),
                  rw (← run_is) (moved_run ctx run_found (is ∙ trim_awaiting) rewritten),
                )

  -- A request for an approval stores a pending one for the step and the run that it names, both of
  -- which were there; the step waits for it, and so does the run, at stage `act`. All other steps
  -- and runs are as they were.
  pub request_approval_effect :
      {db' : Db}
      → request_approval ctx approval_id run_id step_id agent_id title detail risk requested_by db
        ≡ ok db'
      → (approval : ApprovalRequest) × (S.find db'.approval_request (trim approval_id)
          ≡ some approval)
        × (approval.status ≡ "pending")
        × (approval.step_id ≡ trim step_id)
        × (approval.run_id ≡ trim run_id)
        × ((step : WorkflowStep) × StepMoved
              (trim step_id)
              step
              (waiting ctx (trim approval_id) step)
              db
              db')
        × RunMoved ctx (trim run_id) "awaiting-approval" "act" none db db'
  request_approval_effect {db'} e = request_Ensures.at db' e

module _ ⦃S : Store⦄ (ctx : Context) (approval_id status resolution_json : String) (db : Db) where
  resolve_Ensures :
      Ensures
        (λ db'.
          (approval : ApprovalRequest) × (S.find db.approval_request (trim approval_id)
            ≡ some approval)
          × (S.find db'.approval_request (trim approval_id)
              ≡ some (resolved ctx (trim status) (trim resolution_json) approval))
          × ((step : WorkflowStep) × StepMoved approval.step_id step
                (resumed ctx (trim status) step)
                db
                db')
          × RunMoved ctx approval.run_id (run_after (trim status)) "act" none db db')
        (resolve_approval ctx approval_id status resolution_json db)
  unfolding resolve_approval validate_approval_status
  resolve_Ensures = Ensures-bind λ id valid_id. Ensures-bind λ state valid_status.
      Ensures-bind λ resolution valid_resolution. Ensures-bind λ approval found.
        Ensures-bind λ approvals wrote. Ensures-bind λ step step_found.
          Ensures-bind λ steps written.
            update_workflow_run_status_rule ctx _ _ _ _ _ _
              λ run checked runs run_found is _ rewritten.
                let id_is = ((validate_identifier_iff approval_id "approval_id" id).0 valid_id).0 in
                let status_is =
                  ((parse_as_iff approval_status status "status" state).0 valid_status).0 in
                let resolution_is =
                  (validate_text-eq-trim resolution_json "resolution_json"
                    (rw normalize_json_blob-eq at valid_resolution)).0 in
                let known = or_err-eq-ok _ _ found in
                let key = S.find-key _ _ _ known in
                (
                  approval,
                  rw (← id_is) known,
                  rw (← status_is, ← resolution_is, ← id_is, ← key)
                      (find-Wrote_self (update-Wrote wrote)),
                  (
                    step,
                    moved_step ctx (or_err-eq-ok _ _ step_found) refl
                        (rw (← status_is, ← step_after_lem state) (update-Wrote written)),
                  ),
                  rw (← status_is) (moved_run ctx run_found (is ∙ run_after_lem state) rewritten),
                )

  -- A resolution stores its status and its text in an approval that was there. If the status is
  -- `approved`, the step of the approval is ready again and its run is running; if it is another
  -- one, both have failed. Either way the run is at stage `act` with no completion time, and all
  -- other steps and runs are as they were.
  pub resolve_approval_effect :
      {db' : Db}
      → resolve_approval ctx approval_id status resolution_json db ≡ ok db'
      → (approval : ApprovalRequest) × (S.find db.approval_request (trim approval_id)
          ≡ some approval)
        × (S.find db'.approval_request (trim approval_id)
            ≡ some (resolved ctx (trim status) (trim resolution_json) approval))
        × ((step : WorkflowStep) × StepMoved approval.step_id step
              (resumed ctx (trim status) step)
              db
              db')
        × RunMoved ctx approval.run_id (run_after (trim status)) "act" none db db'
  resolve_approval_effect {db'} e = resolve_Ensures.at db' e
