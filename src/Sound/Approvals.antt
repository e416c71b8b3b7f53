-- ===== src/Sound/Approvals.antt =====
-- The reducers of spacetimedb/src/lib.rs for approvals, and the invariant.
use cadet.Shared.{String, refl, Ensures, Ensures-bind, or_err-eq-ok, ◌==◌, Bool-cases, inl, inr}
use cadet.Store.{Store}
use cadet.Store.Tables.{insert-Wrote, update-Wrote, Present-found}
use cadet.Vocab.Enum.{IsWord}
use cadet.Vocab.ApprovalStatus.{ApprovalStatus, approval_status, as_str}
use cadet.Vocab.StepState.{step_state}
use cadet.Validate.Kinds.{validate_browser_risk-IsWord, validate_approval_status-IsWord}
use cadet.Db.{Db, Context}
use cadet.Reducers.Runs.{step_status_for_approval}
use cadet.Reducers.Approvals.{request_approval, resolve_approval}
use cadet.Sound.{Sound}
use cadet.Sound.Links.{approvals-Linked}
use cadet.Sound.Words.{approvals-Worded}
use cadet.Sound.Runs.{
  update_workflow_run_status_rule, rewrite_run-Sound, update_workflow_run_status-Sound,
  rewrite_step-Sound,
}
use cadet.Sound.Steps.{ready-IsWord, failed-IsWord, awaiting-IsWord}

pending-IsWord : IsWord approval_status "pending"
unfolding approval_status as_str
pending-IsWord = record { variant = ApprovalStatus.pending; spelled = refl }

step_status_for_approval-IsWord : (s : String) → IsWord step_state (step_status_for_approval s)
unfolding step_status_for_approval
step_status_for_approval-IsWord s = elim (Bool-cases (s == "approved")) [
  | inl approved ↦ rw approved ready-IsWord
  | inr other ↦ rw other failed-IsWord
]

module _ ⦃S : Store⦄ (ctx : Context) (db : Db) (h : Sound db) where
  -- The run of the approval is known to be there only once its status has been written.
  pub request_approval-Sound :
      (approval_id run_id step_id agent_id title detail risk requested_by : String)
      → Ensures Sound (
          request_approval ctx approval_id run_id step_id agent_id title detail risk requested_by
            db)
  unfolding request_approval
  request_approval-Sound approval_id run_id step_id agent_id title detail risk requested_by =
      Ensures-bind λ approval_id _. Ensures-bind λ run_id _. Ensures-bind λ step_id _.
        Ensures-bind λ agent_id _. Ensures-bind λ title _. Ensures-bind λ detail _.
          Ensures-bind λ risk r. Ensures-bind λ requested_by _. Ensures-bind λ approvals wrote.
            Ensures-bind λ step found. Ensures-bind λ steps written.
              update_workflow_run_status_rule ctx _ _ _ _ _ _
                λ run checked runs run_found _ word rewritten.
                  let step_there = Present-found (or_err-eq-ok _ _ found) in
                  let with_approval : Sound (record db { approval_request = approvals }) = record {
                    links =
                        approvals-Linked h.links (insert-Wrote wrote) (Present-found run_found)
                          step_there;
                    words =
                        approvals-Worded h.words (insert-Wrote wrote)
                          (pending-IsWord, validate_browser_risk-IsWord _ r);
                  } in
                  let with_step =
                    rewrite_step-Sound with_approval (or_err-eq-ok _ _ found) (update-Wrote written)
                      refl refl refl awaiting-IsWord in
                  rewrite_run-Sound with_step run_found rewritten refl refl refl word

  pub resolve_approval-Sound :
      (approval_id status resolution_json : String)
      → Ensures Sound (resolve_approval ctx approval_id status resolution_json db)
  unfolding resolve_approval
  resolve_approval-Sound approval_id status resolution_json = Ensures-bind λ approval_id _.
      Ensures-bind λ status s. Ensures-bind λ resolution_json _. Ensures-bind λ approval found.
        Ensures-bind λ approvals wrote. Ensures-bind λ step step_found.
          Ensures-bind λ steps written.
            let known = or_err-eq-ok _ _ found in
            let with_approval : Sound (record db { approval_request = approvals }) = record {
              links =
                  approvals-Linked h.links (update-Wrote wrote)
                    (h.links.approval_run.at approval_id approval known)
                    (h.links.approval_step.at approval_id approval known);
              words = approvals-Worded h.words (update-Wrote wrote) (
                validate_approval_status-IsWord _ s,
                (h.words.approvals.at approval_id approval known).1,
              );
            } in
            update_workflow_run_status-Sound ctx _
              (rewrite_step-Sound with_approval (or_err-eq-ok _ _ step_found) (update-Wrote written)
                refl refl refl (step_status_for_approval-IsWord status))
              _ _ _ _ _
