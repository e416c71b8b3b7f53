-- ===== src/Sound/Steps.antt =====
-- The reducers of spacetimedb/src/lib.rs for workflow steps, and the invariant.
use cadet.Shared.{String, refl, Option, Ensures, Ensures-ok, Ensures-bind, or_err-eq-ok}
use cadet.Store.{Store}
use cadet.Store.Tables.{insert-Wrote, update-Wrote, Present-refuse_if}
use cadet.Vocab.Enum.{IsWord}
use cadet.Vocab.StepState.{StepState, step_state, as_str}
use cadet.Validate.Kinds.{validate_stage-IsWord, validate_execution_owner-IsWord}
use cadet.Db.{Db, Context}
use cadet.Reducers.Steps.{
  enqueue_workflow_step, claim_workflow_step, complete_workflow_step, fail_workflow_step,
}
use cadet.Sound.{Sound}
use cadet.Sound.Links.{steps-Linked}
use cadet.Sound.Words.{steps-Worded}
use cadet.Sound.Runs.{update_workflow_run_status-Sound, rewrite_step-Sound}

pub ready-IsWord : IsWord step_state "ready"
unfolding step_state as_str
ready-IsWord = record { variant = StepState.ready; spelled = refl }

running-IsWord : IsWord step_state "running"
unfolding step_state as_str
running-IsWord = record { variant = StepState.running; spelled = refl }

completed-IsWord : IsWord step_state "completed"
unfolding step_state as_str
completed-IsWord = record { variant = StepState.completed; spelled = refl }

pub failed-IsWord : IsWord step_state "failed"
unfolding step_state as_str
failed-IsWord = record { variant = StepState.failed; spelled = refl }

pub awaiting-IsWord : IsWord step_state "awaiting-approval"
unfolding step_state as_str
awaiting-IsWord = record { variant = StepState.waiting_approval; spelled = refl }

module _ ⦃S : Store⦄ (ctx : Context) (db : Db) (h : Sound db) where
  pub enqueue_workflow_step-Sound :
      (step_id run_id agent_id stage owner_execution input_json : String)
      (depends_on_step_id : Option String)
      → Ensures Sound (
          enqueue_workflow_step ctx step_id run_id agent_id stage owner_execution input_json
            depends_on_step_id db)
  unfolding enqueue_workflow_step
  enqueue_workflow_step-Sound step_id run_id agent_id stage owner_execution input_json
        depends_on_step_id =
      Ensures-bind λ step_id _. Ensures-bind λ run_id _. Ensures-bind λ agent_id _.
        Ensures-bind λ stage s. Ensures-bind λ owner_execution o. Ensures-bind λ input_json _.
          Ensures-bind λ depends_on_step_id _. Ensures-bind λ _ run. Ensures-bind λ _ _.
            Ensures-bind λ steps wrote.
              update_workflow_run_status-Sound ctx _
                (record {
                  links = steps-Linked h.links (insert-Wrote wrote) (Present-refuse_if _ run);
                  words = steps-Worded h.words (insert-Wrote wrote) (
                    validate_stage-IsWord _ s,
                    validate_execution_owner-IsWord _ o,
                    ready-IsWord,
                  );
                })
                _ _ _ _ _

  pub claim_workflow_step-Sound :
      (step_id owner_execution runner_id : String)
      → Ensures Sound (claim_workflow_step ctx step_id owner_execution runner_id db)
  unfolding claim_workflow_step
  claim_workflow_step-Sound step_id owner_execution runner_id = Ensures-bind λ step_id _.
      Ensures-bind λ owner_execution _. Ensures-bind λ runner_id _. Ensures-bind λ step found.
        Ensures-bind λ _ _. Ensures-bind λ _ _. Ensures-bind λ steps wrote. Ensures-ok (
          rewrite_step-Sound h (or_err-eq-ok _ _ found) (update-Wrote wrote) refl refl refl
            running-IsWord)

  pub complete_workflow_step-Sound :
      (step_id output_json : String)
      → Ensures Sound (complete_workflow_step ctx step_id output_json db)
  unfolding complete_workflow_step
  complete_workflow_step-Sound step_id output_json = Ensures-bind λ step_id _.
      Ensures-bind λ output_json _. Ensures-bind λ step found. Ensures-bind λ steps wrote.
        update_workflow_run_status-Sound ctx _
          (rewrite_step-Sound h (or_err-eq-ok _ _ found) (update-Wrote wrote) refl refl refl
            completed-IsWord)
          _ _ _ _ _

  pub fail_workflow_step-Sound :
      (step_id output_json : String) → Ensures Sound (fail_workflow_step ctx step_id output_json db)
  unfolding fail_workflow_step
  fail_workflow_step-Sound step_id output_json = Ensures-bind λ step_id _.
      Ensures-bind λ output_json _. Ensures-bind λ step found. Ensures-bind λ steps wrote.
        update_workflow_run_status-Sound ctx _
          (rewrite_step-Sound h (or_err-eq-ok _ _ found) (update-Wrote wrote) refl refl refl
            failed-IsWord)
          _ _ _ _ _
