-- ===== src/Progress/Unguarded.antt =====
-- `complete_workflow_step` of spacetimedb/src/lib.rs: what it needs to succeed.
use cadet.Shared.{
  String, ◌≡◌, refl, ◌∙◌, ok, some, none, is_some, false, ◌==◌, Bool-cases, inl, inr, if◌then◌else◌,
  ◌>>=◌,
}
use cadet.Store.{Store}
use cadet.Store.Tables.{update_found}
use cadet.Text.{is_empty, trim, normalize_json_blob}
use cadet.Text.Checks.{
  IsIdentifier, validate_identifier_iff, validate_text_complete, normalize_json_blob-eq,
}
use cadet.Vocab.Enum.{IsWord}
use cadet.Vocab.RunState.{RunState, run_state, as_str}
use cadet.Validate.{validate_workflow_run_status}
use cadet.Validate.Words.{parse_as_iff}
use cadet.Rows.Workflow.{WorkflowStep, WorkflowRun}
use cadet.Db.{Db, Context, now_micros}
use cadet.Reducers.Runs.{run_status_after_step_completion}
use cadet.Reducers.Steps.{complete_workflow_step}
use cadet.Progress.Moves.{run_moves}

completed-IsWord : IsWord run_state "completed"
unfolding run_state as_str
completed-IsWord = record { variant = RunState.completed; spelled = refl }

running-IsWord : IsWord run_state "running"
unfolding run_state as_str
running-IsWord = record { variant = RunState.running; spelled = refl }

-- The status that a step's completion gives to its run is accepted as one.
accepted :
    (stage : String)
    → validate_workflow_run_status (run_status_after_step_completion stage).0
      ≡ ok (run_status_after_step_completion stage).0
unfolding run_status_after_step_completion trim validate_workflow_run_status
accepted stage = elim (Bool-cases (stage == "learn")) [
  | inl learn ↦
      rw learn
        ((parse_as_iff run_state "completed" "status" "completed").1 (refl, completed-IsWord))
  | inr other ↦
      rw other ((parse_as_iff run_state "running" "status" "running").1 (refl, running-IsWord))
]

module _ ⦃S : Store⦄ (ctx : Context) (step_id output_json : String) (db : Db) where
  -- A step that is there, and whose run is there, can be completed by any caller with a valid id and
  -- an output that is not blank, whatever the status of the step and of the run, and whoever has
  -- claimed the step: nothing of these is looked at.
  pub complete_workflow_step_succeeds :
      (step : WorkflowStep) (run : WorkflowRun)
      → IsIdentifier (trim step_id)
      → is_empty (trim output_json) ≡ false
      → S.find db.workflow_step (trim step_id) ≡ some step
      → S.find db.workflow_run step.run_id ≡ some run
      → (db' : Db) × (complete_workflow_step ctx step_id output_json db ≡ ok db')
  unfolding complete_workflow_step ◌>>=◌
  complete_workflow_step_succeeds step run id_valid filled found run_found =
      let id_ok = (validate_identifier_iff step_id "step_id" (trim step_id)).1 (refl, id_valid) in
      let output_ok : normalize_json_blob output_json "output_json" ≡ ok (trim output_json) =
        normalize_json_blob-eq output_json "output_json"
        ∙ validate_text_complete output_json "output_json" filled in
      let now = now_micros ctx in
      let row : WorkflowStep = record step {
        status = "completed";
        output_json = some (trim output_json);
        updated_at_micros = now;
        completed_at_micros = some now;
      } in
      let (steps, updated) = update_found db.workflow_step row step found refl in
      let (db', moved) =
        run_moves ctx (record db { workflow_step = steps }) step.run_id
          (run_status_after_step_completion step.stage).0 step.stage
          (if is_some (run_status_after_step_completion step.stage).1 then some now else none) run
          (accepted step.stage) run_found in
      (db', rw (id_ok, output_ok, found, updated) moved)
