-- ===== src/Progress/Completion.antt =====
-- `complete_workflow_step` and `fail_workflow_step` of spacetimedb/src/lib.rs.
use cadet.Shared.{
  String, ◌≡◌, refl, sym, ◌∙◌, ok, Option, some, none, is_some, ◌==◌, if◌then◌else◌, Bool-cases,
  inl, inr, arith, Ensures, Ensures-bind, or_err-eq-ok,
}
use cadet.Shared.Int.{ℤ}
use cadet.Store.{Store}
use cadet.Rows.Workflow.{WorkflowRun, WorkflowStep}
use cadet.Store.Tables.{Wrote, update-Wrote, find-Wrote_self, find-Wrote_ne}
use cadet.Text.{trim}
use cadet.Text.Checks.{validate_identifier_iff, validate_text-eq-trim, normalize_json_blob-eq}
use cadet.Db.{Db, Context, now_micros}
use cadet.Reducers.Runs.{run_status_after_step_completion}
use cadet.Reducers.Steps.{complete_workflow_step, fail_workflow_step}
use cadet.Sound.Runs.{update_workflow_run_status_rule}
use cadet.Progress.{RunMoved, StepMoved}

module _ ⦃S : Store⦄ (ctx : Context) {db db' : Db} where
  pub moved_run :
      {run_id checked status stage : String} {completed : Option ℤ} {run : WorkflowRun}
      → S.find db.workflow_run run_id ≡ some run
      → checked ≡ status
      → Wrote db.workflow_run
          (record run {
            status = checked;
            current_stage = stage;
            summary = none;
            updated_at_micros = now_micros ctx;
            completed_at_micros = completed;
          })
          db'.workflow_run
      → RunMoved ctx run_id status stage completed db db'
  moved_run {run = run} found is wrote =
      let key = S.find-key _ _ _ found in
      record {
        run = run;
        found = found;
        moved = rw (← key, ← is) (find-Wrote_self wrote);
        others = λ k ne. find-Wrote_ne k wrote (λ p. ne (sym key ∙ p));
      }

  pub moved_step :
      {step_id : String} {before after : WorkflowStep}
      → S.find db.workflow_step step_id ≡ some before
      → after.step_id ≡ before.step_id
      → Wrote db.workflow_step after db'.workflow_step
      → StepMoved step_id before after db db'
  moved_step {after = after} found same wrote =
      let key = same ∙ S.find-key _ _ _ found in
      record {
        found = found;
        moved = rw (← key) (find-Wrote_self wrote);
        others = λ k ne. find-Wrote_ne k wrote (λ p. ne (sym key ∙ p));
      }

-- What a run is told when a step of this stage completes.
abbrev pub status_after : String → String
status_after stage = if stage == "learn" then "completed" else "running"

abbrev pub finished_at : String → ℤ → Option ℤ
finished_at stage now = if stage == "learn" then some now else none

status_after_lem :
    (stage : String) → trim (run_status_after_step_completion stage).0 ≡ status_after stage
unfolding run_status_after_step_completion trim
status_after_lem stage = elim (Bool-cases (stage == "learn")) [
  | inl learn ↦ rw learn refl
  | inr other ↦ rw other refl
]

finished_at_lem :
    (stage : String) (now : ℤ)
    → (if is_some (run_status_after_step_completion stage).1 then some now else none)
      ≡ finished_at stage now
unfolding run_status_after_step_completion
finished_at_lem stage now = ground arith

trim_failed : trim "failed" ≡ "failed"
unfolding trim
trim_failed = refl

module _ ⦃S : Store⦄ (ctx : Context) (step_id output_json : String) (db : Db) where
  -- The step with its end written in.
  abbrev ended : String → WorkflowStep → WorkflowStep
  ended status step = record step {
    status = status;
    output_json = some (trim output_json);
    updated_at_micros = now_micros ctx;
    completed_at_micros = some (now_micros ctx);
  }

  complete_Ensures :
      Ensures
        (λ db'.
          (step : WorkflowStep) × StepMoved (trim step_id) step (ended "completed" step) db db'
          × RunMoved ctx step.run_id
              (status_after step.stage)
              step.stage
              (finished_at step.stage (now_micros ctx))
              db
              db')
        (complete_workflow_step ctx step_id output_json db)
  unfolding complete_workflow_step
  complete_Ensures = Ensures-bind λ id valid_id. Ensures-bind λ output valid_output.
      Ensures-bind λ step found. Ensures-bind λ steps wrote.
        update_workflow_run_status_rule ctx _ _ _ _ _ _ λ run checked runs run_found is _ rewritten.
          let id_is = ((validate_identifier_iff step_id "step_id" id).0 valid_id).0 in
          let output_is =
            (validate_text-eq-trim output_json "output_json"
              (rw normalize_json_blob-eq at valid_output)).0 in
          (
            step,
            moved_step ctx (rw (← id_is) (or_err-eq-ok _ _ found)) refl
                (rw (← output_is) (update-Wrote wrote)),
            moved_run ctx run_found (is ∙ status_after_lem step.stage)
                (rw (← finished_at_lem step.stage (now_micros ctx)) rewritten),
          )

  -- A step that completes is stored as completed with its output and the time, and its run is
  -- stored with its stage: completed at that time if the stage was `learn`, else still running and
  -- with no completion time. All other steps and runs are as they were.
  pub complete_workflow_step_effect :
      {db' : Db}
      → complete_workflow_step ctx step_id output_json db ≡ ok db'
      → (step : WorkflowStep) × StepMoved (trim step_id) step (ended "completed" step) db db'
        × RunMoved ctx step.run_id
            (status_after step.stage)
            step.stage
            (finished_at step.stage (now_micros ctx))
            db
            db'
  complete_workflow_step_effect {db'} e = complete_Ensures.at db' e

  fail_Ensures :
      Ensures
        (λ db'.
          (step : WorkflowStep) × StepMoved (trim step_id) step (ended "failed" step) db db'
          × RunMoved ctx step.run_id "failed" step.stage (some (now_micros ctx)) db db')
        (fail_workflow_step ctx step_id output_json db)
  unfolding fail_workflow_step
  fail_Ensures = Ensures-bind λ id valid_id. Ensures-bind λ output valid_output.
      Ensures-bind λ step found. Ensures-bind λ steps wrote.
        update_workflow_run_status_rule ctx _ _ _ _ _ _ λ run checked runs run_found is _ rewritten.
          let id_is = ((validate_identifier_iff step_id "step_id" id).0 valid_id).0 in
          let output_is =
            (validate_text-eq-trim output_json "output_json"
              (rw normalize_json_blob-eq at valid_output)).0 in
          (
            step,
            moved_step ctx (rw (← id_is) (or_err-eq-ok _ _ found)) refl
                (rw (← output_is) (update-Wrote wrote)),
            moved_run ctx run_found (is ∙ trim_failed) rewritten,
          )

  -- A step that fails is stored as failed with its output and the time, and its run as failed at
  -- that time with its stage. All other steps and runs are as they were.
  pub fail_workflow_step_effect :
      {db' : Db}
      → fail_workflow_step ctx step_id output_json db ≡ ok db'
      → (step : WorkflowStep) × StepMoved (trim step_id) step (ended "failed" step) db db'
        × RunMoved ctx step.run_id "failed" step.stage (some (now_micros ctx)) db db'
  fail_workflow_step_effect {db'} e = fail_Ensures.at db' e
