-- ===== src/Sound/Runs.antt =====
-- The reducers of spacetimedb/src/lib.rs for workflow runs, and the two helpers that the reducers for
-- steps, approvals and browser tasks share, and the invariant.
use cadet.Shared.{String, ◌≡◌, refl, Option, some, Ensures, Ensures-ok, Ensures-bind, or_err-eq-ok}
use cadet.Shared.Int.{ℤ}
use cadet.Store.{Store}
use cadet.Store.Tables.{insert-Wrote, update-Wrote, Present-refuse_if, Wrote}
use cadet.Vocab.Enum.{IsWord}
use cadet.Vocab.RunState.{RunState, run_state, as_str}
use cadet.Vocab.StepState.{step_state}
use cadet.Text.{trim}
use cadet.Validate.{validate_workflow_run_status, validate_step_status}
use cadet.Validate.Words.{parse_as_iff}
use cadet.Validate.Kinds.{
  validate_priority-IsWord, validate_workflow_run_status-IsWord, validate_step_status-IsWord,
}
use cadet.Rows.Workflow.{WorkflowRun, WorkflowStep}
use cadet.Db.{Db, Context, now_micros}
use cadet.Reducers.Runs.{
  update_workflow_run_status, block_linked_step, start_workflow_run, update_run_stage,
  update_run_status,
}
use cadet.Sound.{Sound}
use cadet.Sound.Links.{runs-Linked, steps-Linked}
use cadet.Sound.Words.{runs-Worded, steps-Worded}

queued-IsWord : IsWord run_state "queued"
unfolding run_state as_str
queued-IsWord = record { variant = RunState.queued; spelled = refl }

module _ {κ} ⦃S : Store⦄ {Q : Db → Type κ} (ctx : Context) (db : Db) where
  -- What `update_workflow_run_status` does when it ends well.
  pub update_workflow_run_status_rule :
      (run_id status current_stage : String) (summary : Option String) (completed : Option ℤ)
      → ((run : WorkflowRun) (checked : String) (runs : S.Table WorkflowRun (λ row. row.run_id))
          → S.find db.workflow_run run_id ≡ some run
          → checked ≡ trim status
          → IsWord run_state checked
          → Wrote db.workflow_run
              (record run {
                status = checked;
                current_stage = current_stage;
                summary = summary;
                updated_at_micros = now_micros ctx;
                completed_at_micros = completed;
              })
              runs
          → Q (record db { workflow_run = runs }))
      → Ensures Q (update_workflow_run_status ctx run_id status current_stage summary completed db)
  unfolding update_workflow_run_status validate_workflow_run_status
  update_workflow_run_status_rule run_id status current_stage summary completed k =
      Ensures-bind λ run found. Ensures-bind λ checked valid. Ensures-bind λ runs wrote.
        Ensures-ok (
          k run checked runs (or_err-eq-ok _ _ found)
            ((parse_as_iff run_state status "status" checked).0 valid).0
            (validate_workflow_run_status-IsWord _ valid) (update-Wrote wrote))

  -- What `block_linked_step` does when it ends well.
  pub block_linked_step_rule :
      (step_id status : String)
      → ((step : WorkflowStep) (checked : String)
            (steps : S.Table WorkflowStep (λ row. row.step_id))
          → S.find db.workflow_step step_id ≡ some step
          → checked ≡ trim status
          → IsWord step_state checked
          → Wrote db.workflow_step
              (record step { status = checked; updated_at_micros = now_micros ctx })
              steps
          → Q (record db { workflow_step = steps }))
      → Ensures Q (block_linked_step ctx step_id status db)
  unfolding block_linked_step validate_step_status
  block_linked_step_rule step_id status k = Ensures-bind λ step found. Ensures-bind λ checked valid.
      Ensures-bind λ steps wrote. Ensures-ok (
        k step checked steps (or_err-eq-ok _ _ found)
          ((parse_as_iff step_state status "status" checked).0 valid).0
          (validate_step_status-IsWord _ valid) (update-Wrote wrote))

module _ ⦃S : Store⦄ {db : Db} (h : Sound db) where
  -- A run that is there may be written again with another status and stage.
  pub rewrite_run-Sound :
      {run_id : String} {run row : WorkflowRun} {runs : S.Table WorkflowRun (λ row. row.run_id)}
      → S.find db.workflow_run run_id ≡ some run
      → Wrote db.workflow_run row runs
      → row.thread_id ≡ run.thread_id
      → row.agent_id ≡ run.agent_id
      → row.priority ≡ run.priority
      → IsWord run_state row.status
      → Sound (record db { workflow_run = runs })
  rewrite_run-Sound {run_id} {run} found wrote e₁ e₂ e₃ word = record {
    links =
        runs-Linked h.links wrote (rw e₁ (h.links.run_thread.at run_id run found))
          (rw e₂ (h.links.run_agent.at run_id run found));
    words = runs-Worded h.words wrote (rw e₃ (h.words.runs.at run_id run found).0, word);
  }

  -- A step that is there may be written again with another status.
  pub rewrite_step-Sound :
      {step_id : String} {step row : WorkflowStep}
      {steps : S.Table WorkflowStep (λ row. row.step_id)}
      → S.find db.workflow_step step_id ≡ some step
      → Wrote db.workflow_step row steps
      → row.run_id ≡ step.run_id
      → row.stage ≡ step.stage
      → row.owner_execution ≡ step.owner_execution
      → IsWord step_state row.status
      → Sound (record db { workflow_step = steps })
  rewrite_step-Sound {step_id} {step} found wrote e₁ e₂ e₃ word = record {
    links = steps-Linked h.links wrote (rw e₁ (h.links.step_run.at step_id step found));
    words =
        let (stage_word, owner_word, _) = h.words.steps.at step_id step found in
        steps-Worded h.words wrote (rw e₂ stage_word, rw e₃ owner_word, word);
  }

module _ ⦃S : Store⦄ (ctx : Context) (db : Db) (h : Sound db) where
  pub update_workflow_run_status-Sound :
      (run_id status current_stage : String) (summary : Option String) (completed : Option ℤ)
      → Ensures Sound
          (update_workflow_run_status ctx run_id status current_stage summary completed db)
  update_workflow_run_status-Sound run_id status current_stage summary completed =
      update_workflow_run_status_rule ctx db run_id status current_stage summary completed
        λ run checked runs found _ word wrote. rewrite_run-Sound h found wrote refl refl refl word

  pub block_linked_step-Sound :
      (step_id status : String) → Ensures Sound (block_linked_step ctx step_id status db)
  block_linked_step-Sound step_id status =
      block_linked_step_rule ctx db step_id status λ step checked steps found _ word wrote.
        rewrite_step-Sound h found wrote refl refl refl word

  pub start_workflow_run-Sound :
      (run_id thread_id agent_id goal priority trigger_source requested_by context_json : String)
      → Ensures Sound (
          start_workflow_run ctx run_id thread_id agent_id goal priority trigger_source requested_by
            context_json db)
  unfolding start_workflow_run
  start_workflow_run-Sound run_id thread_id agent_id goal priority trigger_source requested_by
        context_json =
      Ensures-bind λ run_id _. Ensures-bind λ thread_id _. Ensures-bind λ agent_id _.
        Ensures-bind λ goal _. Ensures-bind λ priority p. Ensures-bind λ trigger_source _.
          Ensures-bind λ requested_by _. Ensures-bind λ context_json _. Ensures-bind λ _ thread.
            Ensures-bind λ _ agent. Ensures-bind λ _ _. Ensures-bind λ runs wrote.
              Ensures-ok (record {
                links =
                    runs-Linked h.links (insert-Wrote wrote) (Present-refuse_if _ thread)
                      (Present-refuse_if _ agent);
                words =
                    runs-Worded h.words (insert-Wrote wrote)
                      (validate_priority-IsWord _ p, queued-IsWord);
              })

  pub update_run_stage-Sound :
      (run_id stage : String) → Ensures Sound (update_run_stage ctx run_id stage db)
  unfolding update_run_stage
  update_run_stage-Sound run_id stage = Ensures-bind λ run found. Ensures-bind λ runs wrote.
      let known = or_err-eq-ok _ _ found in
      Ensures-ok (
        rewrite_run-Sound h known (update-Wrote wrote) refl refl refl
          (h.words.runs.at run_id run known).1)

  pub update_run_status-Sound :
      (run_id status : String) → Ensures Sound (update_run_status ctx run_id status db)
  unfolding update_run_status
  update_run_status-Sound run_id status = Ensures-bind λ status s. Ensures-bind λ run found.
      Ensures-bind λ runs wrote. Ensures-ok (
        rewrite_run-Sound h (or_err-eq-ok _ _ found) (update-Wrote wrote) refl refl refl
          (validate_workflow_run_status-IsWord _ s))
