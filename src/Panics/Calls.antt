-- ===== src/Panics/Calls.antt =====
-- The reducers of spacetimedb/src/lib.rs for jobs, schedules, runs, steps and approvals, one by one,
-- and the helpers that they share.
use cadet.Shared.{String, Bool, Option, some, none, inl, inr, Result, ℕ, refl, Option-cases, sym}
use cadet.Shared.Int.{ℤ}
use cadet.Store.{Store}
use cadet.Db.{Db, Context}
use cadet.Reducers.Jobs.{
  register_agent, remember, start_job, transition_job, complete_job, fail_job, upsert_presence,
}
use cadet.Reducers.Schedules.{register_schedule, claim_schedule_run}
use cadet.Reducers.Messages.{record_delivery_attempt}
use cadet.Reducers.Runs.{
  start_workflow_run, update_run_stage, update_run_status, update_workflow_run_status,
  block_linked_step,
}
use cadet.Reducers.Steps.{
  check_option, enqueue_workflow_step, claim_workflow_step, complete_workflow_step,
  fail_workflow_step,
}
use cadet.Reducers.Approvals.{resolve_approval}
use cadet.Panics.Rules.{
  Calm, Calm-bind, Calm-ok, calm_checks, Calm-update, Calm-insert, Calm-insert_fresh,
}

pub Calm-check_option :
    {check : String → Result String}
    → ((s : String) → Calm (check s))
    → (o : Option String) → Calm (check_option check o)
unfolding check_option
Calm-check_option h none = Calm-ok
Calm-check_option h (some s) = Calm-bind (h s) λ a _. Calm-ok

module _ ⦃S : Store⦄ (ctx : Context) (db : Db) where
  pub update_workflow_run_status-Calm :
      (run_id status current_stage : String) (summary : Option String)
      (completed_at_micros : Option ℤ)
      → Calm (
          update_workflow_run_status ctx run_id status current_stage summary completed_at_micros db)
  unfolding update_workflow_run_status
  update_workflow_run_status-Calm run_id status current_stage summary completed_at_micros =
      search (Calm-bind, calm_checks) depth 30

  pub block_linked_step-Calm :
      (step_id status : String) → Calm (block_linked_step ctx step_id status db)
  unfolding block_linked_step
  block_linked_step-Calm step_id status = search (Calm-bind, calm_checks) depth 30

  pub transition_job-Calm :
      (job_id status : String) (summary : Option String)
      → Calm (transition_job ctx job_id status summary db)
  unfolding transition_job
  transition_job-Calm job_id status summary = search (Calm-bind, calm_checks) depth 30

module _ ⦃S : Store⦄ (ctx : Context) (db : Db) where
  pub register_agent-Calm :
      (agent_id display_name runtime control_plane execution_target workflow model
        tags_json : String)
      → Calm (
          register_agent ctx agent_id display_name runtime control_plane execution_target workflow
            model tags_json db)
  unfolding register_agent
  register_agent-Calm agent_id display_name runtime control_plane execution_target workflow model
        tags_json =
      search (Calm-bind, calm_checks) depth 30

  pub remember-Calm :
      (agent_id namespace content : String) → Calm (remember ctx agent_id namespace content db)
  unfolding remember
  remember-Calm agent_id namespace content = search (Calm-bind, calm_checks) depth 30

  pub start_job-Calm : (job_id runner_id : String) → Calm (start_job ctx job_id runner_id db)
  unfolding start_job
  start_job-Calm job_id runner_id = search (Calm-bind, calm_checks) depth 30

  pub complete_job-Calm : (job_id summary : String) → Calm (complete_job ctx job_id summary db)
  unfolding complete_job
  complete_job-Calm job_id summary = transition_job-Calm ctx db _ _ _

  pub fail_job-Calm : (job_id summary : String) → Calm (fail_job ctx job_id summary db)
  unfolding fail_job
  fail_job-Calm job_id summary = transition_job-Calm ctx db _ _ _

  pub upsert_presence-Calm :
      (agent_id runner_id control_plane status : String)
      → Calm (upsert_presence ctx agent_id runner_id control_plane status db)
  unfolding upsert_presence
  upsert_presence-Calm agent_id runner_id control_plane status =
      search (Calm-bind, calm_checks) depth 30

  pub register_schedule-Calm :
      (schedule_id agent_id control_plane goal : String) (interval_minutes : ℕ)
      (priority requested_by : String) (enabled : Bool)
      → Calm (
          register_schedule ctx schedule_id agent_id control_plane goal interval_minutes priority
            requested_by enabled db)
  unfolding register_schedule
  register_schedule-Calm schedule_id agent_id control_plane goal interval_minutes priority
        requested_by enabled =
      Calm-bind (search calm_checks) λ id _. Calm-bind (search calm_checks) λ _ _.
        Calm-bind (search calm_checks) λ _ _. Calm-bind (search calm_checks) λ _ _.
          Calm-bind (search calm_checks) λ _ _. Calm-bind (search calm_checks) λ _ _.
            Calm-bind (search calm_checks) λ _ _. Calm-bind (search calm_checks) λ _ _.
              Calm-bind
                (elim (Option-cases (S.find db.schedule_record id)) [
                  | inl missing ↦ rw missing (Calm-insert missing)
                  | inr (old, found) ↦ rw found (Calm-update found (sym (S.find-key _ _ _ found)))
                ])
                λ _ _. Calm-ok

  pub claim_schedule_run-Calm :
      (schedule_id control_plane : String) (expected_next_run_at_micros : ℤ)
      (job_id context_json : String)
      → Calm (
          claim_schedule_run ctx schedule_id control_plane expected_next_run_at_micros job_id
            context_json db)
  unfolding claim_schedule_run
  claim_schedule_run-Calm schedule_id control_plane expected_next_run_at_micros job_id
        context_json =
      Calm-bind (search calm_checks) λ _ _. Calm-bind (search calm_checks) λ _ _.
        Calm-bind (search calm_checks) λ _ _. Calm-bind (search calm_checks) λ _ _.
          Calm-bind (search calm_checks) λ schedule found. Calm-bind (search calm_checks) λ _ _.
            Calm-bind (search calm_checks) λ _ _. Calm-bind (search calm_checks) λ _ _.
              Calm-bind (search calm_checks) λ _ _. Calm-insert_fresh _ refl λ jobs wrote.
                Calm-bind (search calm_checks) λ _ _. Calm-bind (search calm_checks) λ _ _. Calm-ok

  pub record_delivery_attempt-Calm :
      (attempt_id thread_id : String) (run_id : Option String)
      (channel direction status target payload_json : String) (response_json : Option String)
      → Calm (
          record_delivery_attempt ctx attempt_id thread_id run_id channel direction status target
            payload_json response_json db)
  unfolding record_delivery_attempt
  record_delivery_attempt-Calm attempt_id thread_id run_id channel direction status target
        payload_json response_json =
      search (Calm-bind, calm_checks, Calm-check_option) depth 30

  pub start_workflow_run-Calm :
      (run_id thread_id agent_id goal priority trigger_source requested_by context_json : String)
      → Calm (
          start_workflow_run ctx run_id thread_id agent_id goal priority trigger_source requested_by
            context_json db)
  unfolding start_workflow_run
  start_workflow_run-Calm run_id thread_id agent_id goal priority trigger_source requested_by
        context_json =
      search (Calm-bind, calm_checks) depth 30

  pub update_run_stage-Calm : (run_id stage : String) → Calm (update_run_stage ctx run_id stage db)
  unfolding update_run_stage
  update_run_stage-Calm run_id stage = search (Calm-bind, calm_checks) depth 30

  pub update_run_status-Calm :
      (run_id status : String) → Calm (update_run_status ctx run_id status db)
  unfolding update_run_status
  update_run_status-Calm run_id status = search (Calm-bind, calm_checks) depth 30

  pub enqueue_workflow_step-Calm :
      (step_id run_id agent_id stage owner_execution input_json : String)
      (depends_on_step_id : Option String)
      → Calm (
          enqueue_workflow_step ctx step_id run_id agent_id stage owner_execution input_json
            depends_on_step_id db)
  unfolding enqueue_workflow_step
  enqueue_workflow_step-Calm step_id run_id agent_id stage owner_execution input_json
        depends_on_step_id =
      Calm-bind (search calm_checks) λ _ _. Calm-bind (search calm_checks) λ _ _.
        Calm-bind (search calm_checks) λ _ _. Calm-bind (search calm_checks) λ _ _.
          Calm-bind (search calm_checks) λ _ _. Calm-bind (search calm_checks) λ _ _.
            Calm-bind (search (calm_checks, Calm-check_option)) λ _ _.
              Calm-bind (search calm_checks) λ _ _.
                Calm-insert_fresh _ refl
                  λ steps wrote. update_workflow_run_status-Calm _ _ _ _ _ _ _

  pub claim_workflow_step-Calm :
      (step_id owner_execution runner_id : String)
      → Calm (claim_workflow_step ctx step_id owner_execution runner_id db)
  unfolding claim_workflow_step
  claim_workflow_step-Calm step_id owner_execution runner_id =
      search (Calm-bind, calm_checks) depth 30

  pub complete_workflow_step-Calm :
      (step_id output_json : String) → Calm (complete_workflow_step ctx step_id output_json db)
  unfolding complete_workflow_step
  complete_workflow_step-Calm step_id output_json =
      search (Calm-bind, calm_checks, update_workflow_run_status-Calm) depth 30

  pub fail_workflow_step-Calm :
      (step_id output_json : String) → Calm (fail_workflow_step ctx step_id output_json db)
  unfolding fail_workflow_step
  fail_workflow_step-Calm step_id output_json =
      search (Calm-bind, calm_checks, update_workflow_run_status-Calm) depth 30

  pub resolve_approval-Calm :
      (approval_id status resolution_json : String)
      → Calm (resolve_approval ctx approval_id status resolution_json db)
  unfolding resolve_approval
  resolve_approval-Calm approval_id status resolution_json =
      search (Calm-bind, calm_checks, update_workflow_run_status-Calm) depth 30
