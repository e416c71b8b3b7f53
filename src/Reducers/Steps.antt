-- ===== src/Reducers/Steps.antt =====
-- The reducers of spacetimedb/src/lib.rs for workflow steps.
use cadet.Shared.{
  String, Option, none, some, Result, ok, ◌>>=◌, ◌>>◌, refuse_if, or_err, is_some, not, ◌==◌,
  if◌then◌else◌,
}
use cadet.Store.{Store}
use cadet.Text.{validate_identifier, validate_text, normalize_json_blob}
use cadet.Validate.{validate_stage, validate_execution_owner}
use cadet.Db.{Db, Context, now_micros}
use cadet.Reducers.Runs.{run_status_after_step_completion, update_workflow_run_status}

-- `match o { Some(candidate) => Some(check(candidate)?), None => None }`
unfoldable pub check_option : (String → Result String) → Option String → Result (Option String)
check_option check none = ok none
check_option check (some candidate) = do checked ← check candidate; ok (some checked)

module _ ⦃S : Store⦄ where
  unfoldable pub enqueue_workflow_step :
      Context → String → String → String → String → String → String → Option String → Db → Result Db
  enqueue_workflow_step ctx step_id run_id agent_id stage owner_execution input_json
        depends_on_step_id db =
      do
        step_id ← validate_identifier step_id "step_id"
        run_id ← validate_identifier run_id "run_id"
        agent_id ← validate_identifier agent_id "agent_id"
        stage ← validate_stage stage
        owner_execution ← validate_execution_owner owner_execution
        input_json ← normalize_json_blob input_json "input_json"
        depends_on_step_id ←
            check_option (λ candidate. validate_identifier candidate "depends_on_step_id")
              depends_on_step_id
        let now = now_micros ctx
        refuse_if (not (is_some (S.find db.workflow_run run_id))) "workflow run is not registered"
        refuse_if (is_some (S.find db.workflow_step step_id)) "workflow step already exists"
        steps ← S.insert db.workflow_step (record {
          step_id = step_id;
          run_id = run_id;
          agent_id = agent_id;
          stage = stage;
          owner_execution = owner_execution;
          status = "ready";
          input_json = input_json;
          output_json = none;
          retry_count = 0;
          depends_on_step_id = depends_on_step_id;
          approval_request_id = none;
          runner_id = none;
          created_at_micros = now;
          updated_at_micros = now;
          claimed_at_micros = none;
          completed_at_micros = none;
        })
        update_workflow_run_status ctx run_id "queued" stage none none
            (record db { workflow_step = steps })

  unfoldable pub claim_workflow_step : Context → String → String → String → Db → Result Db
  claim_workflow_step ctx step_id owner_execution runner_id db = do
    step_id ← validate_identifier step_id "step_id"
    owner_execution ← validate_execution_owner owner_execution
    runner_id ← validate_text runner_id "runner_id"
    let now = now_micros ctx
    step ← or_err (S.find db.workflow_step step_id) "workflow step not found"
    refuse_if (not (step.owner_execution == owner_execution))
        "workflow step belongs to a different execution target"
    refuse_if (not (step.status == "ready")) "workflow step is not ready"
    steps ← S.update db.workflow_step (record step {
      status = "running";
      runner_id = some runner_id;
      claimed_at_micros = some now;
      updated_at_micros = now;
    })
    ok (record db { workflow_step = steps })

  unfoldable pub complete_workflow_step : Context → String → String → Db → Result Db
  complete_workflow_step ctx step_id output_json db = do
    step_id ← validate_identifier step_id "step_id"
    output_json ← normalize_json_blob output_json "output_json"
    let now = now_micros ctx
    step ← or_err (S.find db.workflow_step step_id) "workflow step not found"
    steps ← S.update db.workflow_step (record step {
      status = "completed";
      output_json = some output_json;
      updated_at_micros = now;
      completed_at_micros = some now;
    })
    let after = run_status_after_step_completion step.stage
    update_workflow_run_status ctx step.run_id after.0 step.stage none
        (if is_some after.1 then some now else none) (record db { workflow_step = steps })

  unfoldable pub fail_workflow_step : Context → String → String → Db → Result Db
  fail_workflow_step ctx step_id output_json db = do
    step_id ← validate_identifier step_id "step_id"
    output_json ← normalize_json_blob output_json "output_json"
    let now = now_micros ctx
    step ← or_err (S.find db.workflow_step step_id) "workflow step not found"
    steps ← S.update db.workflow_step (record step {
      status = "failed";
      output_json = some output_json;
      updated_at_micros = now;
      completed_at_micros = some now;
    })
    update_workflow_run_status ctx step.run_id "failed" step.stage none (some now)
        (record db { workflow_step = steps })
