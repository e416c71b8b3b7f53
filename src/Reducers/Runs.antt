-- ===== src/Reducers/Runs.antt =====
-- The reducers of spacetimedb/src/lib.rs for workflow runs, and the status rules that the step and
-- approval reducers share.
use Prim.Native.String.{◌++◌}
use cadet.Shared.{
  String, Option, none, some, Result, ok, ◌>>=◌, ◌>>◌, refuse_if, or_err, is_some, not, ◌==◌, ◌||◌,
  if◌then◌else◌,
}
use cadet.Shared.Int.{ℤ}
use cadet.Store.{Store}
use cadet.Text.{validate_identifier, validate_text, normalize_json_blob}
use cadet.Validate.{validate_priority, validate_workflow_run_status, validate_step_status}
use cadet.Db.{Db, Context, now_micros}

-- The status of a run after one of its steps has completed, and whether that is final.
unfoldable pub run_status_after_step_completion : String → String × Option (Unit {0})
run_status_after_step_completion stage =
    if stage == "learn" then ("completed", some tt) else ("running", none)

unfoldable pub step_status_for_approval : String → String
step_status_for_approval approval_status =
    if approval_status == "approved" then "ready" else "failed"

unfoldable pub run_status_for_step_status : String → String
run_status_for_step_status step_status = if step_status == "ready" then "running" else "failed"

module _ ⦃S : Store⦄ where
  unfoldable pub update_workflow_run_status :
      Context → String → String → String → Option String → Option ℤ → Db → Result Db
  update_workflow_run_status ctx run_id status current_stage summary completed_at_micros db = do
    run ← or_err (S.find db.workflow_run run_id) "workflow run not found"
    status ← validate_workflow_run_status status
    runs ← S.update db.workflow_run (record run {
      status = status;
      current_stage = current_stage;
      summary = summary;
      updated_at_micros = now_micros ctx;
      completed_at_micros = completed_at_micros;
    })
    ok (record db { workflow_run = runs })

  unfoldable pub block_linked_step : Context → String → String → Db → Result Db
  block_linked_step ctx step_id status db = do
    step ← or_err (S.find db.workflow_step step_id) "workflow step not found"
    status ← validate_step_status status
    steps ←
        S.update db.workflow_step
          (record step { status = status; updated_at_micros = now_micros ctx })
    ok (record db { workflow_step = steps })

  unfoldable pub start_workflow_run :
      Context
      → String
      → String
      → String
      → String
      → String
      → String
      → String
      → String
      → Db
      → Result Db
  start_workflow_run ctx run_id thread_id agent_id goal priority trigger_source requested_by
        context_json db =
      do
        run_id ← validate_identifier run_id "run_id"
        thread_id ← validate_identifier thread_id "thread_id"
        agent_id ← validate_identifier agent_id "agent_id"
        goal ← validate_text goal "goal"
        priority ← validate_priority priority
        trigger_source ← validate_text trigger_source "trigger_source"
        requested_by ← validate_text requested_by "requested_by"
        context_json ← normalize_json_blob context_json "context_json"
        let now = now_micros ctx
        refuse_if (not (is_some (S.find db.thread_record thread_id))) "thread is not registered"
        refuse_if (not (is_some (S.find db.agent_record agent_id)))
            ("agent '" ++ agent_id ++ "' is not registered")
        refuse_if (is_some (S.find db.workflow_run run_id)) "workflow run already exists"
        runs ← S.insert db.workflow_run (record {
          run_id = run_id;
          thread_id = thread_id;
          agent_id = agent_id;
          goal = goal;
          priority = priority;
          trigger_source = trigger_source;
          requested_by = requested_by;
          current_stage = "route";
          status = "queued";
          summary = none;
          context_json = context_json;
          created_at_micros = now;
          updated_at_micros = now;
          completed_at_micros = none;
        })
        ok (record db { workflow_run = runs })

  unfoldable pub update_run_stage : Context → String → String → Db → Result Db
  update_run_stage ctx run_id stage db = do
    run ← or_err (S.find db.workflow_run run_id) ("workflow run " ++ run_id ++ " not found")
    runs ←
        S.update db.workflow_run
          (record run { current_stage = stage; updated_at_micros = now_micros ctx })
    ok (record db { workflow_run = runs })

  unfoldable pub update_run_status : Context → String → String → Db → Result Db
  update_run_status ctx run_id status db = do
    status ← validate_workflow_run_status status
    run ← or_err (S.find db.workflow_run run_id) ("workflow run " ++ run_id ++ " not found")
    let now = now_micros ctx
    let completed_at =
        if status == "completed" || status == "failed" then some now else run.completed_at_micros
    runs ← S.update db.workflow_run (record run {
      status = status;
      updated_at_micros = now;
      completed_at_micros = completed_at;
    })
    ok (record db { workflow_run = runs })
