-- ===== src/Reducers/Browser.antt =====
-- The reducers of spacetimedb/src/lib.rs for browser tasks and their artifacts.
use cadet.Shared.{String, none, some, Result, ok, ◌>>=◌, ◌>>◌, refuse_if, or_err, not, ◌==◌}
use cadet.Store.{Store, upsert}
use cadet.Text.{validate_identifier, validate_text, normalize_json_blob}
use cadet.Validate.{
  validate_browser_mode, validate_browser_risk, validate_browser_task_status,
  validate_artifact_kind,
}
use cadet.Db.{Db, Context, now_micros}
use cadet.Reducers.Runs.{update_workflow_run_status, block_linked_step}

module _ ⦃S : Store⦄ where
  unfoldable pub enqueue_browser_task :
      Context
      → String
      → String
      → String
      → String
      → String
      → String
      → String
      → String
      → Db
      → Result Db
  enqueue_browser_task ctx task_id run_id step_id agent_id mode risk url request_json db = do
    task_id ← validate_identifier task_id "task_id"
    run_id ← validate_identifier run_id "run_id"
    step_id ← validate_identifier step_id "step_id"
    agent_id ← validate_identifier agent_id "agent_id"
    mode ← validate_browser_mode mode
    risk ← validate_browser_risk risk
    url ← validate_text url "url"
    request_json ← normalize_json_blob request_json "request_json"
    let now = now_micros ctx
    tasks ← S.insert db.browser_task (record {
      task_id = task_id;
      run_id = run_id;
      step_id = step_id;
      agent_id = agent_id;
      mode = mode;
      risk = risk;
      status = "queued";
      owner_execution = "browser-worker";
      url = url;
      request_json = request_json;
      result_json = none;
      runner_id = none;
      created_at_micros = now;
      updated_at_micros = now;
    })
    db ← block_linked_step ctx step_id "blocked" (record db { browser_task = tasks })
    update_workflow_run_status ctx run_id "blocked" "gather" none none db

  unfoldable pub claim_browser_task : Context → String → String → Db → Result Db
  claim_browser_task ctx task_id runner_id db = do
    task_id ← validate_identifier task_id "task_id"
    runner_id ← validate_text runner_id "runner_id"
    let now = now_micros ctx
    task ← or_err (S.find db.browser_task task_id) "browser task not found"
    refuse_if (not (task.status == "queued")) "browser task is not queued"
    status ← validate_browser_task_status "running"
    tasks ←
        S.update db.browser_task
          (record task { status = status; runner_id = some runner_id; updated_at_micros = now })
    ok (record db { browser_task = tasks })

  unfoldable pub complete_browser_task : Context → String → String → Db → Result Db
  complete_browser_task ctx task_id result_json db = do
    task_id ← validate_identifier task_id "task_id"
    result_json ← normalize_json_blob result_json "result_json"
    let now = now_micros ctx
    task ← or_err (S.find db.browser_task task_id) "browser task not found"
    status ← validate_browser_task_status "completed"
    tasks ←
        S.update db.browser_task
          (record task { status = status; result_json = some result_json; updated_at_micros = now })
    db ← block_linked_step ctx task.step_id "ready" (record db { browser_task = tasks })
    update_workflow_run_status ctx task.run_id "running" "verify" none none db

  unfoldable pub fail_browser_task : Context → String → String → Db → Result Db
  fail_browser_task ctx task_id result_json db = do
    task_id ← validate_identifier task_id "task_id"
    result_json ← normalize_json_blob result_json "result_json"
    let now = now_micros ctx
    task ← or_err (S.find db.browser_task task_id) "browser task not found"
    status ← validate_browser_task_status "failed"
    tasks ←
        S.update db.browser_task
          (record task { status = status; result_json = some result_json; updated_at_micros = now })
    db ← block_linked_step ctx task.step_id "failed" (record db { browser_task = tasks })
    update_workflow_run_status ctx task.run_id "failed" "verify" none (some now) db

  unfoldable pub record_browser_artifact :
      Context
      → String
      → String
      → String
      → String
      → String
      → String
      → String
      → String
      → Db
      → Result Db
  record_browser_artifact ctx artifact_id task_id run_id step_id kind title url metadata_json db =
      do
        artifact_id ← validate_identifier artifact_id "artifact_id"
        task_id ← validate_identifier task_id "task_id"
        run_id ← validate_identifier run_id "run_id"
        step_id ← validate_identifier step_id "step_id"
        kind ← validate_artifact_kind kind
        title ← validate_text title "title"
        url ← validate_text url "url"
        metadata_json ← normalize_json_blob metadata_json "metadata_json"
        artifacts ← upsert db.browser_artifact (record {
          artifact_id = artifact_id;
          task_id = task_id;
          run_id = run_id;
          step_id = step_id;
          kind = kind;
          title = title;
          url = url;
          metadata_json = metadata_json;
          created_at_micros = now_micros ctx;
        })
        ok (record db { browser_artifact = artifacts })
