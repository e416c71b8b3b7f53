-- ===== src/Reducers/Jobs.antt =====
-- The reducers of spacetimedb/src/lib.rs for agents, jobs, notes and runner presence.
use Prim.Native.String.{◌++◌}
use cadet.Shared.{
  String, Option, none, some, Result, ok, ◌>>=◌, ◌>>◌, refuse_if, or_err, is_some, not,
}
use mathlib.Core.Option
use cadet.Store.{Store, upsert}
use cadet.Text.{trim, validate_identifier, validate_text, normalize_json_blob}
use cadet.Validate.{
  validate_runtime, validate_control_plane, validate_execution_target, validate_priority,
  validate_job_status, validate_runner_presence_status,
}
use cadet.Db.{Db, Context}

abbrev pub job_status_queued : String
job_status_queued = "queued"

abbrev pub job_status_running : String
job_status_running = "running"

abbrev pub job_status_completed : String
job_status_completed = "completed"

abbrev pub job_status_failed : String
job_status_failed = "failed"

module _ ⦃S : Store⦄ where
  unfoldable pub register_agent :
      Context
      → String
      → String
      → String
      → String
      → String
      → String
      → String
      → String
      → Db
      → Result Db
  register_agent ctx agent_id display_name runtime control_plane execution_target workflow model
        tags_json db =
      do
        agent_id ← validate_identifier agent_id "agent_id"
        display_name ← validate_text display_name "display_name"
        runtime ← validate_runtime runtime
        control_plane ← validate_control_plane control_plane
        execution_target ← validate_execution_target execution_target
        workflow ← validate_text workflow "workflow"
        model ← validate_text model "model"
        agents ← upsert db.agent_record (record {
          agent_id = agent_id;
          display_name = display_name;
          runtime = runtime;
          control_plane = control_plane;
          execution_target = execution_target;
          workflow = workflow;
          model = model;
          tags_json = tags_json;
          updated_at = ctx.timestamp;
        })
        ok (record db { agent_record = agents })

  unfoldable pub remember : Context → String → String → String → Db → Result Db
  remember ctx agent_id namespace content db = do
    agent_id ← validate_identifier agent_id "agent_id"
    namespace ← validate_text namespace "namespace"
    content ← validate_text content "content"
    ok (record db {
      memory_note = S.append db.memory_note (λ id. record {
        id = id;
        agent_id = agent_id;
        namespace = namespace;
        content = content;
        created_at = ctx.timestamp;
      });
    })

  unfoldable pub enqueue_job :
      Context → String → String → String → String → String → String → Db → Result Db
  enqueue_job ctx job_id agent_id goal priority requested_by context_json db = do
    job_id ← validate_identifier job_id "job_id"
    agent_id ← validate_identifier agent_id "agent_id"
    goal ← validate_text goal "goal"
    priority ← validate_priority priority
    requested_by ← validate_text requested_by "requested_by"
    context_json ← normalize_json_blob context_json "context_json"
    refuse_if (not (is_some (S.find db.agent_record agent_id)))
        ("agent '" ++ agent_id ++ "' is not registered")
    jobs ← S.insert db.job_record (record {
      job_id = job_id;
      agent_id = agent_id;
      goal = goal;
      priority = priority;
      requested_by = requested_by;
      requested_by_identity = ctx.sender;
      context_json = context_json;
      status = job_status_queued;
      runner_id = none;
      result_summary = none;
      created_at = ctx.timestamp;
      updated_at = ctx.timestamp;
    })
    ok (record db { job_record = jobs })

  unfoldable pub start_job : Context → String → String → Db → Result Db
  start_job ctx job_id runner_id db = do
    job_id ← validate_identifier job_id "job_id"
    runner_id ← validate_text runner_id "runner_id"
    job ← or_err (S.find db.job_record job_id) "job not found"
    status ← validate_job_status job_status_running
    jobs ←
        S.update db.job_record
          (record job { status = status; runner_id = some runner_id; updated_at = ctx.timestamp })
    ok (record db { job_record = jobs })

  unfoldable pub transition_job : Context → String → String → Option String → Db → Result Db
  transition_job ctx job_id status summary db = do
    job_id ← validate_identifier job_id "job_id"
    job ← or_err (S.find db.job_record job_id) "job not found"
    status ← validate_job_status status
    jobs ← S.update db.job_record (record job {
      status = status;
      result_summary = Option.map trim summary;
      updated_at = ctx.timestamp;
    })
    ok (record db { job_record = jobs })

  unfoldable pub complete_job : Context → String → String → Db → Result Db
  complete_job ctx job_id summary = transition_job ctx job_id job_status_completed (some summary)

  unfoldable pub fail_job : Context → String → String → Db → Result Db
  fail_job ctx job_id summary = transition_job ctx job_id job_status_failed (some summary)

  unfoldable pub upsert_presence : Context → String → String → String → String → Db → Result Db
  upsert_presence ctx agent_id runner_id control_plane status db = do
    agent_id ← validate_identifier agent_id "agent_id"
    runner_id ← validate_text runner_id "runner_id"
    control_plane ← validate_control_plane control_plane
    status ← validate_runner_presence_status status
    presence ← upsert db.runner_presence (record {
      runner_id = runner_id;
      agent_id = agent_id;
      control_plane = control_plane;
      status = status;
      last_seen_at = ctx.timestamp;
    })
    ok (record db { runner_presence = presence })
