-- ===== src/Examples.antt =====
-- Rows, tables and calls for the examples, over association lists.
pub mod Steps
pub mod Approvals
pub mod Tasks
pub mod Schedules
pub mod Host
pub mod Texts
pub mod Sessions
pub mod Runner
pub mod Operators
pub mod Prompt
use cadet.Shared.{String, ℕ, Option, none, some, true, List, [], ◌∷◌}
use cadet.Shared.Int.{ℤ, pos}
use cadet.Store.{Store}
use cadet.Store.Assoc.{assoc_store}
use cadet.Rows.Agents.{AgentRecord, ScheduleRecord}
use cadet.Rows.Workflow.{WorkflowRun, WorkflowStep, ApprovalRequest}
use cadet.Rows.Browser.{BrowserTask}
use cadet.Db.{Db, Context}

instance abbrev pub tables : Store
tables = assoc_store

-- A call of the caller 7.
abbrev pub at : ℤ → Context
at time = record { timestamp = time; sender = 7 }

abbrev pub agent : AgentRecord
agent = record {
  agent_id = "saturn";
  display_name = "Saturn";
  runtime = "rust-core";
  control_plane = "local";
  execution_target = "local-runner";
  workflow = "research";
  model = "m";
  tags_json = "[]";
  updated_at = pos 1;
}

abbrev pub schedule : ScheduleRecord
schedule = record {
  schedule_id = "daily";
  agent_id = "saturn";
  control_plane = "local";
  goal = "report";
  interval_minutes = 5;
  priority = "normal";
  requested_by = "operator";
  enabled = true;
  next_run_at_micros = pos 100;
  last_run_at_micros = none;
  last_job_id = none;
  status = "ready";
  updated_at = pos 100;
}

abbrev pub workflow : WorkflowRun
workflow = record {
  run_id = "run-1";
  thread_id = "thread-1";
  agent_id = "saturn";
  goal = "report";
  priority = "normal";
  trigger_source = "operator";
  requested_by = "operator";
  current_stage = "summarize";
  status = "running";
  summary = none;
  context_json = "{}";
  created_at_micros = pos 2;
  updated_at_micros = pos 2;
  completed_at_micros = none;
}

abbrev pub step : WorkflowStep
step = record {
  step_id = "run-1_learn";
  run_id = "run-1";
  agent_id = "saturn";
  stage = "learn";
  owner_execution = "learning-worker";
  status = "ready";
  input_json = "{}";
  output_json = none;
  retry_count = 0;
  depends_on_step_id = none;
  approval_request_id = none;
  runner_id = none;
  created_at_micros = pos 3;
  updated_at_micros = pos 3;
  claimed_at_micros = none;
  completed_at_micros = none;
}

abbrev pub approval : ApprovalRequest
approval = record {
  approval_id = "ask-1";
  run_id = "run-1";
  step_id = "run-1_learn";
  agent_id = "saturn";
  title = "Post";
  detail = "Post the report";
  status = "pending";
  risk = "high";
  requested_by = "operator";
  resolution_json = none;
  created_at_micros = pos 4;
  updated_at_micros = pos 4;
}

abbrev pub task : BrowserTask
task = record {
  task_id = "task-1";
  run_id = "run-1";
  step_id = "run-1_learn";
  agent_id = "saturn";
  mode = "read";
  risk = "medium";
  status = "queued";
  owner_execution = "browser-worker";
  url = "https://example.com";
  request_json = "{}";
  result_json = none;
  runner_id = none;
  created_at_micros = pos 4;
  updated_at_micros = pos 4;
}

abbrev pub empty : Db
empty = record {
  agent_record = [];
  job_record = [];
  memory_note = [];
  runner_presence = [];
  schedule_record = [];
  thread_record = [];
  message_event = [];
  delivery_attempt = [];
  workflow_run = [];
  workflow_step = [];
  approval_request = [];
  tool_call_record = [];
  browser_task = [];
  browser_artifact = [];
  memory_document = [];
  memory_chunk = [];
  memory_embedding = [];
  retrieval_trace = [];
  agent_session = [];
  operator_account = [];
  webauthn_credential = [];
  auth_challenge = [];
  user_agent_config = [];
  operator_credits = [];
  operator_token = [];
  raw_message = [];
  message_extraction = [];
  message_entity = [];
  message_embedding = [];
  conversation_link = [];
  message_route = [];
  chat_bot_state = [];
  chat_message = [];
  user_interaction = [];
  trajectory_log = [];
  trajectory_score = [];
  training_buffer = [];
  training_run = [];
  sandbox_instance = [];
  sandbox_snapshot = [];
  agent_checkpoint = [];
  agent_skill = [];
  agent_hook = [];
}

-- An agent with a schedule, and a run of it with one step, an approval and a browser task.
abbrev pub busy : Db
busy = record empty {
  agent_record = agent ∷ [];
  schedule_record = schedule ∷ [];
  workflow_run = workflow ∷ [];
  workflow_step = step ∷ [];
  approval_request = approval ∷ [];
  browser_task = task ∷ [];
}

abbrev pub run_at : Db → String → Option WorkflowRun
run_at db = tables.find {key = λ row. row.run_id} db.workflow_run

abbrev pub approval_at : Db → String → Option ApprovalRequest
approval_at db = tables.find {key = λ row. row.approval_id} db.approval_request

abbrev pub schedule_at : Db → String → Option ScheduleRecord
schedule_at db = tables.find {key = λ row. row.schedule_id} db.schedule_record

abbrev pub step_at : Db → String → Option WorkflowStep
step_at db = tables.find {key = λ row. row.step_id} db.workflow_step

abbrev pub task_at : Db → String → Option BrowserTask
task_at db = tables.find {key = λ row. row.task_id} db.browser_task
