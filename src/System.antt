-- ===== src/System.antt =====
-- The control plane as a whole: the calls that the host may make, and a sequence of them. A call that
-- ends in an error or a panic leaves the database as it was: the host runs a reducer as one
-- transaction.
mod Calls
pub mod Invariant
pub mod Panics
pub mod Senders
pub use Calls.{Call}
use cadet.Shared.{List, [], ◌∷◌, Result, ok, err, panicked}
use cadet.Store.{Store}
use cadet.Db.{Db, Context}
use cadet.Reducers.Jobs
use cadet.Reducers.Schedules
use cadet.Reducers.Messages
use cadet.Reducers.Runs
use cadet.Reducers.Steps
use cadet.Reducers.Approvals
use cadet.Reducers.Browser
use cadet.Reducers.Memory
use cadet.Reducers.Sessions
use cadet.Reducers.Operators
use cadet.Reducers.Accounts
use cadet.Reducers.Bus
use cadet.Reducers.Training
use cadet.Reducers.Chat
use cadet.Reducers.Sandboxes
use cadet.Reducers.Skills

module _ ⦃S : Store⦄ where
  unfoldable pub perform : Context → Call → Db → Result Db
  perform ctx (Call.register_agent x0 x1 x2 x3 x4 x5 x6 x7) =
      Jobs.register_agent ctx x0 x1 x2 x3 x4 x5 x6 x7
  perform ctx (Call.remember x0 x1 x2) = Jobs.remember ctx x0 x1 x2
  perform ctx (Call.enqueue_job x0 x1 x2 x3 x4 x5) = Jobs.enqueue_job ctx x0 x1 x2 x3 x4 x5
  perform ctx (Call.start_job x0 x1) = Jobs.start_job ctx x0 x1
  perform ctx (Call.complete_job x0 x1) = Jobs.complete_job ctx x0 x1
  perform ctx (Call.fail_job x0 x1) = Jobs.fail_job ctx x0 x1
  perform ctx (Call.upsert_presence x0 x1 x2 x3) = Jobs.upsert_presence ctx x0 x1 x2 x3
  perform ctx (Call.register_schedule x0 x1 x2 x3 x4 x5 x6 x7) =
      Schedules.register_schedule ctx x0 x1 x2 x3 x4 x5 x6 x7
  perform ctx (Call.claim_schedule_run x0 x1 x2 x3 x4) =
      Schedules.claim_schedule_run ctx x0 x1 x2 x3 x4
  perform ctx (Call.ingest_message x0 x1 x2 x3 x4 x5 x6 x7 x8 x9) =
      Messages.ingest_message ctx x0 x1 x2 x3 x4 x5 x6 x7 x8 x9
  perform ctx (Call.record_delivery_attempt x0 x1 x2 x3 x4 x5 x6 x7 x8) =
      Messages.record_delivery_attempt ctx x0 x1 x2 x3 x4 x5 x6 x7 x8
  perform ctx (Call.start_workflow_run x0 x1 x2 x3 x4 x5 x6 x7) =
      Runs.start_workflow_run ctx x0 x1 x2 x3 x4 x5 x6 x7
  perform ctx (Call.update_run_stage x0 x1) = Runs.update_run_stage ctx x0 x1
  perform ctx (Call.update_run_status x0 x1) = Runs.update_run_status ctx x0 x1
  perform ctx (Call.enqueue_workflow_step x0 x1 x2 x3 x4 x5 x6) =
      Steps.enqueue_workflow_step ctx x0 x1 x2 x3 x4 x5 x6
  perform ctx (Call.claim_workflow_step x0 x1 x2) = Steps.claim_workflow_step ctx x0 x1 x2
  perform ctx (Call.complete_workflow_step x0 x1) = Steps.complete_workflow_step ctx x0 x1
  perform ctx (Call.fail_workflow_step x0 x1) = Steps.fail_workflow_step ctx x0 x1
  perform ctx (Call.request_approval x0 x1 x2 x3 x4 x5 x6 x7) =
      Approvals.request_approval ctx x0 x1 x2 x3 x4 x5 x6 x7
  perform ctx (Call.resolve_approval x0 x1 x2) = Approvals.resolve_approval ctx x0 x1 x2
  perform ctx (Call.enqueue_browser_task x0 x1 x2 x3 x4 x5 x6 x7) =
      Browser.enqueue_browser_task ctx x0 x1 x2 x3 x4 x5 x6 x7
  perform ctx (Call.claim_browser_task x0 x1) = Browser.claim_browser_task ctx x0 x1
  perform ctx (Call.complete_browser_task x0 x1) = Browser.complete_browser_task ctx x0 x1
  perform ctx (Call.fail_browser_task x0 x1) = Browser.fail_browser_task ctx x0 x1
  perform ctx (Call.record_browser_artifact x0 x1 x2 x3 x4 x5 x6 x7) =
      Browser.record_browser_artifact ctx x0 x1 x2 x3 x4 x5 x6 x7
  perform ctx (Call.record_tool_call x0 x1 x2 x3 x4 x5 x6 x7) =
      Memory.record_tool_call ctx x0 x1 x2 x3 x4 x5 x6 x7
  perform ctx (Call.upsert_memory_document x0 x1 x2 x3 x4 x5 x6) =
      Memory.upsert_memory_document ctx x0 x1 x2 x3 x4 x5 x6
  perform ctx (Call.upsert_memory_chunk x0 x1 x2 x3 x4 x5 x6) =
      Memory.upsert_memory_chunk ctx x0 x1 x2 x3 x4 x5 x6
  perform ctx (Call.upsert_memory_embedding x0 x1 x2 x3 x4 x5 x6 x7) =
      Memory.upsert_memory_embedding ctx x0 x1 x2 x3 x4 x5 x6 x7
  perform ctx (Call.record_retrieval_trace x0 x1 x2 x3 x4 x5 x6) =
      Memory.record_retrieval_trace ctx x0 x1 x2 x3 x4 x5 x6
  perform ctx (Call.append_learning_note x0 x1 x2 x3) = Memory.append_learning_note ctx x0 x1 x2 x3
  perform ctx (Call.create_agent_session x0 x1 x2 x3 x4 x5) =
      Sessions.create_agent_session ctx x0 x1 x2 x3 x4 x5
  perform ctx (Call.update_agent_session_status x0 x1) =
      Sessions.update_agent_session_status ctx x0 x1
  perform ctx (Call.record_session_turn x0 x1) = Sessions.record_session_turn ctx x0 x1
  perform ctx (Call.request_session_cancel x0) = Sessions.request_session_cancel ctx x0
  perform ctx (Call.clear_session_cancel x0) = Sessions.clear_session_cancel ctx x0
  perform ctx (Call.update_agent_session_sandbox x0 x1) =
      Sessions.update_agent_session_sandbox ctx x0 x1
  perform ctx (Call.create_auth_challenge x0 x1 x2 x3) =
      Operators.create_auth_challenge ctx x0 x1 x2 x3
  perform ctx (Call.register_operator x0 x1 x2 x3 x4 x5) =
      Operators.register_operator ctx x0 x1 x2 x3 x4 x5
  perform ctx (Call.store_operator_ssh_key x0 x1) = Operators.store_operator_ssh_key ctx x0 x1
  perform ctx (Call.update_webauthn_counter x0 x1) = Operators.update_webauthn_counter ctx x0 x1
  perform ctx (Call.delete_auth_challenge x0) = Operators.delete_auth_challenge ctx x0
  perform ctx Call.delete_expired_challenges = Operators.delete_expired_challenges ctx
  perform ctx (Call.upsert_user_agent_config x0 x1 x2 x3 x4 x5 x6 x7 x8 x9) =
      Accounts.upsert_user_agent_config ctx x0 x1 x2 x3 x4 x5 x6 x7 x8 x9
  perform ctx (Call.delete_user_agent_config x0) = Accounts.delete_user_agent_config ctx x0
  perform ctx (Call.upsert_operator_token x0 x1 x2 x3 x4) =
      Accounts.upsert_operator_token ctx x0 x1 x2 x3 x4
  perform ctx (Call.delete_operator_token x0) = Accounts.delete_operator_token ctx x0
  perform ctx (Call.upsert_operator_credits x0 x1 x2 x3 x4 x5) =
      Accounts.upsert_operator_credits ctx x0 x1 x2 x3 x4 x5
  perform ctx (Call.ingest_raw_message x0 x1 x2 x3 x4 x5 x6 x7 x8 x9 x10 x11) =
      Bus.ingest_raw_message ctx x0 x1 x2 x3 x4 x5 x6 x7 x8 x9 x10 x11
  perform ctx (Call.add_message_extraction x0 x1 x2 x3 x4 x5 x6) =
      Bus.add_message_extraction ctx x0 x1 x2 x3 x4 x5 x6
  perform ctx (Call.upsert_message_entity x0 x1 x2 x3 x4 x5 x6 x7 x8 x9 x10) =
      Bus.upsert_message_entity ctx x0 x1 x2 x3 x4 x5 x6 x7 x8 x9 x10
  perform ctx (Call.embed_message x0 x1 x2 x3 x4 x5 x6 x7) =
      Bus.embed_message ctx x0 x1 x2 x3 x4 x5 x6 x7
  perform ctx (Call.link_conversation x0 x1 x2 x3 x4 x5) =
      Bus.link_conversation ctx x0 x1 x2 x3 x4 x5
  perform ctx (Call.set_message_route x0 x1 x2 x3 x4 x5 x6) =
      Bus.set_message_route ctx x0 x1 x2 x3 x4 x5 x6
  perform ctx (Call.update_message_status x0 x1) = Bus.update_message_status ctx x0 x1
  perform ctx (Call.log_trajectory x0 x1 x2 x3 x4 x5 x6 x7 x8 x9 x10) =
      Training.log_trajectory ctx x0 x1 x2 x3 x4 x5 x6 x7 x8 x9 x10
  perform ctx (Call.record_trajectory_score x0 x1 x2 x3 x4 x5 x6 x7 x8 x9 x10 x11 x12) =
      Training.record_trajectory_score ctx x0 x1 x2 x3 x4 x5 x6 x7 x8 x9 x10 x11 x12
  perform ctx (Call.buffer_high_delight_trajectory x0 x1 x2 x3 x4) =
      Training.buffer_high_delight_trajectory ctx x0 x1 x2 x3 x4
  perform ctx (Call.consume_training_buffer x0) = Training.consume_training_buffer ctx x0
  perform ctx (Call.record_training_run x0 x1 x2 x3 x4 x5 x6 x7 x8 x9 x10) =
      Training.record_training_run ctx x0 x1 x2 x3 x4 x5 x6 x7 x8 x9 x10
  perform ctx (Call.update_training_run_status x0 x1 x2 x3) =
      Training.update_training_run_status ctx x0 x1 x2 x3
  perform ctx (Call.upsert_chat_bot_state x0 x1 x2 x3) = Chat.upsert_chat_bot_state ctx x0 x1 x2 x3
  perform ctx (Call.delete_chat_bot_state x0) = Chat.delete_chat_bot_state ctx x0
  perform ctx (Call.save_chat_message x0 x1 x2 x3 x4 x5) =
      Chat.save_chat_message ctx x0 x1 x2 x3 x4 x5
  perform ctx (Call.record_user_interaction x0 x1 x2 x3 x4 x5 x6 x7 x8) =
      Chat.record_user_interaction ctx x0 x1 x2 x3 x4 x5 x6 x7 x8
  perform ctx (Call.create_sandbox x0 x1 x2 x3 x4 x5) =
      Sandboxes.create_sandbox ctx x0 x1 x2 x3 x4 x5
  perform ctx (Call.update_sandbox_status x0 x1 x2) = Sandboxes.update_sandbox_status ctx x0 x1 x2
  perform ctx (Call.delete_sandbox x0) = Sandboxes.delete_sandbox ctx x0
  perform ctx (Call.create_sandbox_snapshot x0 x1 x2) =
      Sandboxes.create_sandbox_snapshot ctx x0 x1 x2
  perform ctx (Call.create_checkpoint x0 x1 x2 x3 x4 x5) =
      Sandboxes.create_checkpoint ctx x0 x1 x2 x3 x4 x5
  perform ctx (Call.upsert_agent_skill x0 x1 x2 x3 x4 x5 x6 x7 x8 x9) =
      Skills.upsert_agent_skill ctx x0 x1 x2 x3 x4 x5 x6 x7 x8 x9
  perform ctx (Call.delete_agent_skill x0) = Skills.delete_agent_skill ctx x0
  perform ctx (Call.create_agent_hook x0 x1 x2 x3 x4 x5 x6 x7) =
      Skills.create_agent_hook ctx x0 x1 x2 x3 x4 x5 x6 x7
  perform ctx (Call.toggle_agent_hook x0 x1) = Skills.toggle_agent_hook ctx x0 x1
  perform ctx (Call.delete_agent_hook x0) = Skills.delete_agent_hook ctx x0

  -- What the host commits.
  abbrev pub commit : Db → Result Db → Db
  commit db (ok after) = after
  commit db (err message) = db
  commit db panicked = db

  unfoldable pub run : List (Context × Call) → Db → Db
  run [] db = db
  run ((ctx, call) ∷ calls) db = run calls (commit db (perform ctx call db))
