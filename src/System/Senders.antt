-- ===== src/System/Senders.antt =====
-- The identity of the caller in spacetimedb/src/lib.rs: three reducers store it, and none checks it.
mod Stored
use cadet.Shared.{refl, ◌≡◌, Result}
use cadet.Shared.Int.{ℤ}
use cadet.Store.{Store}
use cadet.Db.{Db}
use cadet.System.{Call, perform}
use cadet.System.Senders.Stored.{
  ending, ending-enqueue_job, ending-claim_schedule_run, ending-register_operator,
}

module _ ⦃S : Store⦄ where
  -- What a call gives for two callers: the same database, error or panic; of the reducers that store
  -- the identity of the caller, the two databases differ in it, and the ending is the same.
  abbrev pub Agree : Call → Result Db → Result Db → Type 0
  Agree (Call.enqueue_job x0 x1 x2 x3 x4 x5) r r' = ending r ≡ ending r'
  Agree (Call.claim_schedule_run x0 x1 x2 x3 x4) r r' = ending r ≡ ending r'
  Agree (Call.register_operator x0 x1 x2 x3 x4 x5) r r' = ending r ≡ ending r'
  Agree _ r r' = r ≡ r'

  -- No reducer refuses a caller for who it is: called by two callers with the same arguments, at the
  -- same time, on the same database, each of them ends well for both, or with the same error for
  -- both, or in a panic for both; and but for `enqueue_job`, `claim_schedule_run` and
  -- `register_operator`, which store the identity of the caller, it leaves the same database.
  pub perform_any_sender :
      (time : ℤ) (sender sender' : S.Identity) (call : Call) (db : Db)
      → Agree call
          (perform (record { timestamp = time; sender = sender }) call db)
          (perform (record { timestamp = time; sender = sender' }) call db)
  unfolding perform cadet.Reducers.Jobs.register_agent cadet.Reducers.Jobs.remember
      cadet.Reducers.Jobs.start_job cadet.Reducers.Jobs.complete_job cadet.Reducers.Jobs.fail_job
      cadet.Reducers.Jobs.upsert_presence cadet.Reducers.Schedules.register_schedule
      cadet.Reducers.Messages.ingest_message cadet.Reducers.Messages.record_delivery_attempt
      cadet.Reducers.Runs.start_workflow_run cadet.Reducers.Runs.update_run_stage
      cadet.Reducers.Runs.update_run_status cadet.Reducers.Steps.enqueue_workflow_step
      cadet.Reducers.Steps.claim_workflow_step cadet.Reducers.Steps.complete_workflow_step
      cadet.Reducers.Steps.fail_workflow_step cadet.Reducers.Approvals.request_approval
      cadet.Reducers.Approvals.resolve_approval cadet.Reducers.Browser.enqueue_browser_task
      cadet.Reducers.Browser.claim_browser_task cadet.Reducers.Browser.complete_browser_task
      cadet.Reducers.Browser.fail_browser_task cadet.Reducers.Browser.record_browser_artifact
      cadet.Reducers.Memory.record_tool_call cadet.Reducers.Memory.upsert_memory_document
      cadet.Reducers.Memory.upsert_memory_chunk cadet.Reducers.Memory.upsert_memory_embedding
      cadet.Reducers.Memory.record_retrieval_trace cadet.Reducers.Memory.append_learning_note
      cadet.Reducers.Sessions.create_agent_session
      cadet.Reducers.Sessions.update_agent_session_status
      cadet.Reducers.Sessions.record_session_turn cadet.Reducers.Sessions.request_session_cancel
      cadet.Reducers.Sessions.clear_session_cancel
      cadet.Reducers.Sessions.update_agent_session_sandbox
      cadet.Reducers.Operators.create_auth_challenge cadet.Reducers.Operators.store_operator_ssh_key
      cadet.Reducers.Operators.update_webauthn_counter
      cadet.Reducers.Operators.delete_auth_challenge
      cadet.Reducers.Operators.delete_expired_challenges
      cadet.Reducers.Accounts.upsert_user_agent_config
      cadet.Reducers.Accounts.delete_user_agent_config cadet.Reducers.Accounts.upsert_operator_token
      cadet.Reducers.Accounts.delete_operator_token cadet.Reducers.Accounts.upsert_operator_credits
      cadet.Reducers.Bus.ingest_raw_message cadet.Reducers.Bus.add_message_extraction
      cadet.Reducers.Bus.upsert_message_entity cadet.Reducers.Bus.embed_message
      cadet.Reducers.Bus.link_conversation cadet.Reducers.Bus.set_message_route
      cadet.Reducers.Bus.update_message_status cadet.Reducers.Training.log_trajectory
      cadet.Reducers.Training.record_trajectory_score
      cadet.Reducers.Training.buffer_high_delight_trajectory
      cadet.Reducers.Training.consume_training_buffer cadet.Reducers.Training.record_training_run
      cadet.Reducers.Training.update_training_run_status cadet.Reducers.Chat.upsert_chat_bot_state
      cadet.Reducers.Chat.delete_chat_bot_state cadet.Reducers.Chat.save_chat_message
      cadet.Reducers.Chat.record_user_interaction cadet.Reducers.Sandboxes.create_sandbox
      cadet.Reducers.Sandboxes.update_sandbox_status cadet.Reducers.Sandboxes.delete_sandbox
      cadet.Reducers.Sandboxes.create_sandbox_snapshot cadet.Reducers.Sandboxes.create_checkpoint
      cadet.Reducers.Skills.upsert_agent_skill cadet.Reducers.Skills.delete_agent_skill
      cadet.Reducers.Skills.create_agent_hook cadet.Reducers.Skills.toggle_agent_hook
      cadet.Reducers.Skills.delete_agent_hook cadet.Reducers.Jobs.transition_job
      cadet.Reducers.Runs.update_workflow_run_status cadet.Reducers.Runs.block_linked_step
  perform_any_sender time sender sender' (Call.register_agent x0 x1 x2 x3 x4 x5 x6 x7) db = refl
  perform_any_sender time sender sender' (Call.remember x0 x1 x2) db = refl
  perform_any_sender time sender sender' (Call.enqueue_job x0 x1 x2 x3 x4 x5) db =
      ending-enqueue_job time sender sender' db x0 x1 x2 x3 x4 x5
  perform_any_sender time sender sender' (Call.start_job x0 x1) db = refl
  perform_any_sender time sender sender' (Call.complete_job x0 x1) db = refl
  perform_any_sender time sender sender' (Call.fail_job x0 x1) db = refl
  perform_any_sender time sender sender' (Call.upsert_presence x0 x1 x2 x3) db = refl
  perform_any_sender time sender sender' (Call.register_schedule x0 x1 x2 x3 x4 x5 x6 x7) db = refl
  perform_any_sender time sender sender' (Call.claim_schedule_run x0 x1 x2 x3 x4) db =
      ending-claim_schedule_run time sender sender' db x0 x1 x2 x3 x4
  perform_any_sender time sender sender' (Call.ingest_message x0 x1 x2 x3 x4 x5 x6 x7 x8 x9) db =
      refl
  perform_any_sender time sender sender' (Call.record_delivery_attempt x0 x1 x2 x3 x4 x5 x6 x7 x8)
        db =
      refl
  perform_any_sender time sender sender' (Call.start_workflow_run x0 x1 x2 x3 x4 x5 x6 x7) db = refl
  perform_any_sender time sender sender' (Call.update_run_stage x0 x1) db = refl
  perform_any_sender time sender sender' (Call.update_run_status x0 x1) db = refl
  perform_any_sender time sender sender' (Call.enqueue_workflow_step x0 x1 x2 x3 x4 x5 x6) db = refl
  perform_any_sender time sender sender' (Call.claim_workflow_step x0 x1 x2) db = refl
  perform_any_sender time sender sender' (Call.complete_workflow_step x0 x1) db = refl
  perform_any_sender time sender sender' (Call.fail_workflow_step x0 x1) db = refl
  perform_any_sender time sender sender' (Call.request_approval x0 x1 x2 x3 x4 x5 x6 x7) db = refl
  perform_any_sender time sender sender' (Call.resolve_approval x0 x1 x2) db = refl
  perform_any_sender time sender sender' (Call.enqueue_browser_task x0 x1 x2 x3 x4 x5 x6 x7) db =
      refl
  perform_any_sender time sender sender' (Call.claim_browser_task x0 x1) db = refl
  perform_any_sender time sender sender' (Call.complete_browser_task x0 x1) db = refl
  perform_any_sender time sender sender' (Call.fail_browser_task x0 x1) db = refl
  perform_any_sender time sender sender' (Call.record_browser_artifact x0 x1 x2 x3 x4 x5 x6 x7) db =
      refl
  perform_any_sender time sender sender' (Call.record_tool_call x0 x1 x2 x3 x4 x5 x6 x7) db = refl
  perform_any_sender time sender sender' (Call.upsert_memory_document x0 x1 x2 x3 x4 x5 x6) db =
      refl
  perform_any_sender time sender sender' (Call.upsert_memory_chunk x0 x1 x2 x3 x4 x5 x6) db = refl
  perform_any_sender time sender sender' (Call.upsert_memory_embedding x0 x1 x2 x3 x4 x5 x6 x7) db =
      refl
  perform_any_sender time sender sender' (Call.record_retrieval_trace x0 x1 x2 x3 x4 x5 x6) db =
      refl
  perform_any_sender time sender sender' (Call.append_learning_note x0 x1 x2 x3) db = refl
  perform_any_sender time sender sender' (Call.create_agent_session x0 x1 x2 x3 x4 x5) db = refl
  perform_any_sender time sender sender' (Call.update_agent_session_status x0 x1) db = refl
  perform_any_sender time sender sender' (Call.record_session_turn x0 x1) db = refl
  perform_any_sender time sender sender' (Call.request_session_cancel x0) db = refl
  perform_any_sender time sender sender' (Call.clear_session_cancel x0) db = refl
  perform_any_sender time sender sender' (Call.update_agent_session_sandbox x0 x1) db = refl
  perform_any_sender time sender sender' (Call.create_auth_challenge x0 x1 x2 x3) db = refl
  perform_any_sender time sender sender' (Call.register_operator x0 x1 x2 x3 x4 x5) db =
      ending-register_operator time sender sender' db x0 x1 x2 x3 x4 x5
  perform_any_sender time sender sender' (Call.store_operator_ssh_key x0 x1) db = refl
  perform_any_sender time sender sender' (Call.update_webauthn_counter x0 x1) db = refl
  perform_any_sender time sender sender' (Call.delete_auth_challenge x0) db = refl
  perform_any_sender time sender sender' Call.delete_expired_challenges db = refl
  perform_any_sender time sender sender'
        (Call.upsert_user_agent_config x0 x1 x2 x3 x4 x5 x6 x7 x8 x9) db =
      refl
  perform_any_sender time sender sender' (Call.delete_user_agent_config x0) db = refl
  perform_any_sender time sender sender' (Call.upsert_operator_token x0 x1 x2 x3 x4) db = refl
  perform_any_sender time sender sender' (Call.delete_operator_token x0) db = refl
  perform_any_sender time sender sender' (Call.upsert_operator_credits x0 x1 x2 x3 x4 x5) db = refl
  perform_any_sender time sender sender'
        (Call.ingest_raw_message x0 x1 x2 x3 x4 x5 x6 x7 x8 x9 x10 x11) db =
      refl
  perform_any_sender time sender sender' (Call.add_message_extraction x0 x1 x2 x3 x4 x5 x6) db =
      refl
  perform_any_sender time sender sender'
        (Call.upsert_message_entity x0 x1 x2 x3 x4 x5 x6 x7 x8 x9 x10) db =
      refl
  perform_any_sender time sender sender' (Call.embed_message x0 x1 x2 x3 x4 x5 x6 x7) db = refl
  perform_any_sender time sender sender' (Call.link_conversation x0 x1 x2 x3 x4 x5) db = refl
  perform_any_sender time sender sender' (Call.set_message_route x0 x1 x2 x3 x4 x5 x6) db = refl
  perform_any_sender time sender sender' (Call.update_message_status x0 x1) db = refl
  perform_any_sender time sender sender' (Call.log_trajectory x0 x1 x2 x3 x4 x5 x6 x7 x8 x9 x10)
        db =
      refl
  perform_any_sender time sender sender'
        (Call.record_trajectory_score x0 x1 x2 x3 x4 x5 x6 x7 x8 x9 x10 x11 x12) db =
      refl
  perform_any_sender time sender sender' (Call.buffer_high_delight_trajectory x0 x1 x2 x3 x4) db =
      refl
  perform_any_sender time sender sender' (Call.consume_training_buffer x0) db = refl
  perform_any_sender time sender sender'
        (Call.record_training_run x0 x1 x2 x3 x4 x5 x6 x7 x8 x9 x10) db =
      refl
  perform_any_sender time sender sender' (Call.update_training_run_status x0 x1 x2 x3) db = refl
  perform_any_sender time sender sender' (Call.upsert_chat_bot_state x0 x1 x2 x3) db = refl
  perform_any_sender time sender sender' (Call.delete_chat_bot_state x0) db = refl
  perform_any_sender time sender sender' (Call.save_chat_message x0 x1 x2 x3 x4 x5) db = refl
  perform_any_sender time sender sender' (Call.record_user_interaction x0 x1 x2 x3 x4 x5 x6 x7 x8)
        db =
      refl
  perform_any_sender time sender sender' (Call.create_sandbox x0 x1 x2 x3 x4 x5) db = refl
  perform_any_sender time sender sender' (Call.update_sandbox_status x0 x1 x2) db = refl
  perform_any_sender time sender sender' (Call.delete_sandbox x0) db = refl
  perform_any_sender time sender sender' (Call.create_sandbox_snapshot x0 x1 x2) db = refl
  perform_any_sender time sender sender' (Call.create_checkpoint x0 x1 x2 x3 x4 x5) db = refl
  perform_any_sender time sender sender' (Call.upsert_agent_skill x0 x1 x2 x3 x4 x5 x6 x7 x8 x9)
        db =
      refl
  perform_any_sender time sender sender' (Call.delete_agent_skill x0) db = refl
  perform_any_sender time sender sender' (Call.create_agent_hook x0 x1 x2 x3 x4 x5 x6 x7) db = refl
  perform_any_sender time sender sender' (Call.toggle_agent_hook x0 x1) db = refl
  perform_any_sender time sender sender' (Call.delete_agent_hook x0) db = refl
