-- ===== src/System/Invariant.antt =====
-- The calls of the host, and the invariant.
use cadet.Shared.{refl, List, [], ◌∷◌, Result, ok, err, panicked, Ensures}
use cadet.Store.{Store}
use cadet.Db.{Db, Context}
use cadet.Reducers.Jobs.{complete_job, fail_job}
use cadet.System.{Call, perform, commit, run}
use cadet.Sound.{Sound}
use cadet.Sound.Jobs.{
  register_agent-Sound, remember-Sound, enqueue_job-Sound, start_job-Sound, transition_job-Sound,
  upsert_presence-Sound,
}
use cadet.Sound.Schedules.{register_schedule-Sound, claim_schedule_run-Sound}
use cadet.Sound.Messages.{
  ingest_message-Sound, record_delivery_attempt-Sound, record_tool_call-Sound,
  upsert_memory_document-Sound, upsert_memory_chunk-Sound, upsert_memory_embedding-Sound,
  record_retrieval_trace-Sound, append_learning_note-Sound,
}
use cadet.Sound.Runs.{start_workflow_run-Sound, update_run_stage-Sound, update_run_status-Sound}
use cadet.Sound.Steps.{
  enqueue_workflow_step-Sound, claim_workflow_step-Sound, complete_workflow_step-Sound,
  fail_workflow_step-Sound,
}
use cadet.Sound.Approvals.{request_approval-Sound, resolve_approval-Sound}
use cadet.Sound.Sessions.{
  create_agent_session-Sound, update_agent_session_status-Sound, record_session_turn-Sound,
  request_session_cancel-Sound, clear_session_cancel-Sound, update_agent_session_sandbox-Sound,
}
use cadet.Sound.Browser.{
  enqueue_browser_task-Sound, claim_browser_task-Sound, complete_browser_task-Sound,
  fail_browser_task-Sound, record_browser_artifact-Sound,
}
use cadet.Sound.Operators.{
  create_auth_challenge-Sound, register_operator-Sound, store_operator_ssh_key-Sound,
  update_webauthn_counter-Sound, delete_auth_challenge-Sound, delete_expired_challenges-Sound,
}
use cadet.Sound.Accounts.{
  upsert_user_agent_config-Sound, delete_user_agent_config-Sound, upsert_operator_token-Sound,
  delete_operator_token-Sound, upsert_operator_credits-Sound,
}
use cadet.Sound.Bus.{
  ingest_raw_message-Sound, add_message_extraction-Sound, upsert_message_entity-Sound,
  embed_message-Sound, link_conversation-Sound, set_message_route-Sound,
  update_message_status-Sound,
}
use cadet.Sound.Training.{
  log_trajectory-Sound, record_trajectory_score-Sound, buffer_high_delight_trajectory-Sound,
  consume_training_buffer-Sound, record_training_run-Sound, update_training_run_status-Sound,
}
use cadet.Sound.Chat.{
  upsert_chat_bot_state-Sound, delete_chat_bot_state-Sound, save_chat_message-Sound,
  record_user_interaction-Sound,
}
use cadet.Sound.Sandboxes.{
  create_sandbox-Sound, update_sandbox_status-Sound, delete_sandbox-Sound,
  create_sandbox_snapshot-Sound, create_checkpoint-Sound,
}
use cadet.Sound.Skills.{
  upsert_agent_skill-Sound, delete_agent_skill-Sound, create_agent_hook-Sound,
  toggle_agent_hook-Sound, delete_agent_hook-Sound,
}

module _ ⦃S : Store⦄ (ctx : Context) (db : Db) (h : Sound db) where
  pub perform-Sound : (call : Call) → Ensures Sound (perform ctx call db)
  unfolding perform complete_job fail_job
  perform-Sound (Call.register_agent x0 x1 x2 x3 x4 x5 x6 x7) =
      register_agent-Sound ctx db h x0 x1 x2 x3 x4 x5 x6 x7
  perform-Sound (Call.remember x0 x1 x2) = remember-Sound ctx db h x0 x1 x2
  perform-Sound (Call.enqueue_job x0 x1 x2 x3 x4 x5) = enqueue_job-Sound ctx db h x0 x1 x2 x3 x4 x5
  perform-Sound (Call.start_job x0 x1) = start_job-Sound ctx db h x0 x1
  perform-Sound (Call.complete_job x0 x1) = transition_job-Sound ctx db h _ _ _
  perform-Sound (Call.fail_job x0 x1) = transition_job-Sound ctx db h _ _ _
  perform-Sound (Call.upsert_presence x0 x1 x2 x3) = upsert_presence-Sound ctx db h x0 x1 x2 x3
  perform-Sound (Call.register_schedule x0 x1 x2 x3 x4 x5 x6 x7) =
      register_schedule-Sound ctx db h x0 x1 x2 x3 x4 x5 x6 x7
  perform-Sound (Call.claim_schedule_run x0 x1 x2 x3 x4) =
      claim_schedule_run-Sound ctx db h x0 x1 x2 x3 x4
  perform-Sound (Call.ingest_message x0 x1 x2 x3 x4 x5 x6 x7 x8 x9) =
      ingest_message-Sound ctx db h x0 x1 x2 x3 x4 x5 x6 x7 x8 x9
  perform-Sound (Call.record_delivery_attempt x0 x1 x2 x3 x4 x5 x6 x7 x8) =
      record_delivery_attempt-Sound ctx db h x0 x1 x2 x3 x4 x5 x6 x7 x8
  perform-Sound (Call.start_workflow_run x0 x1 x2 x3 x4 x5 x6 x7) =
      start_workflow_run-Sound ctx db h x0 x1 x2 x3 x4 x5 x6 x7
  perform-Sound (Call.update_run_stage x0 x1) = update_run_stage-Sound ctx db h x0 x1
  perform-Sound (Call.update_run_status x0 x1) = update_run_status-Sound ctx db h x0 x1
  perform-Sound (Call.enqueue_workflow_step x0 x1 x2 x3 x4 x5 x6) =
      enqueue_workflow_step-Sound ctx db h x0 x1 x2 x3 x4 x5 x6
  perform-Sound (Call.claim_workflow_step x0 x1 x2) = claim_workflow_step-Sound ctx db h x0 x1 x2
  perform-Sound (Call.complete_workflow_step x0 x1) = complete_workflow_step-Sound ctx db h x0 x1
  perform-Sound (Call.fail_workflow_step x0 x1) = fail_workflow_step-Sound ctx db h x0 x1
  perform-Sound (Call.request_approval x0 x1 x2 x3 x4 x5 x6 x7) =
      request_approval-Sound ctx db h x0 x1 x2 x3 x4 x5 x6 x7
  perform-Sound (Call.resolve_approval x0 x1 x2) = resolve_approval-Sound ctx db h x0 x1 x2
  perform-Sound (Call.enqueue_browser_task x0 x1 x2 x3 x4 x5 x6 x7) =
      enqueue_browser_task-Sound ctx db h x0 x1 x2 x3 x4 x5 x6 x7
  perform-Sound (Call.claim_browser_task x0 x1) = claim_browser_task-Sound ctx db h x0 x1
  perform-Sound (Call.complete_browser_task x0 x1) = complete_browser_task-Sound ctx db h x0 x1
  perform-Sound (Call.fail_browser_task x0 x1) = fail_browser_task-Sound ctx db h x0 x1
  perform-Sound (Call.record_browser_artifact x0 x1 x2 x3 x4 x5 x6 x7) =
      record_browser_artifact-Sound ctx db h x0 x1 x2 x3 x4 x5 x6 x7
  perform-Sound (Call.record_tool_call x0 x1 x2 x3 x4 x5 x6 x7) =
      record_tool_call-Sound ctx db h x0 x1 x2 x3 x4 x5 x6 x7
  perform-Sound (Call.upsert_memory_document x0 x1 x2 x3 x4 x5 x6) =
      upsert_memory_document-Sound ctx db h x0 x1 x2 x3 x4 x5 x6
  perform-Sound (Call.upsert_memory_chunk x0 x1 x2 x3 x4 x5 x6) =
      upsert_memory_chunk-Sound ctx db h x0 x1 x2 x3 x4 x5 x6
  perform-Sound (Call.upsert_memory_embedding x0 x1 x2 x3 x4 x5 x6 x7) =
      upsert_memory_embedding-Sound ctx db h x0 x1 x2 x3 x4 x5 x6 x7
  perform-Sound (Call.record_retrieval_trace x0 x1 x2 x3 x4 x5 x6) =
      record_retrieval_trace-Sound ctx db h x0 x1 x2 x3 x4 x5 x6
  perform-Sound (Call.append_learning_note x0 x1 x2 x3) =
      append_learning_note-Sound ctx db h x0 x1 x2 x3
  perform-Sound (Call.create_agent_session x0 x1 x2 x3 x4 x5) =
      create_agent_session-Sound ctx db h x0 x1 x2 x3 x4 x5
  perform-Sound (Call.update_agent_session_status x0 x1) =
      update_agent_session_status-Sound ctx db h x0 x1
  perform-Sound (Call.record_session_turn x0 x1) = record_session_turn-Sound ctx db h x0 x1
  perform-Sound (Call.request_session_cancel x0) = request_session_cancel-Sound ctx db h x0
  perform-Sound (Call.clear_session_cancel x0) = clear_session_cancel-Sound ctx db h x0
  perform-Sound (Call.update_agent_session_sandbox x0 x1) =
      update_agent_session_sandbox-Sound ctx db h x0 x1
  perform-Sound (Call.create_auth_challenge x0 x1 x2 x3) =
      create_auth_challenge-Sound ctx db h x0 x1 x2 x3
  perform-Sound (Call.register_operator x0 x1 x2 x3 x4 x5) =
      register_operator-Sound ctx db h x0 x1 x2 x3 x4 x5
  perform-Sound (Call.store_operator_ssh_key x0 x1) = store_operator_ssh_key-Sound ctx db h x0 x1
  perform-Sound (Call.update_webauthn_counter x0 x1) = update_webauthn_counter-Sound ctx db h x0 x1
  perform-Sound (Call.delete_auth_challenge x0) = delete_auth_challenge-Sound ctx db h x0
  perform-Sound Call.delete_expired_challenges = delete_expired_challenges-Sound ctx db h
  perform-Sound (Call.upsert_user_agent_config x0 x1 x2 x3 x4 x5 x6 x7 x8 x9) =
      upsert_user_agent_config-Sound ctx db h x0 x1 x2 x3 x4 x5 x6 x7 x8 x9
  perform-Sound (Call.delete_user_agent_config x0) = delete_user_agent_config-Sound ctx db h x0
  perform-Sound (Call.upsert_operator_token x0 x1 x2 x3 x4) =
      upsert_operator_token-Sound ctx db h x0 x1 x2 x3 x4
  perform-Sound (Call.delete_operator_token x0) = delete_operator_token-Sound ctx db h x0
  perform-Sound (Call.upsert_operator_credits x0 x1 x2 x3 x4 x5) =
      upsert_operator_credits-Sound ctx db h x0 x1 x2 x3 x4 x5
  perform-Sound (Call.ingest_raw_message x0 x1 x2 x3 x4 x5 x6 x7 x8 x9 x10 x11) =
      ingest_raw_message-Sound ctx db h x0 x1 x2 x3 x4 x5 x6 x7 x8 x9 x10 x11
  perform-Sound (Call.add_message_extraction x0 x1 x2 x3 x4 x5 x6) =
      add_message_extraction-Sound ctx db h x0 x1 x2 x3 x4 x5 x6
  perform-Sound (Call.upsert_message_entity x0 x1 x2 x3 x4 x5 x6 x7 x8 x9 x10) =
      upsert_message_entity-Sound ctx db h x0 x1 x2 x3 x4 x5 x6 x7 x8 x9 x10
  perform-Sound (Call.embed_message x0 x1 x2 x3 x4 x5 x6 x7) =
      embed_message-Sound ctx db h x0 x1 x2 x3 x4 x5 x6 x7
  perform-Sound (Call.link_conversation x0 x1 x2 x3 x4 x5) =
      link_conversation-Sound ctx db h x0 x1 x2 x3 x4 x5
  perform-Sound (Call.set_message_route x0 x1 x2 x3 x4 x5 x6) =
      set_message_route-Sound ctx db h x0 x1 x2 x3 x4 x5 x6
  perform-Sound (Call.update_message_status x0 x1) = update_message_status-Sound ctx db h x0 x1
  perform-Sound (Call.log_trajectory x0 x1 x2 x3 x4 x5 x6 x7 x8 x9 x10) =
      log_trajectory-Sound ctx db h x0 x1 x2 x3 x4 x5 x6 x7 x8 x9 x10
  perform-Sound (Call.record_trajectory_score x0 x1 x2 x3 x4 x5 x6 x7 x8 x9 x10 x11 x12) =
      record_trajectory_score-Sound ctx db h x0 x1 x2 x3 x4 x5 x6 x7 x8 x9 x10 x11 x12
  perform-Sound (Call.buffer_high_delight_trajectory x0 x1 x2 x3 x4) =
      buffer_high_delight_trajectory-Sound ctx db h x0 x1 x2 x3 x4
  perform-Sound (Call.consume_training_buffer x0) = consume_training_buffer-Sound ctx db h x0
  perform-Sound (Call.record_training_run x0 x1 x2 x3 x4 x5 x6 x7 x8 x9 x10) =
      record_training_run-Sound ctx db h x0 x1 x2 x3 x4 x5 x6 x7 x8 x9 x10
  perform-Sound (Call.update_training_run_status x0 x1 x2 x3) =
      update_training_run_status-Sound ctx db h x0 x1 x2 x3
  perform-Sound (Call.upsert_chat_bot_state x0 x1 x2 x3) =
      upsert_chat_bot_state-Sound ctx db h x0 x1 x2 x3
  perform-Sound (Call.delete_chat_bot_state x0) = delete_chat_bot_state-Sound ctx db h x0
  perform-Sound (Call.save_chat_message x0 x1 x2 x3 x4 x5) =
      save_chat_message-Sound ctx db h x0 x1 x2 x3 x4 x5
  perform-Sound (Call.record_user_interaction x0 x1 x2 x3 x4 x5 x6 x7 x8) =
      record_user_interaction-Sound ctx db h x0 x1 x2 x3 x4 x5 x6 x7 x8
  perform-Sound (Call.create_sandbox x0 x1 x2 x3 x4 x5) =
      create_sandbox-Sound ctx db h x0 x1 x2 x3 x4 x5
  perform-Sound (Call.update_sandbox_status x0 x1 x2) =
      update_sandbox_status-Sound ctx db h x0 x1 x2
  perform-Sound (Call.delete_sandbox x0) = delete_sandbox-Sound ctx db h x0
  perform-Sound (Call.create_sandbox_snapshot x0 x1 x2) =
      create_sandbox_snapshot-Sound ctx db h x0 x1 x2
  perform-Sound (Call.create_checkpoint x0 x1 x2 x3 x4 x5) =
      create_checkpoint-Sound ctx db h x0 x1 x2 x3 x4 x5
  perform-Sound (Call.upsert_agent_skill x0 x1 x2 x3 x4 x5 x6 x7 x8 x9) =
      upsert_agent_skill-Sound ctx db h x0 x1 x2 x3 x4 x5 x6 x7 x8 x9
  perform-Sound (Call.delete_agent_skill x0) = delete_agent_skill-Sound ctx db h x0
  perform-Sound (Call.create_agent_hook x0 x1 x2 x3 x4 x5 x6 x7) =
      create_agent_hook-Sound ctx db h x0 x1 x2 x3 x4 x5 x6 x7
  perform-Sound (Call.toggle_agent_hook x0 x1) = toggle_agent_hook-Sound ctx db h x0 x1
  perform-Sound (Call.delete_agent_hook x0) = delete_agent_hook-Sound ctx db h x0

module _ ⦃S : Store⦄ where
  commit-Sound : (db : Db) (r : Result Db) → Sound db → Ensures Sound r → Sound (commit db r)
  commit-Sound db (ok after) h e = e.at after refl
  commit-Sound db (err message) h e = h
  commit-Sound db panicked h e = h

  -- From sound tables, whatever calls the host makes, with whatever arguments, at whatever times
  -- and for whatever callers, the tables are sound: every job, schedule and run names an agent
  -- that is there; every message event and run, a thread that is there; every step, approval and
  -- browser task, a run that is there; and every approval and browser task, a step that is there.
  -- These columns hold a word of their enumeration: the runtime, control plane and execution
  -- target of an agent; the priority and status of a job and of a run; the control plane and
  -- status of a runner's presence; the control plane, priority and status of a schedule; the
  -- channel of a thread, and the channel and direction of a message event; the channel, direction
  -- and status of a delivery attempt; the stage, owner and status of a step; the status and risk
  -- of an approval; the status of a tool call; the mode, risk, status and owner of a browser task;
  -- and the kind of a browser artifact. The status of a sandbox, the method and status of a
  -- training run and the source of a trajectory's score are of their fixed lists. No schedule has
  -- interval 0, and no embedding of a memory chunk has dimension 0. No score of a trajectory, its
  -- loss, surprise and delight included, and no delight in the training buffer is below 0 or
  -- above 1.
  pub run-Sound : (calls : List (Context × Call)) (db : Db) → Sound db → Sound (run calls db)
  unfolding run
  run-Sound [] db h = h
  run-Sound ((ctx, call) ∷ calls) db h =
      run-Sound calls (commit db (perform ctx call db))
        (commit-Sound db (perform ctx call db) h (perform-Sound ctx db h call))
