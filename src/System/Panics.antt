-- ===== src/System/Panics.antt =====
-- The calls of the host whose reducer looks before it writes.
use cadet.Shared.{String, ℕ, Option, Bool, ◌≢◌, panicked}
use cadet.Shared.Int.{ℤ}
use cadet.Store.{Store}
use cadet.Db.{Db, Context}
use cadet.System.{Call, perform}
use cadet.Panics.Rules.{Calm}
use cadet.Panics.Calls.{
  register_agent-Calm, remember-Calm, start_job-Calm, complete_job-Calm, fail_job-Calm,
  upsert_presence-Calm, register_schedule-Calm, claim_schedule_run-Calm,
  record_delivery_attempt-Calm, start_workflow_run-Calm, update_run_stage-Calm,
  update_run_status-Calm, enqueue_workflow_step-Calm, claim_workflow_step-Calm,
  complete_workflow_step-Calm, fail_workflow_step-Calm, resolve_approval-Calm,
}
use cadet.Panics.Records.{
  claim_browser_task-Calm, complete_browser_task-Calm, fail_browser_task-Calm,
  record_browser_artifact-Calm, record_tool_call-Calm, upsert_memory_document-Calm,
  upsert_memory_chunk-Calm, upsert_memory_embedding-Calm, record_retrieval_trace-Calm,
  append_learning_note-Calm, update_agent_session_status-Calm, record_session_turn-Calm,
  request_session_cancel-Calm, clear_session_cancel-Calm, update_agent_session_sandbox-Calm,
}
use cadet.Panics.Platform.{
  store_operator_ssh_key-Calm, update_webauthn_counter-Calm, delete_auth_challenge-Calm,
  delete_expired_challenges-Calm, upsert_user_agent_config-Calm, delete_user_agent_config-Calm,
  upsert_operator_token-Calm, delete_operator_token-Calm, upsert_operator_credits-Calm,
  upsert_message_entity-Calm, set_message_route-Calm, update_message_status-Calm,
  consume_training_buffer-Calm, update_training_run_status-Calm, upsert_chat_bot_state-Calm,
  delete_chat_bot_state-Calm, update_sandbox_status-Calm, delete_sandbox-Calm,
  upsert_agent_skill-Calm, delete_agent_skill-Calm, toggle_agent_hook-Calm, delete_agent_hook-Calm,
}

module _ ⦃S : Store⦄ where
  -- The reducer of the call looks before it inserts or updates.
  pub data Checks : Call → Type 0 where
    register_agent :
        {x0 x1 x2 x3 x4 x5 x6 x7 : String} → Checks (Call.register_agent x0 x1 x2 x3 x4 x5 x6 x7)
    remember : {x0 x1 x2 : String} → Checks (Call.remember x0 x1 x2)
    start_job : {x0 x1 : String} → Checks (Call.start_job x0 x1)
    complete_job : {x0 x1 : String} → Checks (Call.complete_job x0 x1)
    fail_job : {x0 x1 : String} → Checks (Call.fail_job x0 x1)
    upsert_presence : {x0 x1 x2 x3 : String} → Checks (Call.upsert_presence x0 x1 x2 x3)
    register_schedule :
        {x0 x1 x2 x3 : String} {x4 : ℕ} {x5 x6 : String} {x7 : Bool}
        → Checks (Call.register_schedule x0 x1 x2 x3 x4 x5 x6 x7)
    claim_schedule_run :
        {x0 x1 : String} {x2 : ℤ} {x3 x4 : String} → Checks (Call.claim_schedule_run x0 x1 x2 x3 x4)
    record_delivery_attempt :
        {x0 x1 : String} {x2 : Option String} {x3 x4 x5 x6 x7 : String} {x8 : Option String}
        → Checks (Call.record_delivery_attempt x0 x1 x2 x3 x4 x5 x6 x7 x8)
    start_workflow_run :
        {x0 x1 x2 x3 x4 x5 x6 x7 : String}
        → Checks (Call.start_workflow_run x0 x1 x2 x3 x4 x5 x6 x7)
    update_run_stage : {x0 x1 : String} → Checks (Call.update_run_stage x0 x1)
    update_run_status : {x0 x1 : String} → Checks (Call.update_run_status x0 x1)
    enqueue_workflow_step :
        {x0 x1 x2 x3 x4 x5 : String} {x6 : Option String}
        → Checks (Call.enqueue_workflow_step x0 x1 x2 x3 x4 x5 x6)
    claim_workflow_step : {x0 x1 x2 : String} → Checks (Call.claim_workflow_step x0 x1 x2)
    complete_workflow_step : {x0 x1 : String} → Checks (Call.complete_workflow_step x0 x1)
    fail_workflow_step : {x0 x1 : String} → Checks (Call.fail_workflow_step x0 x1)
    resolve_approval : {x0 x1 x2 : String} → Checks (Call.resolve_approval x0 x1 x2)
    claim_browser_task : {x0 x1 : String} → Checks (Call.claim_browser_task x0 x1)
    complete_browser_task : {x0 x1 : String} → Checks (Call.complete_browser_task x0 x1)
    fail_browser_task : {x0 x1 : String} → Checks (Call.fail_browser_task x0 x1)
    record_browser_artifact :
        {x0 x1 x2 x3 x4 x5 x6 x7 : String}
        → Checks (Call.record_browser_artifact x0 x1 x2 x3 x4 x5 x6 x7)
    record_tool_call :
        {x0 x1 x2 x3 x4 x5 x6 : String} {x7 : Option String}
        → Checks (Call.record_tool_call x0 x1 x2 x3 x4 x5 x6 x7)
    upsert_memory_document :
        {x0 x1 x2 x3 x4 x5 x6 : String} → Checks (Call.upsert_memory_document x0 x1 x2 x3 x4 x5 x6)
    upsert_memory_chunk :
        {x0 x1 x2 x3 : String} {x4 : ℕ} {x5 x6 : String}
        → Checks (Call.upsert_memory_chunk x0 x1 x2 x3 x4 x5 x6)
    upsert_memory_embedding :
        {x0 x1 x2 x3 x4 : String} {x5 : ℕ} {x6 x7 : String}
        → Checks (Call.upsert_memory_embedding x0 x1 x2 x3 x4 x5 x6 x7)
    record_retrieval_trace :
        {x0 x1 x2 x3 x4 x5 x6 : String} → Checks (Call.record_retrieval_trace x0 x1 x2 x3 x4 x5 x6)
    append_learning_note : {x0 x1 x2 x3 : String} → Checks (Call.append_learning_note x0 x1 x2 x3)
    update_agent_session_status : {x0 x1 : String} → Checks (Call.update_agent_session_status x0 x1)
    record_session_turn : {x0 x1 : String} → Checks (Call.record_session_turn x0 x1)
    request_session_cancel : {x0 : String} → Checks (Call.request_session_cancel x0)
    clear_session_cancel : {x0 : String} → Checks (Call.clear_session_cancel x0)
    update_agent_session_sandbox :
        {x0 x1 : String} → Checks (Call.update_agent_session_sandbox x0 x1)
    store_operator_ssh_key : {x0 x1 : String} → Checks (Call.store_operator_ssh_key x0 x1)
    update_webauthn_counter : {x0 : String} {x1 : ℕ} → Checks (Call.update_webauthn_counter x0 x1)
    delete_auth_challenge : {x0 : String} → Checks (Call.delete_auth_challenge x0)
    delete_expired_challenges : Checks Call.delete_expired_challenges
    upsert_user_agent_config :
        {x0 x1 x2 x3 x4 x5 x6 x7 x8 x9 : String}
        → Checks (Call.upsert_user_agent_config x0 x1 x2 x3 x4 x5 x6 x7 x8 x9)
    delete_user_agent_config : {x0 : String} → Checks (Call.delete_user_agent_config x0)
    upsert_operator_token :
        {x0 x1 x2 x3 : String} {x4 : ℤ} → Checks (Call.upsert_operator_token x0 x1 x2 x3 x4)
    delete_operator_token : {x0 : String} → Checks (Call.delete_operator_token x0)
    upsert_operator_credits :
        {x0 x1 : String} {x2 x3 x4 : S.f64.Carrier} {x5 : String}
        → Checks (Call.upsert_operator_credits x0 x1 x2 x3 x4 x5)
    upsert_message_entity :
        {x0 x1 x2 : String} {x3 x4 x5 x6 x7 x8 x9 : Option String} {x10 : String}
        → Checks (Call.upsert_message_entity x0 x1 x2 x3 x4 x5 x6 x7 x8 x9 x10)
    set_message_route :
        {x0 x1 x2 x3 x4 : String} {x5 : ℕ} {x6 : Bool}
        → Checks (Call.set_message_route x0 x1 x2 x3 x4 x5 x6)
    update_message_status : {x0 x1 : String} → Checks (Call.update_message_status x0 x1)
    consume_training_buffer : {x0 : String} → Checks (Call.consume_training_buffer x0)
    update_training_run_status :
        {x0 x1 : String} {x2 : S.f32.Carrier} {x3 : ℕ}
        → Checks (Call.update_training_run_status x0 x1 x2 x3)
    upsert_chat_bot_state :
        {x0 x1 x2 : String} {x3 : ℤ} → Checks (Call.upsert_chat_bot_state x0 x1 x2 x3)
    delete_chat_bot_state : {x0 : String} → Checks (Call.delete_chat_bot_state x0)
    update_sandbox_status : {x0 x1 x2 : String} → Checks (Call.update_sandbox_status x0 x1 x2)
    delete_sandbox : {x0 : String} → Checks (Call.delete_sandbox x0)
    upsert_agent_skill :
        {x0 x1 x2 x3 x4 x5 : String} {x6 : ℕ} {x7 x8 x9 : String}
        → Checks (Call.upsert_agent_skill x0 x1 x2 x3 x4 x5 x6 x7 x8 x9)
    delete_agent_skill : {x0 : String} → Checks (Call.delete_agent_skill x0)
    toggle_agent_hook : {x0 : String} {x1 : Bool} → Checks (Call.toggle_agent_hook x0 x1)
    delete_agent_hook : {x0 : String} → Checks (Call.delete_agent_hook x0)

module _ ⦃S : Store⦄ (ctx : Context) (db : Db) where
  perform-Calm : (call : Call) → Checks call → Calm (perform ctx call db)
  unfolding perform
  perform-Calm (Call.register_agent x0 x1 x2 x3 x4 x5 x6 x7) c =
      register_agent-Calm ctx db x0 x1 x2 x3 x4 x5 x6 x7
  perform-Calm (Call.remember x0 x1 x2) c = remember-Calm ctx db x0 x1 x2
  perform-Calm (Call.start_job x0 x1) c = start_job-Calm ctx db x0 x1
  perform-Calm (Call.complete_job x0 x1) c = complete_job-Calm ctx db x0 x1
  perform-Calm (Call.fail_job x0 x1) c = fail_job-Calm ctx db x0 x1
  perform-Calm (Call.upsert_presence x0 x1 x2 x3) c = upsert_presence-Calm ctx db x0 x1 x2 x3
  perform-Calm (Call.register_schedule x0 x1 x2 x3 x4 x5 x6 x7) c =
      register_schedule-Calm ctx db x0 x1 x2 x3 x4 x5 x6 x7
  perform-Calm (Call.claim_schedule_run x0 x1 x2 x3 x4) c =
      claim_schedule_run-Calm ctx db x0 x1 x2 x3 x4
  perform-Calm (Call.record_delivery_attempt x0 x1 x2 x3 x4 x5 x6 x7 x8) c =
      record_delivery_attempt-Calm ctx db x0 x1 x2 x3 x4 x5 x6 x7 x8
  perform-Calm (Call.start_workflow_run x0 x1 x2 x3 x4 x5 x6 x7) c =
      start_workflow_run-Calm ctx db x0 x1 x2 x3 x4 x5 x6 x7
  perform-Calm (Call.update_run_stage x0 x1) c = update_run_stage-Calm ctx db x0 x1
  perform-Calm (Call.update_run_status x0 x1) c = update_run_status-Calm ctx db x0 x1
  perform-Calm (Call.enqueue_workflow_step x0 x1 x2 x3 x4 x5 x6) c =
      enqueue_workflow_step-Calm ctx db x0 x1 x2 x3 x4 x5 x6
  perform-Calm (Call.claim_workflow_step x0 x1 x2) c = claim_workflow_step-Calm ctx db x0 x1 x2
  perform-Calm (Call.complete_workflow_step x0 x1) c = complete_workflow_step-Calm ctx db x0 x1
  perform-Calm (Call.fail_workflow_step x0 x1) c = fail_workflow_step-Calm ctx db x0 x1
  perform-Calm (Call.resolve_approval x0 x1 x2) c = resolve_approval-Calm ctx db x0 x1 x2
  perform-Calm (Call.claim_browser_task x0 x1) c = claim_browser_task-Calm ctx db x0 x1
  perform-Calm (Call.complete_browser_task x0 x1) c = complete_browser_task-Calm ctx db x0 x1
  perform-Calm (Call.fail_browser_task x0 x1) c = fail_browser_task-Calm ctx db x0 x1
  perform-Calm (Call.record_browser_artifact x0 x1 x2 x3 x4 x5 x6 x7) c =
      record_browser_artifact-Calm ctx db x0 x1 x2 x3 x4 x5 x6 x7
  perform-Calm (Call.record_tool_call x0 x1 x2 x3 x4 x5 x6 x7) c =
      record_tool_call-Calm ctx db x0 x1 x2 x3 x4 x5 x6 x7
  perform-Calm (Call.upsert_memory_document x0 x1 x2 x3 x4 x5 x6) c =
      upsert_memory_document-Calm ctx db x0 x1 x2 x3 x4 x5 x6
  perform-Calm (Call.upsert_memory_chunk x0 x1 x2 x3 x4 x5 x6) c =
      upsert_memory_chunk-Calm ctx db x0 x1 x2 x3 x4 x5 x6
  perform-Calm (Call.upsert_memory_embedding x0 x1 x2 x3 x4 x5 x6 x7) c =
      upsert_memory_embedding-Calm ctx db x0 x1 x2 x3 x4 x5 x6 x7
  perform-Calm (Call.record_retrieval_trace x0 x1 x2 x3 x4 x5 x6) c =
      record_retrieval_trace-Calm ctx db x0 x1 x2 x3 x4 x5 x6
  perform-Calm (Call.append_learning_note x0 x1 x2 x3) c =
      append_learning_note-Calm ctx db x0 x1 x2 x3
  perform-Calm (Call.enqueue_job x0 x1 x2 x3 x4 x5) c = elim c [ ]
  perform-Calm (Call.ingest_message x0 x1 x2 x3 x4 x5 x6 x7 x8 x9) c = elim c [ ]
  perform-Calm (Call.request_approval x0 x1 x2 x3 x4 x5 x6 x7) c = elim c [ ]
  perform-Calm (Call.enqueue_browser_task x0 x1 x2 x3 x4 x5 x6 x7) c = elim c [ ]
  perform-Calm (Call.update_agent_session_status x0 x1) c =
      update_agent_session_status-Calm ctx db x0 x1
  perform-Calm (Call.record_session_turn x0 x1) c = record_session_turn-Calm ctx db x0 x1
  perform-Calm (Call.request_session_cancel x0) c = request_session_cancel-Calm ctx db x0
  perform-Calm (Call.clear_session_cancel x0) c = clear_session_cancel-Calm ctx db x0
  perform-Calm (Call.update_agent_session_sandbox x0 x1) c =
      update_agent_session_sandbox-Calm ctx db x0 x1
  perform-Calm (Call.create_agent_session x0 x1 x2 x3 x4 x5) c = elim c [ ]
  perform-Calm (Call.create_auth_challenge x0 x1 x2 x3) c = elim c [ ]
  perform-Calm (Call.register_operator x0 x1 x2 x3 x4 x5) c = elim c [ ]
  perform-Calm (Call.store_operator_ssh_key x0 x1) c = store_operator_ssh_key-Calm ctx db x0 x1
  perform-Calm (Call.update_webauthn_counter x0 x1) c = update_webauthn_counter-Calm ctx db x0 x1
  perform-Calm (Call.delete_auth_challenge x0) c = delete_auth_challenge-Calm ctx db x0
  perform-Calm Call.delete_expired_challenges c = delete_expired_challenges-Calm ctx db
  perform-Calm (Call.upsert_user_agent_config x0 x1 x2 x3 x4 x5 x6 x7 x8 x9) c =
      upsert_user_agent_config-Calm ctx db x0 x1 x2 x3 x4 x5 x6 x7 x8 x9
  perform-Calm (Call.delete_user_agent_config x0) c = delete_user_agent_config-Calm ctx db x0
  perform-Calm (Call.upsert_operator_token x0 x1 x2 x3 x4) c =
      upsert_operator_token-Calm ctx db x0 x1 x2 x3 x4
  perform-Calm (Call.delete_operator_token x0) c = delete_operator_token-Calm ctx db x0
  perform-Calm (Call.upsert_operator_credits x0 x1 x2 x3 x4 x5) c =
      upsert_operator_credits-Calm ctx db x0 x1 x2 x3 x4 x5
  perform-Calm (Call.ingest_raw_message x0 x1 x2 x3 x4 x5 x6 x7 x8 x9 x10 x11) c = elim c [ ]
  perform-Calm (Call.add_message_extraction x0 x1 x2 x3 x4 x5 x6) c = elim c [ ]
  perform-Calm (Call.upsert_message_entity x0 x1 x2 x3 x4 x5 x6 x7 x8 x9 x10) c =
      upsert_message_entity-Calm ctx db x0 x1 x2 x3 x4 x5 x6 x7 x8 x9 x10
  perform-Calm (Call.embed_message x0 x1 x2 x3 x4 x5 x6 x7) c = elim c [ ]
  perform-Calm (Call.link_conversation x0 x1 x2 x3 x4 x5) c = elim c [ ]
  perform-Calm (Call.set_message_route x0 x1 x2 x3 x4 x5 x6) c =
      set_message_route-Calm ctx db x0 x1 x2 x3 x4 x5 x6
  perform-Calm (Call.update_message_status x0 x1) c = update_message_status-Calm ctx db x0 x1
  perform-Calm (Call.log_trajectory x0 x1 x2 x3 x4 x5 x6 x7 x8 x9 x10) c = elim c [ ]
  perform-Calm (Call.record_trajectory_score x0 x1 x2 x3 x4 x5 x6 x7 x8 x9 x10 x11 x12) c =
      elim c [ ]
  perform-Calm (Call.buffer_high_delight_trajectory x0 x1 x2 x3 x4) c = elim c [ ]
  perform-Calm (Call.consume_training_buffer x0) c = consume_training_buffer-Calm ctx db x0
  perform-Calm (Call.record_training_run x0 x1 x2 x3 x4 x5 x6 x7 x8 x9 x10) c = elim c [ ]
  perform-Calm (Call.update_training_run_status x0 x1 x2 x3) c =
      update_training_run_status-Calm ctx db x0 x1 x2 x3
  perform-Calm (Call.upsert_chat_bot_state x0 x1 x2 x3) c =
      upsert_chat_bot_state-Calm ctx db x0 x1 x2 x3
  perform-Calm (Call.delete_chat_bot_state x0) c = delete_chat_bot_state-Calm ctx db x0
  perform-Calm (Call.save_chat_message x0 x1 x2 x3 x4 x5) c = elim c [ ]
  perform-Calm (Call.record_user_interaction x0 x1 x2 x3 x4 x5 x6 x7 x8) c = elim c [ ]
  perform-Calm (Call.create_sandbox x0 x1 x2 x3 x4 x5) c = elim c [ ]
  perform-Calm (Call.update_sandbox_status x0 x1 x2) c = update_sandbox_status-Calm ctx db x0 x1 x2
  perform-Calm (Call.delete_sandbox x0) c = delete_sandbox-Calm ctx db x0
  perform-Calm (Call.create_sandbox_snapshot x0 x1 x2) c = elim c [ ]
  perform-Calm (Call.create_checkpoint x0 x1 x2 x3 x4 x5) c = elim c [ ]
  perform-Calm (Call.upsert_agent_skill x0 x1 x2 x3 x4 x5 x6 x7 x8 x9) c =
      upsert_agent_skill-Calm ctx db x0 x1 x2 x3 x4 x5 x6 x7 x8 x9
  perform-Calm (Call.delete_agent_skill x0) c = delete_agent_skill-Calm ctx db x0
  perform-Calm (Call.create_agent_hook x0 x1 x2 x3 x4 x5 x6 x7) c = elim c [ ]
  perform-Calm (Call.toggle_agent_hook x0 x1) c = toggle_agent_hook-Calm ctx db x0 x1
  perform-Calm (Call.delete_agent_hook x0) c = delete_agent_hook-Calm ctx db x0

  -- No call of a reducer that looks first panics, whatever its arguments and whatever the tables
  -- hold, sound or not. These are all but `enqueue_job`, `ingest_message`, `request_approval`,
  -- `enqueue_browser_task`, `create_agent_session`, `create_auth_challenge`,
  -- `register_operator`, `ingest_raw_message`, `add_message_extraction`, `embed_message`,
  -- `link_conversation`, `log_trajectory`, `record_trajectory_score`,
  -- `buffer_high_delight_trajectory`, `record_training_run`, `save_chat_message`,
  -- `record_user_interaction`, `create_sandbox`, `create_sandbox_snapshot`, `create_checkpoint`
  -- and `create_agent_hook`, which insert a row without a look for its key.
  pub perform_never_panics : (call : Call) → Checks call → perform ctx call db ≢ panicked
  perform_never_panics call c = (perform-Calm call c).at
