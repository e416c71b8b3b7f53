-- ===== src/System/Calls.antt =====
-- The calls of the reducers of spacetimedb/src/lib.rs.
use cadet.Shared.{String, ℕ, Bool, Option}
use cadet.Shared.Int.{ℤ}
use cadet.Store.{Store}

module _ ⦃S : Store⦄ where
  -- A constructor for each `#[reducer]`, with its arguments.
  pub data Call : Type 0 where
    register_agent : String → String → String → String → String → String → String → String → Call
    remember : String → String → String → Call
    enqueue_job : String → String → String → String → String → String → Call
    start_job : String → String → Call
    complete_job : String → String → Call
    fail_job : String → String → Call
    upsert_presence : String → String → String → String → Call
    register_schedule : String → String → String → String → ℕ → String → String → Bool → Call
    claim_schedule_run : String → String → ℤ → String → String → Call
    ingest_message :
        String
        → String
        → String
        → String
        → String
        → Option String
        → String
        → String
        → String
        → String
        → Call
    record_delivery_attempt :
        String
        → String
        → Option String
        → String
        → String
        → String
        → String
        → String
        → Option String
        → Call
    start_workflow_run :
        String → String → String → String → String → String → String → String → Call
    update_run_stage : String → String → Call
    update_run_status : String → String → Call
    enqueue_workflow_step :
        String → String → String → String → String → String → Option String → Call
    claim_workflow_step : String → String → String → Call
    complete_workflow_step : String → String → Call
    fail_workflow_step : String → String → Call
    request_approval : String → String → String → String → String → String → String → String → Call
    resolve_approval : String → String → String → Call
    enqueue_browser_task :
        String → String → String → String → String → String → String → String → Call
    claim_browser_task : String → String → Call
    complete_browser_task : String → String → Call
    fail_browser_task : String → String → Call
    record_browser_artifact :
        String → String → String → String → String → String → String → String → Call
    record_tool_call :
        String → String → String → String → String → String → String → Option String → Call
    upsert_memory_document : String → String → String → String → String → String → String → Call
    upsert_memory_chunk : String → String → String → String → ℕ → String → String → Call
    upsert_memory_embedding :
        String → String → String → String → String → ℕ → String → String → Call
    record_retrieval_trace : String → String → String → String → String → String → String → Call
    append_learning_note : String → String → String → String → Call
    create_agent_session : String → String → String → String → String → String → Call
    update_agent_session_status : String → String → Call
    record_session_turn : String → String → Call
    request_session_cancel : String → Call
    clear_session_cancel : String → Call
    update_agent_session_sandbox : String → String → Call
    create_auth_challenge : String → String → Option String → ℤ → Call
    register_operator : String → String → String → String → String → String → Call
    store_operator_ssh_key : String → String → Call
    update_webauthn_counter : String → ℕ → Call
    delete_auth_challenge : String → Call
    delete_expired_challenges : Call
    upsert_user_agent_config :
        String
        → String
        → String
        → String
        → String
        → String
        → String
        → String
        → String
        → String
        → Call
    delete_user_agent_config : String → Call
    upsert_operator_token : String → String → String → String → ℤ → Call
    delete_operator_token : String → Call
    upsert_operator_credits :
        String → String → S.f64.Carrier → S.f64.Carrier → S.f64.Carrier → String → Call
    ingest_raw_message :
        String
        → String
        → String
        → String
        → Option String
        → Option String
        → Option String
        → String
        → String
        → String
        → Option String
        → Option String
        → Call
    add_message_extraction :
        String → String → String → String → String → S.f64.Carrier → String → Call
    upsert_message_entity :
        String
        → String
        → String
        → Option String
        → Option String
        → Option String
        → Option String
        → Option String
        → Option String
        → Option String
        → String
        → Call
    embed_message :
        String → String → Option String → Option String → String → ℕ → String → String → Call
    link_conversation : String → String → String → Option String → String → Option String → Call
    set_message_route : String → String → String → String → String → ℕ → Bool → Call
    update_message_status : String → String → Call
    log_trajectory :
        String
        → String
        → String
        → String
        → String
        → String
        → String
        → String
        → String
        → Bool
        → ℕ
        → Call
    record_trajectory_score :
        String
        → String
        → String
        → S.f32.Carrier
        → S.f32.Carrier
        → S.f32.Carrier
        → S.f32.Carrier
        → S.f32.Carrier
        → S.f32.Carrier
        → String
        → String
        → String
        → String
        → Call
    buffer_high_delight_trajectory : String → String → String → S.f32.Carrier → String → Call
    consume_training_buffer : String → Call
    record_training_run :
        String
        → String
        → String
        → String
        → ℕ
        → ℕ
        → ℕ
        → S.f32.Carrier
        → S.f32.Carrier
        → ℕ
        → String
        → Call
    update_training_run_status : String → String → S.f32.Carrier → ℕ → Call
    upsert_chat_bot_state : String → String → String → ℤ → Call
    delete_chat_bot_state : String → Call
    save_chat_message : String → String → String → String → String → String → Call
    record_user_interaction :
        String → String → String → String → String → String → String → String → String → Call
    create_sandbox : String → String → String → String → String → String → Call
    update_sandbox_status : String → String → String → Call
    delete_sandbox : String → Call
    create_sandbox_snapshot : String → String → String → Call
    create_checkpoint : String → String → String → String → String → ℕ → Call
    upsert_agent_skill :
        String → String → String → String → String → String → ℕ → String → String → String → Call
    delete_agent_skill : String → Call
    create_agent_hook : String → String → String → String → String → Bool → ℕ → String → Call
    toggle_agent_hook : String → Bool → Call
    delete_agent_hook : String → Call
