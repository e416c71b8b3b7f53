-- ===== src/Panics/Records.antt =====
-- The reducers of spacetimedb/src/lib.rs for browser tasks, memory and sessions.
use cadet.Shared.{String, Option, ℕ}
use cadet.Store.{Store}
use cadet.Db.{Db, Context}
use cadet.Reducers.Browser.{
  claim_browser_task, complete_browser_task, fail_browser_task, record_browser_artifact,
}
use cadet.Reducers.Sessions.{
  update_agent_session_status, record_session_turn, request_session_cancel, clear_session_cancel,
  update_agent_session_sandbox,
}
use cadet.Reducers.Memory.{
  record_tool_call, upsert_memory_document, upsert_memory_chunk, upsert_memory_embedding,
  record_retrieval_trace, append_learning_note,
}
use cadet.Panics.Rules.{Calm, Calm-bind, calm_checks}
use cadet.Panics.Calls.{Calm-check_option, update_workflow_run_status-Calm, block_linked_step-Calm}

module _ ⦃S : Store⦄ (ctx : Context) (db : Db) where
  pub claim_browser_task-Calm :
      (task_id runner_id : String) → Calm (claim_browser_task ctx task_id runner_id db)
  unfolding claim_browser_task
  claim_browser_task-Calm task_id runner_id = search (Calm-bind, calm_checks) depth 30

  pub complete_browser_task-Calm :
      (task_id result_json : String) → Calm (complete_browser_task ctx task_id result_json db)
  unfolding complete_browser_task
  complete_browser_task-Calm task_id result_json =
      search (Calm-bind, calm_checks, update_workflow_run_status-Calm, block_linked_step-Calm) depth
        30

  pub fail_browser_task-Calm :
      (task_id result_json : String) → Calm (fail_browser_task ctx task_id result_json db)
  unfolding fail_browser_task
  fail_browser_task-Calm task_id result_json =
      search (Calm-bind, calm_checks, update_workflow_run_status-Calm, block_linked_step-Calm) depth
        30

  pub record_browser_artifact-Calm :
      (artifact_id task_id run_id step_id kind title url metadata_json : String)
      → Calm (
          record_browser_artifact ctx artifact_id task_id run_id step_id kind title url
            metadata_json db)
  unfolding record_browser_artifact
  record_browser_artifact-Calm artifact_id task_id run_id step_id kind title url metadata_json =
      search (Calm-bind, calm_checks) depth 30

  pub record_tool_call-Calm :
      (tool_call_id run_id step_id agent_id tool_name status input_json : String)
      (output_json : Option String)
      → Calm (
          record_tool_call ctx tool_call_id run_id step_id agent_id tool_name status input_json
            output_json db)
  unfolding record_tool_call
  record_tool_call-Calm tool_call_id run_id step_id agent_id tool_name status input_json
        output_json =
      search (Calm-bind, calm_checks, Calm-check_option) depth 30

  pub upsert_memory_document-Calm :
      (document_id agent_id namespace source_kind title content metadata_json : String)
      → Calm (
          upsert_memory_document ctx document_id agent_id namespace source_kind title content
            metadata_json db)
  unfolding upsert_memory_document
  upsert_memory_document-Calm document_id agent_id namespace source_kind title content
        metadata_json =
      search (Calm-bind, calm_checks) depth 30

  pub upsert_memory_chunk-Calm :
      (chunk_id document_id agent_id namespace : String) (ordinal : ℕ)
      (content metadata_json : String)
      → Calm (
          upsert_memory_chunk ctx chunk_id document_id agent_id namespace ordinal content
            metadata_json db)
  unfolding upsert_memory_chunk
  upsert_memory_chunk-Calm chunk_id document_id agent_id namespace ordinal content metadata_json =
      search (Calm-bind, calm_checks) depth 30

  pub upsert_memory_embedding-Calm :
      (embedding_id chunk_id agent_id namespace model : String) (dimensions : ℕ)
      (vector_json checksum : String)
      → Calm (
          upsert_memory_embedding ctx embedding_id chunk_id agent_id namespace model dimensions
            vector_json checksum db)
  unfolding upsert_memory_embedding
  upsert_memory_embedding-Calm embedding_id chunk_id agent_id namespace model dimensions vector_json
        checksum =
      search (Calm-bind, calm_checks) depth 30

  pub record_retrieval_trace-Calm :
      (trace_id run_id step_id query_text query_embedding_json chunk_ids_json
        metadata_json : String)
      → Calm (
          record_retrieval_trace ctx trace_id run_id step_id query_text query_embedding_json
            chunk_ids_json metadata_json db)
  unfolding record_retrieval_trace
  record_retrieval_trace-Calm trace_id run_id step_id query_text query_embedding_json chunk_ids_json
        metadata_json =
      search (Calm-bind, calm_checks) depth 30

  pub append_learning_note-Calm :
      (run_id agent_id namespace content : String)
      → Calm (append_learning_note ctx run_id agent_id namespace content db)
  unfolding append_learning_note
  append_learning_note-Calm run_id agent_id namespace content =
      search (Calm-bind, calm_checks) depth 30

  pub update_agent_session_status-Calm :
      (session_id status : String) → Calm (update_agent_session_status ctx session_id status db)
  unfolding update_agent_session_status
  update_agent_session_status-Calm session_id status = search (Calm-bind, calm_checks) depth 30

  pub record_session_turn-Calm :
      (session_id last_prompt : String) → Calm (record_session_turn ctx session_id last_prompt db)
  unfolding record_session_turn
  record_session_turn-Calm session_id last_prompt = search (Calm-bind, calm_checks) depth 30

  pub request_session_cancel-Calm :
      (session_id : String) → Calm (request_session_cancel ctx session_id db)
  unfolding request_session_cancel
  request_session_cancel-Calm session_id = search (Calm-bind, calm_checks) depth 30

  pub clear_session_cancel-Calm :
      (session_id : String) → Calm (clear_session_cancel ctx session_id db)
  unfolding clear_session_cancel
  clear_session_cancel-Calm session_id = search (Calm-bind, calm_checks) depth 30

  pub update_agent_session_sandbox-Calm :
      (session_id sandbox_id : String)
      → Calm (update_agent_session_sandbox ctx session_id sandbox_id db)
  unfolding update_agent_session_sandbox
  update_agent_session_sandbox-Calm session_id sandbox_id = search (Calm-bind, calm_checks) depth 30
