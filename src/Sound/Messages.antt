-- ===== src/Sound/Messages.antt =====
-- The reducers of spacetimedb/src/lib.rs for messages, deliveries, memory and tool calls, and the invariant.
use cadet.Shared.{
  String, ℕ, Option, Ensures, Ensures-ok, Ensures-bind, refuse_if-eq-ok, Option-cases, inl, inr,
}
use cadet.Store.{Store}
use cadet.Store.Tables.{insert-Wrote, update-Wrote, upsert-Wrote, Wrote-Present}
use cadet.Validate.Kinds.{
  validate_channel-IsWord, validate_direction-IsWord, validate_delivery_status-IsWord,
  validate_tool_call_status-IsWord,
}
use cadet.Db.{Db, Context}
use cadet.Reducers.Messages.{ingest_message, record_delivery_attempt}
use cadet.Reducers.Memory.{
  record_tool_call, upsert_memory_document, upsert_memory_chunk, upsert_memory_embedding,
  record_retrieval_trace, append_learning_note,
}
use cadet.Sound.{Sound}
use cadet.Sound.Links.{threads-Linked, events-Linked}
use cadet.Sound.Words.{
  threads-Worded, events-Worded, deliveries-Worded, tool_calls-Worded, embeddings-Worded,
}
use cadet.Sound.Schedules.{positive}

module _ ⦃S : Store⦄ (ctx : Context) (db : Db) (h : Sound db) where
  pub ingest_message-Sound :
      (thread_id channel channel_thread_id title event_id : String) (run_id : Option String)
      (direction actor content metadata_json : String)
      → Ensures Sound (
          ingest_message ctx thread_id channel channel_thread_id title event_id run_id direction
            actor content metadata_json db)
  unfolding ingest_message
  ingest_message-Sound thread_id channel channel_thread_id title event_id run_id direction actor
        content metadata_json =
      Ensures-bind λ thread_id _. Ensures-bind λ channel c. Ensures-bind λ channel_thread_id _.
        Ensures-bind λ title _. Ensures-bind λ event_id _. Ensures-bind λ direction d.
          Ensures-bind λ actor _. Ensures-bind λ content _. Ensures-bind λ metadata_json _.
            Ensures-bind λ threads wrote. Ensures-bind λ events written.
              let channel_word = validate_channel-IsWord _ c in
              let direction_word = validate_direction-IsWord _ d in
              Ensures-ok (elim (Option-cases (S.find db.thread_record thread_id)) [
                | inl missing ↦
                    let write = insert-Wrote (rw missing at wrote) in
                    record {
                      links =
                          events-Linked (threads-Linked h.links write) (insert-Wrote written)
                            (Wrote-Present write);
                      words =
                          events-Worded (threads-Worded h.words write channel_word)
                            (insert-Wrote written) (channel_word, direction_word);
                    }
                | inr (old, present) ↦
                    let write = update-Wrote (rw present at wrote) in
                    record {
                      links =
                          events-Linked (threads-Linked h.links write) (insert-Wrote written)
                            (rw (S.find-key _ _ _ present) at (Wrote-Present write));
                      words =
                          events-Worded (threads-Worded h.words write channel_word)
                            (insert-Wrote written) (channel_word, direction_word);
                    }
              ])

  pub record_delivery_attempt-Sound :
      (attempt_id thread_id : String) (run_id : Option String)
      (channel direction status target payload_json : String) (response_json : Option String)
      → Ensures Sound (
          record_delivery_attempt ctx attempt_id thread_id run_id channel direction status target
            payload_json response_json db)
  unfolding record_delivery_attempt
  record_delivery_attempt-Sound attempt_id thread_id run_id channel direction status target
        payload_json response_json =
      Ensures-bind λ attempt_id _. Ensures-bind λ thread_id _. Ensures-bind λ channel c.
        Ensures-bind λ direction d. Ensures-bind λ status s. Ensures-bind λ target _.
          Ensures-bind λ payload_json _. Ensures-bind λ response_json _.
            Ensures-bind λ attempts wrote. Ensures-ok (record {
              links = assumption h;
              words = deliveries-Worded h.words (upsert-Wrote wrote) (
                validate_channel-IsWord _ c,
                validate_direction-IsWord _ d,
                validate_delivery_status-IsWord _ s,
              );
            })

  pub record_tool_call-Sound :
      (tool_call_id run_id step_id agent_id tool_name status input_json : String)
      (output_json : Option String)
      → Ensures Sound (
          record_tool_call ctx tool_call_id run_id step_id agent_id tool_name status input_json
            output_json db)
  unfolding record_tool_call
  record_tool_call-Sound tool_call_id run_id step_id agent_id tool_name status input_json
        output_json =
      Ensures-bind λ tool_call_id _. Ensures-bind λ run_id _. Ensures-bind λ step_id _.
        Ensures-bind λ agent_id _. Ensures-bind λ tool_name _. Ensures-bind λ status s.
          Ensures-bind λ input_json _. Ensures-bind λ output_json _. Ensures-bind λ calls wrote.
            Ensures-ok (record {
              links = assumption h;
              words =
                  tool_calls-Worded h.words (upsert-Wrote wrote)
                    (validate_tool_call_status-IsWord _ s);
            })

  pub upsert_memory_document-Sound :
      (document_id agent_id namespace source_kind title content metadata_json : String)
      → Ensures Sound (
          upsert_memory_document ctx document_id agent_id namespace source_kind title content
            metadata_json db)
  unfolding upsert_memory_document
  upsert_memory_document-Sound document_id agent_id namespace source_kind title content
        metadata_json =
      Ensures-bind λ document_id _. Ensures-bind λ agent_id _. Ensures-bind λ namespace _.
        Ensures-bind λ source_kind _. Ensures-bind λ title _. Ensures-bind λ content _.
          Ensures-bind λ metadata_json _.
            Ensures-bind
              λ documents _. Ensures-ok (record { links = assumption h; words = assumption h })

  pub upsert_memory_chunk-Sound :
      (chunk_id document_id agent_id namespace : String) (ordinal : ℕ)
      (content metadata_json : String)
      → Ensures Sound (
          upsert_memory_chunk ctx chunk_id document_id agent_id namespace ordinal content
            metadata_json db)
  unfolding upsert_memory_chunk
  upsert_memory_chunk-Sound chunk_id document_id agent_id namespace ordinal content metadata_json =
      Ensures-bind λ chunk_id _. Ensures-bind λ document_id _. Ensures-bind λ agent_id _.
        Ensures-bind λ namespace _. Ensures-bind λ content _. Ensures-bind λ metadata_json _.
          Ensures-bind
            λ chunks _. Ensures-ok (record { links = assumption h; words = assumption h })

  pub upsert_memory_embedding-Sound :
      (embedding_id chunk_id agent_id namespace model : String) (dimensions : ℕ)
      (vector_json checksum : String)
      → Ensures Sound (
          upsert_memory_embedding ctx embedding_id chunk_id agent_id namespace model dimensions
            vector_json checksum db)
  unfolding upsert_memory_embedding
  upsert_memory_embedding-Sound embedding_id chunk_id agent_id namespace model dimensions
        vector_json checksum =
      Ensures-bind λ embedding_id _. Ensures-bind λ chunk_id _. Ensures-bind λ agent_id _.
        Ensures-bind λ namespace _. Ensures-bind λ model _. Ensures-bind λ _ some_dimensions.
          Ensures-bind λ vector_json _. Ensures-bind λ checksum _. Ensures-bind λ embeddings wrote.
            Ensures-ok (record {
              links = assumption h;
              words =
                  embeddings-Worded h.words (upsert-Wrote wrote)
                    (positive dimensions (refuse_if-eq-ok _ _ some_dimensions));
            })

  pub record_retrieval_trace-Sound :
      (trace_id run_id step_id query_text query_embedding_json chunk_ids_json
        metadata_json : String)
      → Ensures Sound (
          record_retrieval_trace ctx trace_id run_id step_id query_text query_embedding_json
            chunk_ids_json metadata_json db)
  unfolding record_retrieval_trace
  record_retrieval_trace-Sound trace_id run_id step_id query_text query_embedding_json
        chunk_ids_json metadata_json =
      Ensures-bind λ trace_id _. Ensures-bind λ run_id _. Ensures-bind λ step_id _.
        Ensures-bind λ query_text _. Ensures-bind λ query_embedding_json _.
          Ensures-bind λ chunk_ids_json _. Ensures-bind λ metadata_json _.
            Ensures-bind
              λ traces _. Ensures-ok (record { links = assumption h; words = assumption h })

  pub append_learning_note-Sound :
      (run_id agent_id namespace content : String)
      → Ensures Sound (append_learning_note ctx run_id agent_id namespace content db)
  unfolding append_learning_note
  append_learning_note-Sound run_id agent_id namespace content = Ensures-bind λ run_id _.
      Ensures-bind λ agent_id _. Ensures-bind λ namespace _. Ensures-bind λ content _.
        Ensures-bind λ _ _. Ensures-ok (record { links = assumption h; words = assumption h })
