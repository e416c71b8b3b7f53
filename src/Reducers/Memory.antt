-- ===== src/Reducers/Memory.antt =====
-- The reducers of spacetimedb/src/lib.rs for an agent's memory, and for the record of its tool calls.
use cadet.Shared.{String, ℕ, Option, Result, ok, ◌>>=◌, ◌>>◌, refuse_if, is_some, not, nat_eq}
use cadet.Store.{Store, upsert}
use cadet.Text.{validate_identifier, validate_text, normalize_json_blob}
use cadet.Validate.{validate_tool_call_status}
use cadet.Db.{Db, Context, now_micros}
use cadet.Reducers.Steps.{check_option}

module _ ⦃S : Store⦄ where
  unfoldable pub record_tool_call :
      Context
      → String
      → String
      → String
      → String
      → String
      → String
      → String
      → Option String
      → Db
      → Result Db
  record_tool_call ctx tool_call_id run_id step_id agent_id tool_name status input_json output_json
        db =
      do
        tool_call_id ← validate_identifier tool_call_id "tool_call_id"
        run_id ← validate_identifier run_id "run_id"
        step_id ← validate_identifier step_id "step_id"
        agent_id ← validate_identifier agent_id "agent_id"
        tool_name ← validate_text tool_name "tool_name"
        status ← validate_tool_call_status status
        input_json ← normalize_json_blob input_json "input_json"
        output_json ←
            check_option (λ candidate. normalize_json_blob candidate "output_json") output_json
        let now = now_micros ctx
        calls ← upsert db.tool_call_record (record {
          tool_call_id = tool_call_id;
          run_id = run_id;
          step_id = step_id;
          agent_id = agent_id;
          tool_name = tool_name;
          status = status;
          input_json = input_json;
          output_json = output_json;
          created_at_micros = now;
          updated_at_micros = now;
        })
        ok (record db { tool_call_record = calls })

  unfoldable pub upsert_memory_document :
      Context → String → String → String → String → String → String → String → Db → Result Db
  upsert_memory_document ctx document_id agent_id namespace source_kind title content metadata_json
        db =
      do
        document_id ← validate_identifier document_id "document_id"
        agent_id ← validate_identifier agent_id "agent_id"
        namespace ← validate_text namespace "namespace"
        source_kind ← validate_text source_kind "source_kind"
        title ← validate_text title "title"
        content ← validate_text content "content"
        metadata_json ← normalize_json_blob metadata_json "metadata_json"
        let now = now_micros ctx
        documents ← upsert db.memory_document (record {
          document_id = document_id;
          agent_id = agent_id;
          namespace = namespace;
          source_kind = source_kind;
          title = title;
          content = content;
          metadata_json = metadata_json;
          created_at_micros = now;
          updated_at_micros = now;
        })
        ok (record db { memory_document = documents })

  unfoldable pub upsert_memory_chunk :
      Context → String → String → String → String → ℕ → String → String → Db → Result Db
  upsert_memory_chunk ctx chunk_id document_id agent_id namespace ordinal content metadata_json db =
      do
        chunk_id ← validate_identifier chunk_id "chunk_id"
        document_id ← validate_identifier document_id "document_id"
        agent_id ← validate_identifier agent_id "agent_id"
        namespace ← validate_text namespace "namespace"
        content ← validate_text content "content"
        metadata_json ← normalize_json_blob metadata_json "metadata_json"
        let now = now_micros ctx
        chunks ← upsert db.memory_chunk (record {
          chunk_id = chunk_id;
          document_id = document_id;
          agent_id = agent_id;
          namespace = namespace;
          ordinal = ordinal;
          content = content;
          metadata_json = metadata_json;
          created_at_micros = now;
        })
        ok (record db { memory_chunk = chunks })

  unfoldable pub upsert_memory_embedding :
      Context → String → String → String → String → String → ℕ → String → String → Db → Result Db
  upsert_memory_embedding ctx embedding_id chunk_id agent_id namespace model dimensions vector_json
        checksum db =
      do
        embedding_id ← validate_identifier embedding_id "embedding_id"
        chunk_id ← validate_identifier chunk_id "chunk_id"
        agent_id ← validate_identifier agent_id "agent_id"
        namespace ← validate_text namespace "namespace"
        model ← validate_text model "model"
        refuse_if (nat_eq dimensions 0) "dimensions must be greater than zero"
        vector_json ← normalize_json_blob vector_json "vector_json"
        checksum ← validate_text checksum "checksum"
        let now = now_micros ctx
        embeddings ← upsert db.memory_embedding (record {
          embedding_id = embedding_id;
          chunk_id = chunk_id;
          agent_id = agent_id;
          namespace = namespace;
          model = model;
          dimensions = dimensions;
          vector_json = vector_json;
          checksum = checksum;
          created_at_micros = now;
        })
        ok (record db { memory_embedding = embeddings })

  unfoldable pub record_retrieval_trace :
      Context → String → String → String → String → String → String → String → Db → Result Db
  record_retrieval_trace ctx trace_id run_id step_id query_text query_embedding_json chunk_ids_json
        metadata_json db =
      do
        trace_id ← validate_identifier trace_id "trace_id"
        run_id ← validate_identifier run_id "run_id"
        step_id ← validate_identifier step_id "step_id"
        query_text ← validate_text query_text "query_text"
        query_embedding_json ← normalize_json_blob query_embedding_json "query_embedding_json"
        chunk_ids_json ← normalize_json_blob chunk_ids_json "chunk_ids_json"
        metadata_json ← normalize_json_blob metadata_json "metadata_json"
        traces ← upsert db.retrieval_trace (record {
          trace_id = trace_id;
          run_id = run_id;
          step_id = step_id;
          query_text = query_text;
          query_embedding_json = query_embedding_json;
          chunk_ids_json = chunk_ids_json;
          metadata_json = metadata_json;
          created_at_micros = now_micros ctx;
        })
        ok (record db { retrieval_trace = traces })

  unfoldable pub append_learning_note : Context → String → String → String → String → Db → Result Db
  append_learning_note ctx run_id agent_id namespace content db = do
    run_id ← validate_identifier run_id "run_id"
    agent_id ← validate_identifier agent_id "agent_id"
    namespace ← validate_text namespace "namespace"
    content ← validate_text content "content"
    refuse_if (not (is_some (S.find db.workflow_run run_id))) "workflow run not found"
    ok (record db {
      memory_note = S.append db.memory_note (λ id. record {
        id = id;
        agent_id = agent_id;
        namespace = namespace;
        content = content;
        created_at = ctx.timestamp;
      });
    })
