-- ===== src/Rows/Memory.antt =====
-- Rows of spacetimedb/src/lib.rs: documents, chunks, embeddings and retrievals.
-- An `i64` and a `Timestamp` are integers (microseconds), and `u32` and `u64` natural numbers.
use cadet.Shared.{ℕ, String}
use cadet.Shared.Int.{ℤ}

pub record MemoryDocument : Type 0 where
  pub document_id : String
  pub agent_id : String
  pub namespace : String
  pub source_kind : String
  pub title : String
  pub content : String
  pub metadata_json : String
  pub created_at_micros : ℤ
  pub updated_at_micros : ℤ

pub record MemoryChunk : Type 0 where
  pub chunk_id : String
  pub document_id : String
  pub agent_id : String
  pub namespace : String
  pub ordinal : ℕ
  pub content : String
  pub metadata_json : String
  pub created_at_micros : ℤ

pub record MemoryEmbedding : Type 0 where
  pub embedding_id : String
  pub chunk_id : String
  pub agent_id : String
  pub namespace : String
  pub model : String
  pub dimensions : ℕ
  pub vector_json : String
  pub checksum : String
  pub created_at_micros : ℤ

pub record RetrievalTrace : Type 0 where
  pub trace_id : String
  pub run_id : String
  pub step_id : String
  pub query_text : String
  pub query_embedding_json : String
  pub chunk_ids_json : String
  pub metadata_json : String
  pub created_at_micros : ℤ
