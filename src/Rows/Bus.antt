-- ===== src/Rows/Bus.antt =====
-- Rows of spacetimedb/src/lib.rs: the messages of every channel, and what is extracted from
-- them. An `i64` or a `Timestamp` is an integer (microseconds), a `u32` or a `u64` a natural
-- number, an `f32` or an `f64` a number of the interface.
use cadet.Shared.{ℕ, String, Bool, Option}
use cadet.Shared.Int.{ℤ}
use cadet.Store.{Store}

pub record RawMessage : Type 0 where
  pub message_id : String
  pub channel : String
  pub direction : String
  pub sender_entity_id : String
  pub receiver_entity_id : Option String
  pub thread_id : Option String
  pub run_id : Option String
  pub raw_payload : String
  pub content_text : String
  pub content_type : String
  pub platform_message_id : Option String
  pub platform_thread_id : Option String
  pub status : String
  pub created_at_micros : ℤ
  pub processed_at_micros : Option ℤ

module _ ⦃S : Store⦄ where
  pub record MessageExtraction : Type 0 where
    pub extraction_id : String
    pub message_id : String
    pub extraction_type : String
    pub label : String
    pub value : String
    pub confidence : S.f64.Carrier
    pub metadata_json : String
    pub created_at_micros : ℤ

pub record MessageEntity : Type 0 where
  pub entity_id : String
  pub entity_type : String
  pub display_name : String
  pub slack_user_id : Option String
  pub discord_user_id : Option String
  pub github_username : Option String
  pub telegram_user_id : Option String
  pub email_address : Option String
  pub operator_id : Option String
  pub agent_id : Option String
  pub metadata_json : String
  pub created_at_micros : ℤ
  pub updated_at_micros : ℤ

pub record MessageEmbeddingRecord : Type 0 where
  pub embedding_id : String
  pub message_id : String
  pub extraction_id : Option String
  pub entity_id : Option String
  pub model : String
  pub dimensions : ℕ
  pub vector_json : String
  pub content_hash : String
  pub created_at_micros : ℤ

pub record ConversationLink : Type 0 where
  pub link_id : String
  pub conversation_id : String
  pub message_id : String
  pub thread_id : Option String
  pub channel : String
  pub platform_thread_id : Option String
  pub created_at_micros : ℤ

pub record MessageRoute : Type 0 where
  pub route_id : String
  pub channel : String
  pub entity_type : String
  pub keyword_pattern : String
  pub target_agent_id : String
  pub priority : ℕ
  pub enabled : Bool
  pub created_at_micros : ℤ
