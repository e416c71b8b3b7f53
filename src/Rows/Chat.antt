-- ===== src/Rows/Chat.antt =====
-- Rows of spacetimedb/src/lib.rs: the state of chat bots, the messages of a chat, and
-- interactions. An `i64` or a `Timestamp` is an integer (microseconds).
use cadet.Shared.{String}
use cadet.Shared.Int.{ℤ}

pub record ChatBotState : Type 0 where
  pub key : String
  pub value_json : String
  pub kind : String
  pub expires_at_micros : ℤ
  pub created_at_micros : ℤ

pub record ChatMessage : Type 0 where
  pub message_id : String
  pub operator_id : String
  pub conversation_id : String
  pub role : String
  pub content : String
  pub metadata_json : String
  pub created_at_micros : ℤ

pub record UserInteraction : Type 0 where
  pub interaction_id : String
  pub user_id : String
  pub operator_id : String
  pub platform : String
  pub direction : String
  pub content_preview : String
  pub thread_id : String
  pub run_id : String
  pub sentiment : String
  pub created_at_micros : ℤ
