-- ===== src/Rows/Threads.antt =====
-- Rows of spacetimedb/src/lib.rs: threads, their messages and deliveries.
-- An `i64` and a `Timestamp` are integers (microseconds), and `u32` and `u64` natural numbers.
use cadet.Shared.{String, Option}
use cadet.Shared.Int.{ℤ}

pub record ThreadRecord : Type 0 where
  pub thread_id : String
  pub channel : String
  pub channel_thread_id : String
  pub title : String
  pub latest_message_at_micros : ℤ
  pub created_at_micros : ℤ
  pub updated_at_micros : ℤ

pub record MessageEvent : Type 0 where
  pub event_id : String
  pub thread_id : String
  pub run_id : Option String
  pub channel : String
  pub direction : String
  pub actor : String
  pub content : String
  pub metadata_json : String
  pub created_at_micros : ℤ

pub record DeliveryAttempt : Type 0 where
  pub attempt_id : String
  pub thread_id : String
  pub run_id : Option String
  pub channel : String
  pub direction : String
  pub status : String
  pub target : String
  pub payload_json : String
  pub response_json : Option String
  pub created_at_micros : ℤ
  pub updated_at_micros : ℤ
