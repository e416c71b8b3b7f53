-- ===== src/Sound/Chat.antt =====
-- The reducers of spacetimedb/src/lib.rs for chat bots, chat messages and interactions, and the
-- invariant.
use cadet.Shared.{String, Ensures, Ensures-ok, Ensures-bind}
use cadet.Shared.Int.{ℤ}
use cadet.Store.{Store}
use cadet.Rows.Chat.{ChatBotState, ChatMessage, UserInteraction}
use cadet.Db.{Db, Context}
use cadet.Reducers.Chat.{
  upsert_chat_bot_state, delete_chat_bot_state, save_chat_message, record_user_interaction,
}
use cadet.Sound.{Sound}

module _ ⦃S : Store⦄ {db : Db} (h : Sound db) where
  chat_bot_state-Sound :
      {t0 : S.Table ChatBotState (λ row. row.key)} → Sound (record db { chat_bot_state = t0 })
  chat_bot_state-Sound = record { links = assumption h; words = assumption h }

  chat_message-Sound :
      {t0 : S.Table ChatMessage (λ row. row.message_id)} → Sound (record db { chat_message = t0 })
  chat_message-Sound = record { links = assumption h; words = assumption h }

  user_interaction-Sound :
      {t0 : S.Table UserInteraction (λ row. row.interaction_id)}
      → Sound (record db { user_interaction = t0 })
  user_interaction-Sound = record { links = assumption h; words = assumption h }

module _ ⦃S : Store⦄ (ctx : Context) (db : Db) (h : Sound db) where
  pub upsert_chat_bot_state-Sound :
      (key value_json kind : String) (expires_at_micros : ℤ)
      → Ensures Sound (upsert_chat_bot_state ctx key value_json kind expires_at_micros db)
  unfolding upsert_chat_bot_state
  upsert_chat_bot_state-Sound key value_json kind expires_at_micros =
      Ensures-bind λ _ _. Ensures-ok (chat_bot_state-Sound h)

  pub delete_chat_bot_state-Sound :
      (key : String) → Ensures Sound (delete_chat_bot_state ctx key db)
  unfolding delete_chat_bot_state
  delete_chat_bot_state-Sound key = Ensures-ok (chat_bot_state-Sound h)

  pub save_chat_message-Sound :
      (message_id operator_id conversation_id role content metadata_json : String)
      → Ensures Sound (
          save_chat_message ctx message_id operator_id conversation_id role content metadata_json
            db)
  unfolding save_chat_message
  save_chat_message-Sound message_id operator_id conversation_id role content metadata_json =
      Ensures-bind λ _ _. Ensures-ok (chat_message-Sound h)

  pub record_user_interaction-Sound :
      (interaction_id user_id operator_id platform direction content_preview thread_id run_id
        sentiment : String)
      → Ensures Sound (
          record_user_interaction ctx interaction_id user_id operator_id platform direction
            content_preview thread_id run_id sentiment db)
  unfolding record_user_interaction
  record_user_interaction-Sound interaction_id user_id operator_id platform direction
        content_preview thread_id run_id sentiment =
      Ensures-bind λ _ _. Ensures-ok (user_interaction-Sound h)
