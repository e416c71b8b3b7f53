-- ===== src/Sound/Bus.antt =====
-- The reducers of spacetimedb/src/lib.rs for the messages of every channel, and the
-- invariant.
use cadet.Shared.{String, ℕ, Bool, Option, Ensures, Ensures-ok, Ensures-bind}
use cadet.Store.{Store}
use cadet.Rows.Bus.{
  RawMessage, MessageExtraction, MessageEntity, MessageEmbeddingRecord, ConversationLink,
  MessageRoute,
}
use cadet.Db.{Db, Context}
use cadet.Reducers.Bus.{
  ingest_raw_message, add_message_extraction, upsert_message_entity, embed_message,
  link_conversation, set_message_route, update_message_status,
}
use cadet.Sound.{Sound}

module _ ⦃S : Store⦄ {db : Db} (h : Sound db) where
  raw_message-Sound :
      {t0 : S.Table RawMessage (λ row. row.message_id)} → Sound (record db { raw_message = t0 })
  raw_message-Sound = record { links = assumption h; words = assumption h }

  message_extraction-Sound :
      {t0 : S.Table MessageExtraction (λ row. row.extraction_id)}
      → Sound (record db { message_extraction = t0 })
  message_extraction-Sound = record { links = assumption h; words = assumption h }

  message_entity-Sound :
      {t0 : S.Table MessageEntity (λ row. row.entity_id)}
      → Sound (record db { message_entity = t0 })
  message_entity-Sound = record { links = assumption h; words = assumption h }

  message_embedding-Sound :
      {t0 : S.Table MessageEmbeddingRecord (λ row. row.embedding_id)}
      → Sound (record db { message_embedding = t0 })
  message_embedding-Sound = record { links = assumption h; words = assumption h }

  conversation_link-Sound :
      {t0 : S.Table ConversationLink (λ row. row.link_id)}
      → Sound (record db { conversation_link = t0 })
  conversation_link-Sound = record { links = assumption h; words = assumption h }

  message_route-Sound :
      {t0 : S.Table MessageRoute (λ row. row.route_id)} → Sound (record db { message_route = t0 })
  message_route-Sound = record { links = assumption h; words = assumption h }

module _ ⦃S : Store⦄ (ctx : Context) (db : Db) (h : Sound db) where
  pub ingest_raw_message-Sound :
      (message_id channel direction sender_entity_id : String)
      (receiver_entity_id thread_id run_id : Option String)
      (raw_payload content_text content_type : String)
      (platform_message_id platform_thread_id : Option String)
      → Ensures Sound (
          ingest_raw_message ctx message_id channel direction sender_entity_id receiver_entity_id
            thread_id run_id raw_payload content_text content_type platform_message_id
            platform_thread_id db)
  unfolding ingest_raw_message
  ingest_raw_message-Sound message_id channel direction sender_entity_id receiver_entity_id
        thread_id run_id raw_payload content_text content_type platform_message_id
        platform_thread_id =
      Ensures-bind λ _ _. Ensures-bind λ _ _. Ensures-bind λ _ _. Ensures-ok (raw_message-Sound h)

  pub add_message_extraction-Sound :
      (extraction_id message_id extraction_type label value : String) (confidence : S.f64.Carrier)
      (metadata_json : String)
      → Ensures Sound (
          add_message_extraction ctx extraction_id message_id extraction_type label value confidence
            metadata_json db)
  unfolding add_message_extraction
  add_message_extraction-Sound extraction_id message_id extraction_type label value confidence
        metadata_json =
      Ensures-bind
        λ _ _. Ensures-bind λ _ _. Ensures-bind λ _ _. Ensures-ok (message_extraction-Sound h)

  pub upsert_message_entity-Sound :
      (entity_id entity_type display_name : String)
      (slack_user_id discord_user_id github_username telegram_user_id email_address operator_id
        agent_id : Option String)
      (metadata_json : String)
      → Ensures Sound (
          upsert_message_entity ctx entity_id entity_type display_name slack_user_id discord_user_id
            github_username telegram_user_id email_address operator_id agent_id metadata_json db)
  unfolding upsert_message_entity
  upsert_message_entity-Sound entity_id entity_type display_name slack_user_id discord_user_id
        github_username telegram_user_id email_address operator_id agent_id metadata_json =
      Ensures-bind λ _ _. Ensures-bind λ _ _. Ensures-ok (message_entity-Sound h)

  pub embed_message-Sound :
      (embedding_id message_id : String) (extraction_id entity_id : Option String) (model : String)
      (dimensions : ℕ) (vector_json content_hash : String)
      → Ensures Sound (
          embed_message ctx embedding_id message_id extraction_id entity_id model dimensions
            vector_json content_hash db)
  unfolding embed_message
  embed_message-Sound embedding_id message_id extraction_id entity_id model dimensions vector_json
        content_hash =
      Ensures-bind
        λ _ _. Ensures-bind λ _ _. Ensures-bind λ _ _. Ensures-ok (message_embedding-Sound h)

  pub link_conversation-Sound :
      (link_id conversation_id message_id : String) (thread_id : Option String) (channel : String)
      (platform_thread_id : Option String)
      → Ensures Sound (
          link_conversation ctx link_id conversation_id message_id thread_id channel
            platform_thread_id db)
  unfolding link_conversation
  link_conversation-Sound link_id conversation_id message_id thread_id channel platform_thread_id =
      Ensures-bind λ _ _. Ensures-bind λ _ _. Ensures-ok (conversation_link-Sound h)

  pub set_message_route-Sound :
      (route_id channel entity_type keyword_pattern target_agent_id : String) (priority : ℕ)
      (enabled : Bool)
      → Ensures Sound (
          set_message_route ctx route_id channel entity_type keyword_pattern target_agent_id
            priority enabled db)
  unfolding set_message_route
  set_message_route-Sound route_id channel entity_type keyword_pattern target_agent_id priority
        enabled =
      Ensures-bind λ _ _. Ensures-bind λ _ _. Ensures-ok (message_route-Sound h)

  pub update_message_status-Sound :
      (message_id status : String) → Ensures Sound (update_message_status ctx message_id status db)
  unfolding update_message_status
  update_message_status-Sound message_id status =
      Ensures-bind λ _ _. Ensures-bind λ _ _. Ensures-bind λ _ _. Ensures-ok (raw_message-Sound h)
