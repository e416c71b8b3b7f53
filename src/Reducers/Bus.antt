-- ===== src/Reducers/Bus.antt =====
-- The reducers of spacetimedb/src/lib.rs for the messages of every channel.
use Prim.Native.String.{◌++◌}
use cadet.Shared.{String, ℕ, Bool, Option, none, some, Result, ok, ◌>>=◌, or_err}
use cadet.Store.{Store, upsert}
use cadet.Text.{validate_identifier}
use cadet.Db.{Db, Context, now_micros}

module _ ⦃S : Store⦄ where
  unfoldable pub ingest_raw_message :
      Context
      → String
      → String
      → String
      → String
      → Option String
      → Option String
      → Option String
      → String
      → String
      → String
      → Option String
      → Option String
      → Db
      → Result Db
  ingest_raw_message ctx message_id channel direction sender_entity_id receiver_entity_id thread_id
        run_id raw_payload content_text content_type platform_message_id platform_thread_id db =
      do
        message_id ← validate_identifier message_id "message_id"
        channel ← validate_identifier channel "channel"
        let now = now_micros ctx
        messages ← S.insert db.raw_message (record {
          message_id = message_id;
          channel = channel;
          direction = direction;
          sender_entity_id = sender_entity_id;
          receiver_entity_id = receiver_entity_id;
          thread_id = thread_id;
          run_id = run_id;
          raw_payload = raw_payload;
          content_text = content_text;
          content_type = content_type;
          platform_message_id = platform_message_id;
          platform_thread_id = platform_thread_id;
          status = "received";
          created_at_micros = now;
          processed_at_micros = none;
        })
        ok (record db { raw_message = messages })

  unfoldable pub add_message_extraction :
      Context → String → String → String → String → String → S.f64.Carrier → String → Db → Result Db
  add_message_extraction ctx extraction_id message_id extraction_type label value confidence
        metadata_json db =
      do
        extraction_id ← validate_identifier extraction_id "extraction_id"
        message_id ← validate_identifier message_id "message_id"
        let now = now_micros ctx
        extractions ← S.insert db.message_extraction (record {
          extraction_id = extraction_id;
          message_id = message_id;
          extraction_type = extraction_type;
          label = label;
          value = value;
          confidence = confidence;
          metadata_json = metadata_json;
          created_at_micros = now;
        })
        ok (record db { message_extraction = extractions })

  unfoldable pub upsert_message_entity :
      Context
      → String
      → String
      → String
      → Option String
      → Option String
      → Option String
      → Option String
      → Option String
      → Option String
      → Option String
      → String
      → Db
      → Result Db
  upsert_message_entity ctx entity_id entity_type display_name slack_user_id discord_user_id
        github_username telegram_user_id email_address operator_id agent_id metadata_json db =
      do
        entity_id ← validate_identifier entity_id "entity_id"
        let now = now_micros ctx
        entities ← upsert db.message_entity (record {
          entity_id = entity_id;
          entity_type = entity_type;
          display_name = display_name;
          slack_user_id = slack_user_id;
          discord_user_id = discord_user_id;
          github_username = github_username;
          telegram_user_id = telegram_user_id;
          email_address = email_address;
          operator_id = operator_id;
          agent_id = agent_id;
          metadata_json = metadata_json;
          created_at_micros = now;
          updated_at_micros = now;
        })
        ok (record db { message_entity = entities })

  unfoldable pub embed_message :
      Context
      → String
      → String
      → Option String
      → Option String
      → String
      → ℕ
      → String
      → String
      → Db
      → Result Db
  embed_message ctx embedding_id message_id extraction_id entity_id model dimensions vector_json
        content_hash db =
      do
        embedding_id ← validate_identifier embedding_id "embedding_id"
        message_id ← validate_identifier message_id "message_id"
        let now = now_micros ctx
        embeddings ← S.insert db.message_embedding (record {
          embedding_id = embedding_id;
          message_id = message_id;
          extraction_id = extraction_id;
          entity_id = entity_id;
          model = model;
          dimensions = dimensions;
          vector_json = vector_json;
          content_hash = content_hash;
          created_at_micros = now;
        })
        ok (record db { message_embedding = embeddings })

  unfoldable pub link_conversation :
      Context → String → String → String → Option String → String → Option String → Db → Result Db
  link_conversation ctx link_id conversation_id message_id thread_id channel platform_thread_id db =
      do
        link_id ← validate_identifier link_id "link_id"
        let now = now_micros ctx
        links ← S.insert db.conversation_link (record {
          link_id = link_id;
          conversation_id = conversation_id;
          message_id = message_id;
          thread_id = thread_id;
          channel = channel;
          platform_thread_id = platform_thread_id;
          created_at_micros = now;
        })
        ok (record db { conversation_link = links })

  unfoldable pub set_message_route :
      Context → String → String → String → String → String → ℕ → Bool → Db → Result Db
  set_message_route ctx route_id channel entity_type keyword_pattern target_agent_id priority
        enabled db =
      do
        route_id ← validate_identifier route_id "route_id"
        let now = now_micros ctx
        routes ← upsert db.message_route (record {
          route_id = route_id;
          channel = channel;
          entity_type = entity_type;
          keyword_pattern = keyword_pattern;
          target_agent_id = target_agent_id;
          priority = priority;
          enabled = enabled;
          created_at_micros = now;
        })
        ok (record db { message_route = routes })

  unfoldable pub update_message_status : Context → String → String → Db → Result Db
  update_message_status ctx message_id status db = do
    message_id ← validate_identifier message_id "message_id"
    let now = now_micros ctx
    existing ← or_err (S.find db.raw_message message_id) ("Message " ++ message_id ++ " not found")
    messages ←
        S.update db.raw_message
          (record existing { status = status; processed_at_micros = some now })
    ok (record db { raw_message = messages })
