-- ===== src/Reducers/Messages.antt =====
-- The reducers of spacetimedb/src/lib.rs for the messages of a thread and their deliveries.
use cadet.Shared.{String, Option, none, some, Result, ok, ◌>>=◌}
use cadet.Store.{Store, upsert}
use cadet.Text.{validate_identifier, validate_text, normalize_json_blob}
use cadet.Validate.{validate_channel, validate_direction, validate_delivery_status}
use cadet.Db.{Db, Context, now_micros}
use cadet.Reducers.Steps.{check_option}

module _ ⦃S : Store⦄ where
  unfoldable pub ingest_message :
      Context
      → String
      → String
      → String
      → String
      → String
      → Option String
      → String
      → String
      → String
      → String
      → Db
      → Result Db
  ingest_message ctx thread_id channel channel_thread_id title event_id run_id direction actor
        content metadata_json db =
      do
        thread_id ← validate_identifier thread_id "thread_id"
        channel ← validate_channel channel
        channel_thread_id ← validate_text channel_thread_id "channel_thread_id"
        title ← validate_text title "title"
        event_id ← validate_identifier event_id "event_id"
        direction ← validate_direction direction
        actor ← validate_text actor "actor"
        content ← validate_text content "content"
        metadata_json ← normalize_json_blob metadata_json "metadata_json"
        let now = now_micros ctx
        threads ← elim (S.find db.thread_record thread_id) [
          | some existing ↦ S.update db.thread_record (record existing {
            channel = channel;
            title = title;
            channel_thread_id = channel_thread_id;
            latest_message_at_micros = now;
            updated_at_micros = now;
          })
          | none ↦ S.insert db.thread_record (record {
            thread_id = thread_id;
            channel = channel;
            channel_thread_id = channel_thread_id;
            title = title;
            latest_message_at_micros = now;
            created_at_micros = now;
            updated_at_micros = now;
          })
        ]
        events ← S.insert db.message_event (record {
          event_id = event_id;
          thread_id = thread_id;
          run_id = run_id;
          channel = channel;
          direction = direction;
          actor = actor;
          content = content;
          metadata_json = metadata_json;
          created_at_micros = now;
        })
        ok (record db { thread_record = threads; message_event = events })

  unfoldable pub record_delivery_attempt :
      Context
      → String
      → String
      → Option String
      → String
      → String
      → String
      → String
      → String
      → Option String
      → Db
      → Result Db
  record_delivery_attempt ctx attempt_id thread_id run_id channel direction status target
        payload_json response_json db =
      do
        attempt_id ← validate_identifier attempt_id "attempt_id"
        thread_id ← validate_identifier thread_id "thread_id"
        channel ← validate_channel channel
        direction ← validate_direction direction
        status ← validate_delivery_status status
        target ← validate_text target "target"
        payload_json ← normalize_json_blob payload_json "payload_json"
        response_json ←
            check_option (λ candidate. normalize_json_blob candidate "response_json") response_json
        let now = now_micros ctx
        attempts ← upsert db.delivery_attempt (record {
          attempt_id = attempt_id;
          thread_id = thread_id;
          run_id = run_id;
          channel = channel;
          direction = direction;
          status = status;
          target = target;
          payload_json = payload_json;
          response_json = response_json;
          created_at_micros = now;
          updated_at_micros = now;
        })
        ok (record db { delivery_attempt = attempts })
