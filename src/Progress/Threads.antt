-- ===== src/Progress/Threads.antt =====
-- `ingest_message` of spacetimedb/src/lib.rs.
use cadet.Shared.{
  String, ◌≡◌, ◌≢◌, refl, sym, ◌∙◌, ap, ok, Option, some, none, Ensures, Ensures-ok, Ensures-bind,
  Option-cases, inl, inr,
}
use cadet.Store.{Store}
use cadet.Store.Tables.{insert-Wrote, update-Wrote, find-Wrote_self, find-Wrote_ne, insert_new_only}
use cadet.Text.{trim}
use cadet.Text.Checks.{validate_identifier_iff, validate_text-eq-trim, normalize_json_blob-eq}
use cadet.Vocab.MessageChannel.{message_channel}
use cadet.Vocab.MessageDirection.{message_direction}
use cadet.Validate.{validate_channel, validate_direction}
use cadet.Validate.Words.{parse_as_iff}
use cadet.Rows.Threads.{ThreadRecord}
use cadet.Db.{Db, Context, now_micros}
use cadet.Reducers.Messages.{ingest_message}

module _ ⦃S : Store⦄ where
  -- The thread of the message and the message are stored.
  pub record Ingested (ctx : Context) (thread_id channel channel_thread_id title event_id : String)
      (run_id : Option String) (direction actor content metadata_json : String) (db db' : Db)
      : Type 0 where
    pub thread : ThreadRecord
    pub thread_found : S.find db'.thread_record thread_id ≡ some thread
    pub from_call :
        (thread.thread_id ≡ thread_id)
        × (thread.channel ≡ channel)
        × (thread.channel_thread_id ≡ channel_thread_id)
        × (thread.title ≡ title)
        × (thread.latest_message_at_micros ≡ now_micros ctx)
        × (thread.updated_at_micros ≡ now_micros ctx)
    pub kept :
        (old : ThreadRecord)
        → S.find db.thread_record thread_id ≡ some old
        → thread.created_at_micros ≡ old.created_at_micros
    pub new : S.find db.thread_record thread_id ≡ none → thread.created_at_micros ≡ now_micros ctx
    pub event_new : S.find db.message_event event_id ≡ none
    pub event_stored :
        S.find db'.message_event event_id
        ≡ some (record {
          event_id = event_id;
          thread_id = thread_id;
          run_id = run_id;
          channel = channel;
          direction = direction;
          actor = actor;
          content = content;
          metadata_json = metadata_json;
          created_at_micros = now_micros ctx;
        })
    pub other_threads :
        (k : String) → thread_id ≢ k → S.find db'.thread_record k ≡ S.find db.thread_record k
    pub other_events :
        (k : String) → event_id ≢ k → S.find db'.message_event k ≡ S.find db.message_event k
    pub other_tables :
        db' ≡ record db { thread_record = db'.thread_record; message_event = db'.message_event }

module _ ⦃S : Store⦄ (ctx : Context) (thread_id channel channel_thread_id title event_id : String)
    (run_id : Option String) (direction actor content metadata_json : String) (db : Db) where
  ingest_Ensures :
      Ensures
        (Ingested ctx
          (trim thread_id)
          (trim channel)
          (trim channel_thread_id)
          (trim title)
          (trim event_id)
          run_id
          (trim direction)
          (trim actor)
          (trim content)
          (trim metadata_json)
          db)
        (ingest_message ctx thread_id channel channel_thread_id title event_id run_id direction
          actor content metadata_json db)
  unfolding ingest_message validate_channel validate_direction
  ingest_Ensures = Ensures-bind λ id valid_id. Ensures-bind λ on valid_channel.
      Ensures-bind λ channel_id valid_channel_id. Ensures-bind λ name valid_title.
        Ensures-bind λ event valid_event. Ensures-bind λ way valid_way.
          Ensures-bind λ who valid_who. Ensures-bind λ text valid_text.
            Ensures-bind λ data_json valid_data. Ensures-bind λ threads wrote.
              Ensures-bind λ events recorded.
                let id_is = ((validate_identifier_iff thread_id "thread_id" id).0 valid_id).0 in
                let on_is =
                  ((parse_as_iff message_channel channel "channel" on).0 valid_channel).0 in
                let channel_id_is =
                  (validate_text-eq-trim channel_thread_id "channel_thread_id"
                    valid_channel_id).0 in
                let name_is = (validate_text-eq-trim title "title" valid_title).0 in
                let event_is =
                  ((validate_identifier_iff event_id "event_id" event).0 valid_event).0 in
                let way_is =
                  ((parse_as_iff message_direction direction "direction" way).0 valid_way).0 in
                let who_is = (validate_text-eq-trim actor "actor" valid_who).0 in
                let text_is = (validate_text-eq-trim content "content" valid_text).0 in
                let data_is =
                  (validate_text-eq-trim metadata_json "metadata_json"
                    (rw normalize_json_blob-eq at valid_data)).0 in
                let record_write = insert-Wrote recorded in
                let stored =
                  rw (event_is, id_is, on_is, way_is, who_is, text_is, data_is) at
                    (find-Wrote_self record_write) in
                let unused = insert_new_only recorded in
                Ensures-ok (elim (Option-cases (S.find db.thread_record id)) [
                  | inl missing ↦
                      let write = insert-Wrote (rw missing at wrote) in
                      record {
                        thread = _;
                        thread_found = rw id_is at (find-Wrote_self write);
                        from_call = (refl, on_is, channel_id_is, name_is, refl, refl);
                        kept = λ old there. absurd (cc (missing, there, id_is));
                        new = λ _. refl;
                        event_new = rw event_is at unused;
                        event_stored = stored;
                        other_threads = λ k ne. find-Wrote_ne k write (λ e. ne (sym id_is ∙ e));
                        other_events =
                            λ k ne. find-Wrote_ne k record_write (λ e. ne (sym event_is ∙ e));
                        other_tables = refl;
                      }
                  | inr (old, present) ↦
                      let write = update-Wrote (rw present at wrote) in
                      let key = S.find-key _ _ _ present in
                      record {
                        thread = _;
                        thread_found = rw (key ∙ id_is) at (find-Wrote_self write);
                        from_call = (refl, on_is, channel_id_is, name_is, refl, refl);
                        kept = λ was there.
                            let same : old ≡ was = cc (present, there, id_is) in
                            ap (λ row. row.created_at_micros) same;
                        new = λ missing. absurd (cc (missing, present, id_is));
                        event_new = rw event_is at unused;
                        event_stored = stored;
                        other_threads =
                            λ k ne. find-Wrote_ne k write (λ e. ne (sym id_is ∙ sym key ∙ e));
                        other_events =
                            λ k ne. find-Wrote_ne k record_write (λ e. ne (sym event_is ∙ e));
                        other_tables = refl;
                      }
                ])

  -- A message that is ingested is new and is stored with all its columns: its id, thread, channel,
  -- direction, actor, content and metadata are those of the call, trimmed, its run is that of the
  -- call as it is, and its time is that of the call. Its thread is stored too: one that was there
  -- keeps its id and the time of its creation and has the rest from the call; a new one is created at
  -- the time of the call. All other threads and messages, and all other tables, are as they were.
  pub ingest_message_effect :
      {db' : Db}
      → ingest_message ctx thread_id channel channel_thread_id title event_id run_id direction actor
          content metadata_json db
        ≡ ok db'
      → Ingested ctx
          (trim thread_id)
          (trim channel)
          (trim channel_thread_id)
          (trim title)
          (trim event_id)
          run_id
          (trim direction)
          (trim actor)
          (trim content)
          (trim metadata_json)
          db
          db'
  ingest_message_effect {db'} e = ingest_Ensures.at db' e
