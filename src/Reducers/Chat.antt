-- ===== src/Reducers/Chat.antt =====
-- The reducers of spacetimedb/src/lib.rs for chat bots, chat messages and interactions.
use cadet.Shared.{String, Result, ok, ◌>>=◌}
use cadet.Shared.Int.{ℤ}
use cadet.Store.{Store, upsert, delete_found}
use cadet.Db.{Db, Context, now_micros}

module _ ⦃S : Store⦄ where
  unfoldable pub upsert_chat_bot_state : Context → String → String → String → ℤ → Db → Result Db
  upsert_chat_bot_state ctx key value_json kind expires_at_micros db = do
    let now = now_micros ctx
    states ← upsert db.chat_bot_state (record {
      key = key;
      value_json = value_json;
      kind = kind;
      expires_at_micros = expires_at_micros;
      created_at_micros = now;
    })
    ok (record db { chat_bot_state = states })

  unfoldable pub delete_chat_bot_state : Context → String → Db → Result Db
  delete_chat_bot_state ctx key db = do
    ok (record db { chat_bot_state = delete_found db.chat_bot_state key })

  unfoldable pub save_chat_message :
      Context → String → String → String → String → String → String → Db → Result Db
  save_chat_message ctx message_id operator_id conversation_id role content metadata_json db = do
    let now = now_micros ctx
    messages ← S.insert db.chat_message (record {
      message_id = message_id;
      operator_id = operator_id;
      conversation_id = conversation_id;
      role = role;
      content = content;
      metadata_json = metadata_json;
      created_at_micros = now;
    })
    ok (record db { chat_message = messages })

  unfoldable pub record_user_interaction :
      Context
      → String
      → String
      → String
      → String
      → String
      → String
      → String
      → String
      → String
      → Db
      → Result Db
  record_user_interaction ctx interaction_id user_id operator_id platform direction content_preview
        thread_id run_id sentiment db =
      do
        let now = now_micros ctx
        interactions ← S.insert db.user_interaction (record {
          interaction_id = interaction_id;
          user_id = user_id;
          operator_id = operator_id;
          platform = platform;
          direction = direction;
          content_preview = content_preview;
          thread_id = thread_id;
          run_id = run_id;
          sentiment = sentiment;
          created_at_micros = now;
        })
        ok (record db { user_interaction = interactions })
