-- ===== src/Chat/State.antt =====
-- `upsert_chat_bot_state` and `delete_chat_bot_state` against a map.
use cadet.Shared.{
  String, ◌≡◌, refl, ◌∙◌, ap, ◌==◌, if◌then◌else◌, Option, none, some, List, [], ◌∷◌, ok, ◌>>=◌,
  Bool-cases, inl, inr,
}
use cadet.Shared.Int.{ℤ}
use cadet.Store.{Store}
use cadet.Store.Tables.{upsert_total, upsert-Wrote}
use cadet.Store.Deleted.{find-delete_found}
use cadet.Rows.Chat.{ChatBotState}
use cadet.Db.{Db, Context, now_micros}
use cadet.Reducers.Chat.{upsert_chat_bot_state, delete_chat_bot_state}
use cadet.System.{Call, perform, run}

-- What a key is set to: the value, its kind, when it ends, and when it was set.
pub record Entry : Type 0 where
  pub value_json : String
  pub kind : String
  pub expires_at_micros : ℤ
  pub created_at_micros : ℤ

abbrev pub entry : Option ChatBotState → Option Entry
entry none = none
entry (some row) = some (record {
  value_json = row.value_json;
  kind = row.kind;
  expires_at_micros = row.expires_at_micros;
  created_at_micros = row.created_at_micros;
})

pub data Op : Type 0 where
  put : String → String → String → ℤ → Op
  drop : String → Op

-- An operation, at a time, on a map.
abbrev pub step : ℤ → Op → (String → Option Entry) → String → Option Entry
step now (Op.put key value kind expires) m k =
    if key == k
    then some (record {
      value_json = value;
      kind = kind;
      expires_at_micros = expires;
      created_at_micros = now;
    })
    else m k
step now (Op.drop key) m k = if key == k then none else m k

module _ ⦃S : Store⦄ where
  abbrev pub call_of : Op → Call
  call_of (Op.put key value kind expires) = Call.upsert_chat_bot_state key value kind expires
  call_of (Op.drop key) = Call.delete_chat_bot_state key

  abbrev pub calls_of : List (Context × Op) → List (Context × Call)
  calls_of [] = []
  calls_of ((ctx, op) ∷ ops) = (ctx, call_of op) ∷ calls_of ops

  abbrev pub replay : List (Context × Op) → (String → Option Entry) → String → Option Entry
  replay [] m = m
  replay ((ctx, op) ∷ ops) m = replay ops (step (now_micros ctx) op m)

  -- The map that a table of states stands for.
  abbrev pub view : Db → String → Option Entry
  view db k = entry (S.find db.chat_bot_state k)

  replay-agrees :
      (ops : List (Context × Op)) (m m' : String → Option Entry)
      → ((k : String) → m k ≡ m' k)
      → (k : String) → replay ops m k ≡ replay ops m' k
  replay-agrees [] m m' h k = h k
  replay-agrees ((ctx, Op.put key value kind expires) ∷ ops) m m' h k =
      replay-agrees ops _ _ (λ j. rw (h j) refl) k
  replay-agrees ((ctx, Op.drop key) ∷ ops) m m' h k = replay-agrees ops _ _ (λ j. rw (h j) refl) k

  perform-step :
      (ctx : Context) (op : Op) (db : Db)
      → (db' : Db) × (perform ctx (call_of op) db ≡ ok db')
        × ((k : String) → view db' k ≡ step (now_micros ctx) op (view db) k)
  unfolding perform upsert_chat_bot_state delete_chat_bot_state ◌>>=◌
  perform-step ctx (Op.put key value kind expires) db =
      let row : ChatBotState = record {
        key = key;
        value_json = value;
        kind = kind;
        expires_at_micros = expires;
        created_at_micros = now_micros ctx;
      } in
      let (t, e) = upsert_total db.chat_bot_state row in
      let wrote = upsert-Wrote e in
      (
        record db { chat_bot_state = t },
        rw e refl,
        λ k. elim (Bool-cases (key == k)) [
          | inl same ↦ ap entry (wrote.finds k) ∙ rw same refl
          | inr other ↦ ap entry (wrote.finds k) ∙ rw other refl
        ],
      )
  perform-step ctx (Op.drop key) db = (
    _,
    refl,
    λ k. elim (Bool-cases (key == k)) [
      | inl same ↦ ap entry (find-delete_found db.chat_bot_state key k) ∙ rw same refl
      | inr other ↦ ap entry (find-delete_found db.chat_bot_state key k) ∙ rw other refl
    ],
  )

  -- The table implements a map from keys to entries: after any sequence of puts and drops, at whatever
  -- times, an entry is found under a key exactly if the same operations on the map leave it there.
  pub run-replay :
      (ops : List (Context × Op)) (db : Db) (k : String)
      → view (run (calls_of ops) db) k ≡ replay ops (view db) k
  unfolding run
  run-replay [] db k = refl
  run-replay ((ctx, op) ∷ ops) db k =
      let (db', done, steps) = perform-step ctx op db in
      rw (run, done) (run-replay ops db' k ∙ replay-agrees ops _ _ steps k)
