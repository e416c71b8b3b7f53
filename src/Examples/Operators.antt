-- ===== src/Examples/Operators.antt =====
-- Operators, their challenges, and the state of a chat bot.
use cadet.Shared.{String, ◌≡◌, some, none, Option, ok, List, [], ◌∷◌}
use cadet.Shared.Int.{pos}
use cadet.Rows.Operators.{OperatorAccount, AuthChallenge}
use cadet.Rows.Chat.{ChatBotState}
use cadet.Db.{Db, Context}
use cadet.Reducers.Operators.{delete_expired_challenges}
use cadet.System.{Call, perform, run}
use cadet.System.Senders.{Agree, perform_any_sender}
use cadet.Operators.Challenges.{live, delete_expired_challenges_effect}
use cadet.Chat.State.{Op, calls_of, replay, view, run-replay}
use cadet.Examples.{tables, at, empty}

abbrev account : OperatorAccount
account = record {
  operator_id = "op-1";
  identity = 7;
  display_name = "Ada";
  email = "ada@example.com";
  role = "operator";
  ssh_public_key = none;
  created_at = pos 1;
  updated_at = pos 1;
}

abbrev challenge : AuthChallenge
challenge = record {
  challenge_id = "c-1";
  challenge = "abc";
  operator_id = some "op-1";
  expires_at_micros = pos 50;
}

abbrev signing_in : Db
signing_in = record empty {
  operator_account = account ∷ [];
  auth_challenge =
      challenge ∷ record challenge { challenge_id = "c-2"; expires_at_micros = pos 200 } ∷ [];
}

-- Two callers register the same operator.
perform_any_sender_example :
    Agree
      (Call.register_operator "op-2" "Bob" "bob@example.com" "cred-2" "{}" "[]")
      (perform
        (record { timestamp = pos 9; sender = 7 })
        (Call.register_operator "op-2" "Bob" "bob@example.com" "cred-2" "{}" "[]")
        signing_in)
      (perform
        (record { timestamp = pos 9; sender = 8 })
        (Call.register_operator "op-2" "Bob" "bob@example.com" "cred-2" "{}" "[]")
        signing_in)
perform_any_sender_example =
    perform_any_sender (pos 9) 7 8
      (Call.register_operator "op-2" "Bob" "bob@example.com" "cred-2" "{}" "[]") signing_in

abbrev challenge_at : Db → String → Option AuthChallenge
challenge_at db = tables.find {key = λ row. row.challenge_id} db.auth_challenge

delete_expired_challenges_effect_example :
    (db' : Db) × (delete_expired_challenges (at (pos 100)) signing_in ≡ ok db')
    × ((k : String) → challenge_at db' k ≡ live (pos 100) (challenge_at signing_in k))
    × (db' ≡ record signing_in { auth_challenge = db'.auth_challenge })
delete_expired_challenges_effect_example =
    delete_expired_challenges_effect (at (pos 100)) signing_in

abbrev lock : ChatBotState
lock = record {
  key = "lock";
  value_json = "1";
  kind = "lock";
  expires_at_micros = pos 0;
  created_at_micros = pos 1;
}

abbrev chatting : Db
chatting = record empty { chat_bot_state = lock ∷ [] }

abbrev ops : List (Context × Op)
ops =
    (at (pos 2), Op.put "thread" "{}" "kv" (pos 0))
    ∷ (at (pos 3), Op.put "lock" "2" "lock" (pos 9))
    ∷ (at (pos 4), Op.drop "lock")
    ∷ []

run-replay_example :
    view (run (calls_of ops) chatting) "thread" ≡ replay ops (view chatting) "thread"
run-replay_example = run-replay ops chatting "thread"
