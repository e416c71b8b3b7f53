-- ===== src/Reducers/Operators.antt =====
-- The reducers of spacetimedb/src/lib.rs for operators, their credentials and challenges.
use Prim.Native.String.{◌++◌}
use cadet.Shared.{
  String, ℕ, Option, none, some, List, [], ◌∷◌, Result, ok, ◌>>=◌, or_err, if◌then◌else◌,
}
use cadet.Shared.Int.{ℤ, ltb_ℤ}
use cadet.Store.{Store, delete_all}
use cadet.Text.{validate_identifier, validate_text}
use cadet.Rows.Operators.{AuthChallenge}
use cadet.Db.{Db, Context, now_micros}

-- The ids of the challenges of a list that end before a time.
unfoldable pub expired_ids : ℤ → List AuthChallenge → List String
expired_ids now [] = []
expired_ids now (c ∷ challenges) =
    let rest = expired_ids now challenges in
    if ltb_ℤ c.expires_at_micros now then c.challenge_id ∷ rest else rest

module _ ⦃S : Store⦄ where
  unfoldable pub create_auth_challenge :
      Context → String → String → Option String → ℤ → Db → Result Db
  create_auth_challenge ctx challenge_id challenge operator_id expires_at_micros db = do
    challenge_id ← validate_identifier challenge_id "challenge_id"
    challenge ← validate_identifier challenge "challenge"
    challenges ← S.insert db.auth_challenge (record {
      challenge_id = challenge_id;
      challenge = challenge;
      operator_id = operator_id;
      expires_at_micros = expires_at_micros;
    })
    ok (record db { auth_challenge = challenges })

  unfoldable pub register_operator :
      Context → String → String → String → String → String → String → Db → Result Db
  register_operator ctx operator_id display_name email credential_id public_key_json transports_json
        db =
      do
        operator_id ← validate_identifier operator_id "operator_id"
        display_name ← validate_text display_name "display_name"
        email ← validate_text email "email"
        credential_id ← validate_identifier credential_id "credential_id"
        accounts ← S.insert db.operator_account (record {
          operator_id = operator_id;
          identity = ctx.sender;
          display_name = display_name;
          email = email;
          role = "operator";
          ssh_public_key = none;
          created_at = ctx.timestamp;
          updated_at = ctx.timestamp;
        })
        credentials ← S.insert db.webauthn_credential (record {
          credential_id = credential_id;
          operator_id = operator_id;
          public_key_json = public_key_json;
          counter = 0;
          transports_json = transports_json;
          created_at = ctx.timestamp;
        })
        ok (record db { operator_account = accounts; webauthn_credential = credentials })

  unfoldable pub store_operator_ssh_key : Context → String → String → Db → Result Db
  store_operator_ssh_key ctx operator_id ssh_public_key db = do
    operator_id ← validate_identifier operator_id "operator_id"
    ssh_public_key ← validate_text ssh_public_key "ssh_public_key"
    existing ← or_err (S.find db.operator_account operator_id) ("Operator not found")
    accounts ←
        S.update db.operator_account
          (record existing { ssh_public_key = some ssh_public_key; updated_at = ctx.timestamp })
    ok (record db { operator_account = accounts })

  unfoldable pub update_webauthn_counter : Context → String → ℕ → Db → Result Db
  update_webauthn_counter ctx credential_id new_counter db = do
    credential_id ← validate_identifier credential_id "credential_id"
    existing ←
        or_err (S.find db.webauthn_credential credential_id)
          ("Credential " ++ credential_id ++ " not found")
    credentials ← S.update db.webauthn_credential (record existing { counter = new_counter })
    ok (record db { webauthn_credential = credentials })

  unfoldable pub delete_auth_challenge : Context → String → Db → Result Db
  delete_auth_challenge ctx challenge_id db = do
    challenge_id ← validate_identifier challenge_id "challenge_id"
    ok (record db { auth_challenge = S.delete db.auth_challenge challenge_id })

  unfoldable pub delete_expired_challenges : Context → Db → Result Db
  delete_expired_challenges ctx db = do
    ok (record db {
      auth_challenge =
          delete_all (expired_ids (now_micros ctx) (S.iter db.auth_challenge)) db.auth_challenge;
    })
