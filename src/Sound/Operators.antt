-- ===== src/Sound/Operators.antt =====
-- The reducers of spacetimedb/src/lib.rs for operators, their credentials and challenges, and the
-- invariant.
use cadet.Shared.{String, ℕ, Option, Ensures, Ensures-ok, Ensures-bind}
use cadet.Shared.Int.{ℤ}
use cadet.Store.{Store}
use cadet.Rows.Operators.{OperatorAccount, WebAuthnCredential, AuthChallenge}
use cadet.Db.{Db, Context}
use cadet.Reducers.Operators.{
  create_auth_challenge, register_operator, store_operator_ssh_key, update_webauthn_counter,
  delete_auth_challenge, delete_expired_challenges,
}
use cadet.Sound.{Sound}

module _ ⦃S : Store⦄ {db : Db} (h : Sound db) where
  auth_challenge-Sound :
      {t0 : S.Table AuthChallenge (λ row. row.challenge_id)}
      → Sound (record db { auth_challenge = t0 })
  auth_challenge-Sound = record { links = assumption h; words = assumption h }

  operator_account_and_webauthn_credential-Sound :
      {t0 : S.Table OperatorAccount (λ row. row.operator_id)}
      {t1 : S.Table WebAuthnCredential (λ row. row.credential_id)}
      → Sound (record db { operator_account = t0; webauthn_credential = t1 })
  operator_account_and_webauthn_credential-Sound = record {
    links = assumption h;
    words = assumption h;
  }

  operator_account-Sound :
      {t0 : S.Table OperatorAccount (λ row. row.operator_id)}
      → Sound (record db { operator_account = t0 })
  operator_account-Sound = record { links = assumption h; words = assumption h }

  webauthn_credential-Sound :
      {t0 : S.Table WebAuthnCredential (λ row. row.credential_id)}
      → Sound (record db { webauthn_credential = t0 })
  webauthn_credential-Sound = record { links = assumption h; words = assumption h }

module _ ⦃S : Store⦄ (ctx : Context) (db : Db) (h : Sound db) where
  pub create_auth_challenge-Sound :
      (challenge_id challenge : String) (operator_id : Option String) (expires_at_micros : ℤ)
      → Ensures Sound
          (create_auth_challenge ctx challenge_id challenge operator_id expires_at_micros db)
  unfolding create_auth_challenge
  create_auth_challenge-Sound challenge_id challenge operator_id expires_at_micros =
      Ensures-bind
        λ _ _. Ensures-bind λ _ _. Ensures-bind λ _ _. Ensures-ok (auth_challenge-Sound h)

  pub register_operator-Sound :
      (operator_id display_name email credential_id public_key_json transports_json : String)
      → Ensures Sound (
          register_operator ctx operator_id display_name email credential_id public_key_json
            transports_json db)
  unfolding register_operator
  register_operator-Sound operator_id display_name email credential_id public_key_json
        transports_json =
      Ensures-bind λ _ _. Ensures-bind λ _ _. Ensures-bind λ _ _. Ensures-bind λ _ _.
        Ensures-bind
          λ _ _. Ensures-bind λ _ _. Ensures-ok (operator_account_and_webauthn_credential-Sound h)

  pub store_operator_ssh_key-Sound :
      (operator_id ssh_public_key : String)
      → Ensures Sound (store_operator_ssh_key ctx operator_id ssh_public_key db)
  unfolding store_operator_ssh_key
  store_operator_ssh_key-Sound operator_id ssh_public_key = Ensures-bind λ _ _.
      Ensures-bind
        λ _ _. Ensures-bind λ _ _. Ensures-bind λ _ _. Ensures-ok (operator_account-Sound h)

  pub update_webauthn_counter-Sound :
      (credential_id : String) (new_counter : ℕ)
      → Ensures Sound (update_webauthn_counter ctx credential_id new_counter db)
  unfolding update_webauthn_counter
  update_webauthn_counter-Sound credential_id new_counter =
      Ensures-bind
        λ _ _. Ensures-bind λ _ _. Ensures-bind λ _ _. Ensures-ok (webauthn_credential-Sound h)

  pub delete_auth_challenge-Sound :
      (challenge_id : String) → Ensures Sound (delete_auth_challenge ctx challenge_id db)
  unfolding delete_auth_challenge
  delete_auth_challenge-Sound challenge_id = Ensures-bind λ _ _. Ensures-ok (auth_challenge-Sound h)

  pub delete_expired_challenges-Sound : Ensures Sound (delete_expired_challenges ctx db)
  unfolding delete_expired_challenges
  delete_expired_challenges-Sound = Ensures-ok (auth_challenge-Sound h)
