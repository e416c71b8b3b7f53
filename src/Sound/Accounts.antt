-- ===== src/Sound/Accounts.antt =====
-- The reducers of spacetimedb/src/lib.rs for the configurations, tokens and credits of operators, and the
-- invariant.
use cadet.Shared.{String, Ensures, Ensures-ok, Ensures-bind}
use cadet.Shared.Int.{ℤ}
use cadet.Store.{Store}
use cadet.Rows.Operators.{UserAgentConfig, OperatorCredits, OperatorToken}
use cadet.Db.{Db, Context}
use cadet.Reducers.Accounts.{
  upsert_user_agent_config, delete_user_agent_config, upsert_operator_token, delete_operator_token,
  upsert_operator_credits,
}
use cadet.Sound.{Sound}

module _ ⦃S : Store⦄ {db : Db} (h : Sound db) where
  user_agent_config-Sound :
      {t0 : S.Table UserAgentConfig (λ row. row.config_id)}
      → Sound (record db { user_agent_config = t0 })
  user_agent_config-Sound = record { links = assumption h; words = assumption h }

  operator_token-Sound :
      {t0 : S.Table OperatorToken (λ row. row.operator_id)}
      → Sound (record db { operator_token = t0 })
  operator_token-Sound = record { links = assumption h; words = assumption h }

  operator_credits-Sound :
      {t0 : S.Table OperatorCredits (λ row. row.operator_id)}
      → Sound (record db { operator_credits = t0 })
  operator_credits-Sound = record { links = assumption h; words = assumption h }

module _ ⦃S : Store⦄ (ctx : Context) (db : Db) (h : Sound db) where
  pub upsert_user_agent_config-Sound :
      (config_id operator_id agent_id display_name model_override api_key_encrypted repo_url
        repo_branch sandbox_snapshot_id extra_env_json : String)
      → Ensures Sound (
          upsert_user_agent_config ctx config_id operator_id agent_id display_name model_override
            api_key_encrypted repo_url repo_branch sandbox_snapshot_id extra_env_json db)
  unfolding upsert_user_agent_config
  upsert_user_agent_config-Sound config_id operator_id agent_id display_name model_override
        api_key_encrypted repo_url repo_branch sandbox_snapshot_id extra_env_json =
      Ensures-bind
        λ _ _. Ensures-bind λ _ _. Ensures-bind λ _ _. Ensures-ok (user_agent_config-Sound h)

  pub delete_user_agent_config-Sound :
      (config_id : String) → Ensures Sound (delete_user_agent_config ctx config_id db)
  unfolding delete_user_agent_config
  delete_user_agent_config-Sound config_id =
      Ensures-bind λ _ _. Ensures-ok (user_agent_config-Sound h)

  pub upsert_operator_token-Sound :
      (operator_id provider access_token_encrypted refresh_token_encrypted : String)
      (expires_at_micros : ℤ)
      → Ensures Sound (
          upsert_operator_token ctx operator_id provider access_token_encrypted
            refresh_token_encrypted expires_at_micros db)
  unfolding upsert_operator_token
  upsert_operator_token-Sound operator_id provider access_token_encrypted refresh_token_encrypted
        expires_at_micros =
      Ensures-bind λ _ _. Ensures-bind λ _ _. Ensures-ok (operator_token-Sound h)

  pub delete_operator_token-Sound :
      (operator_id : String) → Ensures Sound (delete_operator_token ctx operator_id db)
  unfolding delete_operator_token
  delete_operator_token-Sound operator_id = Ensures-bind λ _ _. Ensures-ok (operator_token-Sound h)

  pub upsert_operator_credits-Sound :
      (operator_id provider : String)
      (credits_balance credits_used affiliate_earnings : S.f64.Carrier) (wallet_address : String)
      → Ensures Sound (
          upsert_operator_credits ctx operator_id provider credits_balance credits_used
            affiliate_earnings wallet_address db)
  unfolding upsert_operator_credits
  upsert_operator_credits-Sound operator_id provider credits_balance credits_used affiliate_earnings
        wallet_address =
      Ensures-bind λ _ _. Ensures-ok (operator_credits-Sound h)
