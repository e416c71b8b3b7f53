-- ===== src/Reducers/Accounts.antt =====
-- The reducers of spacetimedb/src/lib.rs for the configurations, tokens and credits of
-- operators.
use cadet.Shared.{String, Option, none, some, Result, ok, ◌>>=◌}
use cadet.Shared.Int.{ℤ}
use cadet.Store.{Store, upsert, delete_found}
use cadet.Text.{validate_identifier}
use cadet.Rows.Operators.{UserAgentConfig}
use cadet.Db.{Db, Context, now_micros}

module _ ⦃S : Store⦄ where
  -- The end of upsert_user_agent_config, by what the look for the row has found.
  unfoldable pub write_config :
      S.Table UserAgentConfig (λ row. row.config_id)
      → Option UserAgentConfig
      → UserAgentConfig
      → Result (S.Table UserAgentConfig (λ row. row.config_id))
  write_config t none row = S.insert t row
  write_config t (some existing) row =
      S.update t (record row { created_at_micros = existing.created_at_micros })

  unfoldable pub upsert_user_agent_config :
      Context
      → String
      → String
      → String
      → String
      → String
      → String
      → String
      → String
      → String
      → String
      → Db
      → Result Db
  upsert_user_agent_config ctx config_id operator_id agent_id display_name model_override
        api_key_encrypted repo_url repo_branch sandbox_snapshot_id extra_env_json db =
      do
        config_id ← validate_identifier config_id "config_id"
        operator_id ← validate_identifier operator_id "operator_id"
        let now = now_micros ctx
        configs ←
            write_config db.user_agent_config (S.find db.user_agent_config config_id) (record {
              config_id = config_id;
              operator_id = operator_id;
              agent_id = agent_id;
              display_name = display_name;
              model_override = model_override;
              api_key_encrypted = api_key_encrypted;
              repo_url = repo_url;
              repo_branch = repo_branch;
              sandbox_snapshot_id = sandbox_snapshot_id;
              extra_env_json = extra_env_json;
              created_at_micros = now;
              updated_at_micros = now;
            })
        ok (record db { user_agent_config = configs })

  unfoldable pub delete_user_agent_config : Context → String → Db → Result Db
  delete_user_agent_config ctx config_id db = do
    config_id ← validate_identifier config_id "config_id"
    ok (record db { user_agent_config = delete_found db.user_agent_config config_id })

  unfoldable pub upsert_operator_token :
      Context → String → String → String → String → ℤ → Db → Result Db
  upsert_operator_token ctx operator_id provider access_token_encrypted refresh_token_encrypted
        expires_at_micros db =
      do
        operator_id ← validate_identifier operator_id "operator_id"
        let now = now_micros ctx
        tokens ← upsert db.operator_token (record {
          operator_id = operator_id;
          provider = provider;
          access_token_encrypted = access_token_encrypted;
          refresh_token_encrypted = refresh_token_encrypted;
          expires_at_micros = expires_at_micros;
          updated_at_micros = now;
        })
        ok (record db { operator_token = tokens })

  unfoldable pub delete_operator_token : Context → String → Db → Result Db
  delete_operator_token ctx operator_id db = do
    operator_id ← validate_identifier operator_id "operator_id"
    ok (record db { operator_token = delete_found db.operator_token operator_id })

  unfoldable pub upsert_operator_credits :
      Context
      → String
      → String
      → S.f64.Carrier
      → S.f64.Carrier
      → S.f64.Carrier
      → String
      → Db
      → Result Db
  upsert_operator_credits ctx operator_id provider credits_balance credits_used affiliate_earnings
        wallet_address db =
      do
        let now = now_micros ctx
        credits ← upsert db.operator_credits (record {
          operator_id = operator_id;
          provider = provider;
          credits_balance = credits_balance;
          credits_used = credits_used;
          affiliate_earnings = affiliate_earnings;
          wallet_address = wallet_address;
          last_synced_at_micros = now;
        })
        ok (record db { operator_credits = credits })
