-- ===== src/Rows/Operators.antt =====
-- Rows of spacetimedb/src/lib.rs: operators, their credentials, tokens, credits and
-- configurations. An `i64` or a `Timestamp` is an integer (microseconds), a `u32` or a `u64` a
-- natural number, an `f32` or an `f64` a number of the interface.
use cadet.Shared.{ℕ, String, Option}
use cadet.Shared.Int.{ℤ}
use cadet.Store.{Store}

module _ ⦃S : Store⦄ where
  pub record OperatorAccount : Type 0 where
    pub operator_id : String
    pub identity : S.Identity
    pub display_name : String
    pub email : String
    pub role : String
    pub ssh_public_key : Option String
    pub created_at : ℤ
    pub updated_at : ℤ

pub record WebAuthnCredential : Type 0 where
  pub credential_id : String
  pub operator_id : String
  pub public_key_json : String
  pub counter : ℕ
  pub transports_json : String
  pub created_at : ℤ

pub record AuthChallenge : Type 0 where
  pub challenge_id : String
  pub challenge : String
  pub operator_id : Option String
  pub expires_at_micros : ℤ

pub record UserAgentConfig : Type 0 where
  pub config_id : String
  pub operator_id : String
  pub agent_id : String
  pub display_name : String
  pub model_override : String
  pub api_key_encrypted : String
  pub repo_url : String
  pub repo_branch : String
  pub sandbox_snapshot_id : String
  pub extra_env_json : String
  pub created_at_micros : ℤ
  pub updated_at_micros : ℤ

module _ ⦃S : Store⦄ where
  pub record OperatorCredits : Type 0 where
    pub operator_id : String
    pub provider : String
    pub credits_balance : S.f64.Carrier
    pub credits_used : S.f64.Carrier
    pub affiliate_earnings : S.f64.Carrier
    pub wallet_address : String
    pub last_synced_at_micros : ℤ

pub record OperatorToken : Type 0 where
  pub operator_id : String
  pub provider : String
  pub access_token_encrypted : String
  pub refresh_token_encrypted : String
  pub expires_at_micros : ℤ
  pub updated_at_micros : ℤ
