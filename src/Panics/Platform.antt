-- ===== src/Panics/Platform.antt =====
-- The reducers of spacetimedb/src/lib.rs for operators, messages, training, chats, sandboxes, skills
-- and hooks that look before they write, one by one.
use cadet.Shared.{String, ◌≡◌, refl, sym, ◌∙◌, Bool, ℕ, Option, Option-cases, inl, inr, arith}
use cadet.Shared.Int.{ℤ}
use cadet.Store.{Store}
use cadet.Rows.Operators.{UserAgentConfig}
use cadet.Rows.Skills.{AgentSkill}
use cadet.Db.{Db, Context}
use cadet.Reducers.Operators.{
  store_operator_ssh_key, update_webauthn_counter, delete_auth_challenge, delete_expired_challenges,
}
use cadet.Reducers.Accounts.{
  write_config, upsert_user_agent_config, delete_user_agent_config, upsert_operator_token,
  delete_operator_token, upsert_operator_credits,
}
use cadet.Reducers.Bus.{upsert_message_entity, set_message_route, update_message_status}
use cadet.Reducers.Training.{
  validate_training_status, consume_training_buffer, update_training_run_status,
}
use cadet.Reducers.Chat.{upsert_chat_bot_state, delete_chat_bot_state}
use cadet.Reducers.Sandboxes.{validate_sandbox_status, update_sandbox_status, delete_sandbox}
use cadet.Reducers.Skills.{
  write_skill, upsert_agent_skill, delete_agent_skill, toggle_agent_hook, delete_agent_hook,
}
use cadet.Panics.Rules.{Calm, Calm-bind, Calm-ok, calm_checks, Calm-update, Calm-insert}

module _ ⦃S : Store⦄ where
  Calm-write_config :
      (t : S.Table UserAgentConfig (λ row. row.config_id)) (new : UserAgentConfig) (k : String)
      → new.config_id ≡ k
      → Calm (write_config t (S.find t k) new)
  unfolding write_config
  Calm-write_config t new k same = elim (Option-cases (S.find t k)) [
    | inl missing ↦ rw missing (Calm-insert (rw same missing))
    | inr (old, present) ↦
        rw present (Calm-update present (same ∙ sym (S.find-key t k old present)))
  ]

  Calm-write_skill :
      (t : S.Table AgentSkill (λ row. row.skill_id)) (new : AgentSkill) (k : String)
      → new.skill_id ≡ k
      → Calm (write_skill t (S.find t k) new)
  unfolding write_skill
  Calm-write_skill t new k same = elim (Option-cases (S.find t k)) [
    | inl missing ↦ rw missing (Calm-insert (rw same missing))
    | inr (old, present) ↦ rw present (Calm-update present (refl))
  ]

pub Calm-validate_training_status : (value : String) → Calm (validate_training_status value)
unfolding validate_training_status
Calm-validate_training_status value = record { at = λ e. ground arith }

pub Calm-validate_sandbox_status : (value : String) → Calm (validate_sandbox_status value)
unfolding validate_sandbox_status
Calm-validate_sandbox_status value = record { at = λ e. ground arith }

module _ ⦃S : Store⦄ (ctx : Context) (db : Db) where
  pub store_operator_ssh_key-Calm :
      (operator_id ssh_public_key : String)
      → Calm (store_operator_ssh_key ctx operator_id ssh_public_key db)
  unfolding store_operator_ssh_key
  store_operator_ssh_key-Calm operator_id ssh_public_key = search (Calm-bind, calm_checks) depth 30

  pub update_webauthn_counter-Calm :
      (credential_id : String) (new_counter : ℕ)
      → Calm (update_webauthn_counter ctx credential_id new_counter db)
  unfolding update_webauthn_counter
  update_webauthn_counter-Calm credential_id new_counter = search (Calm-bind, calm_checks) depth 30

  pub delete_auth_challenge-Calm :
      (challenge_id : String) → Calm (delete_auth_challenge ctx challenge_id db)
  unfolding delete_auth_challenge
  delete_auth_challenge-Calm challenge_id = search (Calm-bind, calm_checks) depth 30

  pub delete_expired_challenges-Calm : Calm (delete_expired_challenges ctx db)
  unfolding delete_expired_challenges
  delete_expired_challenges-Calm = Calm-ok

  pub upsert_user_agent_config-Calm :
      (config_id operator_id agent_id display_name model_override api_key_encrypted repo_url
        repo_branch sandbox_snapshot_id extra_env_json : String)
      → Calm (
          upsert_user_agent_config ctx config_id operator_id agent_id display_name model_override
            api_key_encrypted repo_url repo_branch sandbox_snapshot_id extra_env_json db)
  unfolding upsert_user_agent_config
  upsert_user_agent_config-Calm config_id operator_id agent_id display_name model_override
        api_key_encrypted repo_url repo_branch sandbox_snapshot_id extra_env_json =
      search (Calm-bind, Calm-write_config, calm_checks) depth 30

  pub delete_user_agent_config-Calm :
      (config_id : String) → Calm (delete_user_agent_config ctx config_id db)
  unfolding delete_user_agent_config
  delete_user_agent_config-Calm config_id = search (Calm-bind, calm_checks) depth 30

  pub upsert_operator_token-Calm :
      (operator_id provider access_token_encrypted refresh_token_encrypted : String)
      (expires_at_micros : ℤ)
      → Calm (
          upsert_operator_token ctx operator_id provider access_token_encrypted
            refresh_token_encrypted expires_at_micros db)
  unfolding upsert_operator_token
  upsert_operator_token-Calm operator_id provider access_token_encrypted refresh_token_encrypted
        expires_at_micros =
      search (Calm-bind, calm_checks) depth 30

  pub delete_operator_token-Calm :
      (operator_id : String) → Calm (delete_operator_token ctx operator_id db)
  unfolding delete_operator_token
  delete_operator_token-Calm operator_id = search (Calm-bind, calm_checks) depth 30

  pub upsert_operator_credits-Calm :
      (operator_id provider : String)
      (credits_balance credits_used affiliate_earnings : S.f64.Carrier) (wallet_address : String)
      → Calm (
          upsert_operator_credits ctx operator_id provider credits_balance credits_used
            affiliate_earnings wallet_address db)
  unfolding upsert_operator_credits
  upsert_operator_credits-Calm operator_id provider credits_balance credits_used affiliate_earnings
        wallet_address =
      search (Calm-bind, calm_checks) depth 30

  pub upsert_message_entity-Calm :
      (entity_id entity_type display_name : String)
      (slack_user_id discord_user_id github_username telegram_user_id email_address operator_id
        agent_id : Option String)
      (metadata_json : String)
      → Calm (
          upsert_message_entity ctx entity_id entity_type display_name slack_user_id discord_user_id
            github_username telegram_user_id email_address operator_id agent_id metadata_json db)
  unfolding upsert_message_entity
  upsert_message_entity-Calm entity_id entity_type display_name slack_user_id discord_user_id
        github_username telegram_user_id email_address operator_id agent_id metadata_json =
      search (Calm-bind, calm_checks) depth 30

  pub set_message_route-Calm :
      (route_id channel entity_type keyword_pattern target_agent_id : String) (priority : ℕ)
      (enabled : Bool)
      → Calm (
          set_message_route ctx route_id channel entity_type keyword_pattern target_agent_id
            priority enabled db)
  unfolding set_message_route
  set_message_route-Calm route_id channel entity_type keyword_pattern target_agent_id priority
        enabled =
      search (Calm-bind, calm_checks) depth 30

  pub update_message_status-Calm :
      (message_id status : String) → Calm (update_message_status ctx message_id status db)
  unfolding update_message_status
  update_message_status-Calm message_id status = search (Calm-bind, calm_checks) depth 30

  pub consume_training_buffer-Calm :
      (buffer_id : String) → Calm (consume_training_buffer ctx buffer_id db)
  unfolding consume_training_buffer
  consume_training_buffer-Calm buffer_id = search (Calm-bind, calm_checks) depth 30

  pub update_training_run_status-Calm :
      (training_id status : String) (final_loss : S.f32.Carrier) (duration_seconds : ℕ)
      → Calm (update_training_run_status ctx training_id status final_loss duration_seconds db)
  unfolding update_training_run_status
  update_training_run_status-Calm training_id status final_loss duration_seconds =
      search (Calm-bind, Calm-validate_training_status, calm_checks) depth 30

  pub upsert_chat_bot_state-Calm :
      (key value_json kind : String) (expires_at_micros : ℤ)
      → Calm (upsert_chat_bot_state ctx key value_json kind expires_at_micros db)
  unfolding upsert_chat_bot_state
  upsert_chat_bot_state-Calm key value_json kind expires_at_micros =
      search (Calm-bind, calm_checks) depth 30

  pub delete_chat_bot_state-Calm : (key : String) → Calm (delete_chat_bot_state ctx key db)
  unfolding delete_chat_bot_state
  delete_chat_bot_state-Calm key = Calm-ok

  pub update_sandbox_status-Calm :
      (sandbox_id status metadata_json : String)
      → Calm (update_sandbox_status ctx sandbox_id status metadata_json db)
  unfolding update_sandbox_status
  update_sandbox_status-Calm sandbox_id status metadata_json =
      search (Calm-bind, Calm-validate_sandbox_status, calm_checks) depth 30

  pub delete_sandbox-Calm : (sandbox_id : String) → Calm (delete_sandbox ctx sandbox_id db)
  unfolding delete_sandbox
  delete_sandbox-Calm sandbox_id = search (Calm-bind, calm_checks) depth 30

  pub upsert_agent_skill-Calm :
      (skill_id name description category version author : String) (token_estimate : ℕ)
      (content activation_patterns_json source : String)
      → Calm (
          upsert_agent_skill ctx skill_id name description category version author token_estimate
            content activation_patterns_json source db)
  unfolding upsert_agent_skill
  upsert_agent_skill-Calm skill_id name description category version author token_estimate content
        activation_patterns_json source =
      search (Calm-bind, Calm-write_skill, calm_checks) depth 30

  pub delete_agent_skill-Calm : (skill_id : String) → Calm (delete_agent_skill ctx skill_id db)
  unfolding delete_agent_skill
  delete_agent_skill-Calm skill_id = Calm-ok

  pub toggle_agent_hook-Calm :
      (hook_id : String) (enabled : Bool) → Calm (toggle_agent_hook ctx hook_id enabled db)
  unfolding toggle_agent_hook
  toggle_agent_hook-Calm hook_id enabled = search (Calm-bind, calm_checks) depth 30

  pub delete_agent_hook-Calm : (hook_id : String) → Calm (delete_agent_hook ctx hook_id db)
  unfolding delete_agent_hook
  delete_agent_hook-Calm hook_id = Calm-ok
