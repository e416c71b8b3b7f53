-- ===== src/Sound/Skills.antt =====
-- The reducers of spacetimedb/src/lib.rs for the skills and hooks of agents, and the
-- invariant.
use cadet.Shared.{String, ℕ, Bool, Ensures, Ensures-ok, Ensures-bind}
use cadet.Store.{Store}
use cadet.Rows.Skills.{AgentSkill, AgentHook}
use cadet.Db.{Db, Context}
use cadet.Reducers.Skills.{
  upsert_agent_skill, delete_agent_skill, create_agent_hook, toggle_agent_hook, delete_agent_hook,
}
use cadet.Sound.{Sound}

module _ ⦃S : Store⦄ {db : Db} (h : Sound db) where
  agent_skill-Sound :
      {t0 : S.Table AgentSkill (λ row. row.skill_id)} → Sound (record db { agent_skill = t0 })
  agent_skill-Sound = record { links = assumption h; words = assumption h }

  agent_hook-Sound :
      {t0 : S.Table AgentHook (λ row. row.hook_id)} → Sound (record db { agent_hook = t0 })
  agent_hook-Sound = record { links = assumption h; words = assumption h }

module _ ⦃S : Store⦄ (ctx : Context) (db : Db) (h : Sound db) where
  pub upsert_agent_skill-Sound :
      (skill_id name description category version author : String) (token_estimate : ℕ)
      (content activation_patterns_json source : String)
      → Ensures Sound (
          upsert_agent_skill ctx skill_id name description category version author token_estimate
            content activation_patterns_json source db)
  unfolding upsert_agent_skill
  upsert_agent_skill-Sound skill_id name description category version author token_estimate content
        activation_patterns_json source =
      Ensures-bind λ _ _. Ensures-ok (agent_skill-Sound h)

  pub delete_agent_skill-Sound :
      (skill_id : String) → Ensures Sound (delete_agent_skill ctx skill_id db)
  unfolding delete_agent_skill
  delete_agent_skill-Sound skill_id = Ensures-ok (agent_skill-Sound h)

  pub create_agent_hook-Sound :
      (hook_id event name description handler : String) (enabled : Bool) (priority : ℕ)
      (operator_id : String)
      → Ensures Sound (
          create_agent_hook ctx hook_id event name description handler enabled priority operator_id
            db)
  unfolding create_agent_hook
  create_agent_hook-Sound hook_id event name description handler enabled priority operator_id =
      Ensures-bind λ _ _. Ensures-ok (agent_hook-Sound h)

  pub toggle_agent_hook-Sound :
      (hook_id : String) (enabled : Bool) → Ensures Sound (toggle_agent_hook ctx hook_id enabled db)
  unfolding toggle_agent_hook
  toggle_agent_hook-Sound hook_id enabled =
      Ensures-bind λ _ _. Ensures-bind λ _ _. Ensures-ok (agent_hook-Sound h)

  pub delete_agent_hook-Sound :
      (hook_id : String) → Ensures Sound (delete_agent_hook ctx hook_id db)
  unfolding delete_agent_hook
  delete_agent_hook-Sound hook_id = Ensures-ok (agent_hook-Sound h)
