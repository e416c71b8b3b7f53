-- ===== src/Reducers/Skills.antt =====
-- The reducers of spacetimedb/src/lib.rs for the skills and hooks of agents. The argument
-- `_timestamp_ms`, where there is one, is not used by the source and is left out.
use Prim.Native.String.{◌++◌}
use cadet.Shared.{
  String, ℕ, Bool, Option, none, some, Result, ok, ◌>>=◌, or_err, is_some, if◌then◌else◌,
}
use cadet.Store.{Store}
use cadet.Rows.Skills.{AgentSkill}
use cadet.Db.{Db, Context, now_micros}

module _ ⦃S : Store⦄ where
  -- The writes of upsert_agent_skill, by what the look for the row has found.
  unfoldable pub write_skill :
      S.Table AgentSkill (λ row. row.skill_id)
      → Option AgentSkill
      → AgentSkill
      → Result (S.Table AgentSkill (λ row. row.skill_id))
  write_skill t none row = S.insert t row
  write_skill t (some existing) row =
      S.update t (record row {
        skill_id = existing.skill_id;
        created_at_micros = existing.created_at_micros;
      })

  unfoldable pub upsert_agent_skill :
      Context
      → String
      → String
      → String
      → String
      → String
      → String
      → ℕ
      → String
      → String
      → String
      → Db
      → Result Db
  upsert_agent_skill ctx skill_id name description category version author token_estimate content
        activation_patterns_json source db =
      do
        let now = now_micros ctx
        skills ← write_skill db.agent_skill (S.find db.agent_skill skill_id) (record {
          skill_id = skill_id;
          name = name;
          description = description;
          category = category;
          version = version;
          author = author;
          token_estimate = token_estimate;
          content = content;
          activation_patterns_json = activation_patterns_json;
          source = source;
          created_at_micros = now;
          updated_at_micros = now;
        })
        ok (record db { agent_skill = skills })

  unfoldable pub delete_agent_skill : Context → String → Db → Result Db
  delete_agent_skill ctx skill_id db = do
    ok (record db {
      agent_skill =
          if is_some (S.find db.agent_skill skill_id)
          then S.delete db.agent_skill skill_id
          else db.agent_skill;
    })

  unfoldable pub create_agent_hook :
      Context → String → String → String → String → String → Bool → ℕ → String → Db → Result Db
  create_agent_hook ctx hook_id event name description handler enabled priority operator_id db = do
    let now = now_micros ctx
    hooks ← S.insert db.agent_hook (record {
      hook_id = hook_id;
      event = event;
      name = name;
      description = description;
      handler = handler;
      enabled = enabled;
      priority = priority;
      operator_id = operator_id;
      created_at_micros = now;
      updated_at_micros = now;
    })
    ok (record db { agent_hook = hooks })

  unfoldable pub toggle_agent_hook : Context → String → Bool → Db → Result Db
  toggle_agent_hook ctx hook_id enabled db = do
    let now = now_micros ctx
    existing ← or_err (S.find db.agent_hook hook_id) ("Hook " ++ hook_id ++ " not found")
    hooks ← S.update db.agent_hook (record existing { enabled = enabled; updated_at_micros = now })
    ok (record db { agent_hook = hooks })

  unfoldable pub delete_agent_hook : Context → String → Db → Result Db
  delete_agent_hook ctx hook_id db = do
    ok (record db {
      agent_hook =
          if is_some (S.find db.agent_hook hook_id)
          then S.delete db.agent_hook hook_id
          else db.agent_hook;
    })
