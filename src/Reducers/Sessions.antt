-- ===== src/Reducers/Sessions.antt =====
-- The reducers of spacetimedb/src/lib.rs for the sessions of agents. The argument `_timestamp_ms` of
-- each is not used by the source, and is left out.
use Prim.Native.String.{◌++◌}
use cadet.Shared.{String, ℕ, ◌+◌, ◌%◌, ◌^◌, true, false, Result, ok, ◌>>=◌, or_err}
use cadet.Store.{Store}
use cadet.Text.{validate_identifier}
use cadet.Db.{Db, Context, now_micros}

-- `n + 1` of a `u32`, as a release build has it.
unfoldable pub u32_inc : ℕ → ℕ
u32_inc n = (n + 1) % 2 ^ 32

module _ ⦃S : Store⦄ where
  unfoldable pub create_agent_session :
      Context → String → String → String → String → String → String → Db → Result Db
  create_agent_session ctx session_id operator_id agent_id sandbox_id repo_url status db = do
    session_id ← validate_identifier session_id "session_id"
    operator_id ← validate_identifier operator_id "operator_id"
    let now = now_micros ctx
    sessions ← S.insert db.agent_session (record {
      session_id = session_id;
      operator_id = operator_id;
      agent_id = agent_id;
      sandbox_id = sandbox_id;
      repo_url = repo_url;
      status = status;
      cancel_requested = false;
      turn_count = 0;
      last_prompt = "";
      created_at_micros = now;
      updated_at_micros = now;
    })
    ok (record db { agent_session = sessions })

  unfoldable pub update_agent_session_status : Context → String → String → Db → Result Db
  update_agent_session_status ctx session_id status db = do
    session_id ← validate_identifier session_id "session_id"
    let now = now_micros ctx
    existing ←
        or_err (S.find db.agent_session session_id) ("Session " ++ session_id ++ " not found")
    sessions ←
        S.update db.agent_session (record existing { status = status; updated_at_micros = now })
    ok (record db { agent_session = sessions })

  unfoldable pub record_session_turn : Context → String → String → Db → Result Db
  record_session_turn ctx session_id last_prompt db = do
    session_id ← validate_identifier session_id "session_id"
    let now = now_micros ctx
    existing ←
        or_err (S.find db.agent_session session_id) ("Session " ++ session_id ++ " not found")
    sessions ← S.update db.agent_session (record existing {
      turn_count = u32_inc existing.turn_count;
      last_prompt = last_prompt;
      cancel_requested = false;
      updated_at_micros = now;
    })
    ok (record db { agent_session = sessions })

  unfoldable pub request_session_cancel : Context → String → Db → Result Db
  request_session_cancel ctx session_id db = do
    session_id ← validate_identifier session_id "session_id"
    let now = now_micros ctx
    existing ←
        or_err (S.find db.agent_session session_id) ("Session " ++ session_id ++ " not found")
    sessions ←
        S.update db.agent_session
          (record existing { cancel_requested = true; updated_at_micros = now })
    ok (record db { agent_session = sessions })

  unfoldable pub clear_session_cancel : Context → String → Db → Result Db
  clear_session_cancel ctx session_id db = do
    session_id ← validate_identifier session_id "session_id"
    let now = now_micros ctx
    existing ←
        or_err (S.find db.agent_session session_id) ("Session " ++ session_id ++ " not found")
    sessions ←
        S.update db.agent_session
          (record existing { cancel_requested = false; updated_at_micros = now })
    ok (record db { agent_session = sessions })

  unfoldable pub update_agent_session_sandbox : Context → String → String → Db → Result Db
  update_agent_session_sandbox ctx session_id sandbox_id db = do
    session_id ← validate_identifier session_id "session_id"
    let now = now_micros ctx
    existing ←
        or_err (S.find db.agent_session session_id) ("Session " ++ session_id ++ " not found")
    sessions ←
        S.update db.agent_session
          (record existing { sandbox_id = sandbox_id; updated_at_micros = now })
    ok (record db { agent_session = sessions })
