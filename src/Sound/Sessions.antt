-- ===== src/Sound/Sessions.antt =====
-- The reducers of spacetimedb/src/lib.rs for the sessions of agents, and the invariant.
use cadet.Shared.{String, Ensures, Ensures-ok, Ensures-bind}
use cadet.Store.{Store}
use cadet.Rows.Sessions.{AgentSessionRecord}
use cadet.Db.{Db, Context}
use cadet.Reducers.Sessions.{
  create_agent_session, update_agent_session_status, record_session_turn, request_session_cancel,
  clear_session_cancel, update_agent_session_sandbox,
}
use cadet.Sound.{Sound}

module _ ⦃S : Store⦄ {db : Db} (h : Sound db) where
  sessions-Sound :
      {sessions : S.Table AgentSessionRecord (λ row. row.session_id)}
      → Sound (record db { agent_session = sessions })
  sessions-Sound = record { links = assumption h; words = assumption h }

module _ ⦃S : Store⦄ (ctx : Context) (db : Db) (h : Sound db) where
  pub create_agent_session-Sound :
      (session_id operator_id agent_id sandbox_id repo_url status : String)
      → Ensures Sound
          (create_agent_session ctx session_id operator_id agent_id sandbox_id repo_url status db)
  unfolding create_agent_session
  create_agent_session-Sound session_id operator_id agent_id sandbox_id repo_url status =
      Ensures-bind λ _ _. Ensures-bind λ _ _. Ensures-bind λ _ _. Ensures-ok (sessions-Sound h)

  pub update_agent_session_status-Sound :
      (session_id status : String)
      → Ensures Sound (update_agent_session_status ctx session_id status db)
  unfolding update_agent_session_status
  update_agent_session_status-Sound session_id status =
      Ensures-bind λ _ _. Ensures-bind λ _ _. Ensures-bind λ _ _. Ensures-ok (sessions-Sound h)

  pub record_session_turn-Sound :
      (session_id last_prompt : String)
      → Ensures Sound (record_session_turn ctx session_id last_prompt db)
  unfolding record_session_turn
  record_session_turn-Sound session_id last_prompt =
      Ensures-bind λ _ _. Ensures-bind λ _ _. Ensures-bind λ _ _. Ensures-ok (sessions-Sound h)

  pub request_session_cancel-Sound :
      (session_id : String) → Ensures Sound (request_session_cancel ctx session_id db)
  unfolding request_session_cancel
  request_session_cancel-Sound session_id =
      Ensures-bind λ _ _. Ensures-bind λ _ _. Ensures-bind λ _ _. Ensures-ok (sessions-Sound h)

  pub clear_session_cancel-Sound :
      (session_id : String) → Ensures Sound (clear_session_cancel ctx session_id db)
  unfolding clear_session_cancel
  clear_session_cancel-Sound session_id =
      Ensures-bind λ _ _. Ensures-bind λ _ _. Ensures-bind λ _ _. Ensures-ok (sessions-Sound h)

  pub update_agent_session_sandbox-Sound :
      (session_id sandbox_id : String)
      → Ensures Sound (update_agent_session_sandbox ctx session_id sandbox_id db)
  unfolding update_agent_session_sandbox
  update_agent_session_sandbox-Sound session_id sandbox_id =
      Ensures-bind λ _ _. Ensures-bind λ _ _. Ensures-bind λ _ _. Ensures-ok (sessions-Sound h)
