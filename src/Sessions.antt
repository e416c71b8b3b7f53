-- ===== src/Sessions.antt =====
-- The sessions of agents in spacetimedb/src/lib.rs: a requested cancellation.
pub mod Cancel
use cadet.Shared.{String, ◌≡◌, ◌≢◌, true, some, none, List, [], ◌∷◌}
use cadet.Store.{Store}
use cadet.Text.{trim}
use cadet.Rows.Sessions.{AgentSessionRecord}
use cadet.Db.{Db, Context}
use cadet.System.{Call}

-- A call of a reducer that changes a session, with the arguments of the reducer.
pub data Edit : Type 0 where
  status sandbox turn : String → String → Edit
  request clear : String → Edit

module _ ⦃S : Store⦄ where
  abbrev pub call_of : Edit → Call
  call_of (status id s) = Call.update_agent_session_status id s
  call_of (sandbox id s) = Call.update_agent_session_sandbox id s
  call_of (turn id prompt) = Call.record_session_turn id prompt
  call_of (request id) = Call.request_session_cancel id
  call_of (clear id) = Call.clear_session_cancel id

  abbrev pub calls_of {ℓ} : {C : Type ℓ} → List (C × Edit) → List (C × Call)
  calls_of [] = []
  calls_of ((ctx, edit) ∷ edits) = (ctx, call_of edit) ∷ calls_of edits

-- The call is no turn of this session, and no clearing of its flag.
abbrev pub Spares : String → Edit → Type 0
Spares id (turn id' prompt) = trim id' ≢ id
Spares id (clear id') = trim id' ≢ id
Spares id _ = Unit

abbrev pub AllSpare {ℓ} : {C : Type ℓ} → String → List (C × Edit) → Type 0
AllSpare id [] = Unit
AllSpare id ((ctx, edit) ∷ edits) = Spares id edit × AllSpare id edits

module _ ⦃S : Store⦄ where
  -- The session is there, and is to be cancelled.
  pub record Pending (id : String) (db : Db) : Type 0 where
    pub row : AgentSessionRecord
    pub found : S.find db.agent_session id ≡ some row
    pub flagged : row.cancel_requested ≡ true
