-- ===== src/Sessions/Cancel.antt =====
-- The flag of a session under the calls that change sessions.
use cadet.Shared.{
  String, ◌≡◌, ◌≢◌, refl, sym, ◌∙◌, ap, true, some, ok, err, panicked, Result, List, [], ◌∷◌, ◌==◌,
  eq_iff, Bool-cases, inl, inr, arith, Ensures, Ensures-ok, Ensures-bind, or_err-eq-ok,
}
use cadet.Store.{Store}
use cadet.Store.Tables.{Wrote, update-Wrote, find-Wrote_self, find-Wrote_ne}
use cadet.Text.{trim}
use cadet.Text.Checks.{validate_identifier_iff}
use cadet.Rows.Sessions.{AgentSessionRecord}
use cadet.Db.{Db, Context}
use cadet.Reducers.Sessions.{
  update_agent_session_status, record_session_turn, request_session_cancel, clear_session_cancel,
  update_agent_session_sandbox,
}
use cadet.System.{perform, commit, run}
use cadet.Sessions.{Edit, call_of, calls_of, Spares, AllSpare, Pending}

module _ ⦃S : Store⦄ {id : String} {db : Db} (pending : Pending id db) where
  -- A session is written back, flagged or not the one that is pending.
  written-Pending :
      {key : String} {old new : AgentSessionRecord}
      {sessions : S.Table AgentSessionRecord (λ row. row.session_id)}
      → S.find db.agent_session key ≡ some old
      → new.session_id ≡ old.session_id
      → (key ≡ id → old ≡ pending.row → new.cancel_requested ≡ true)
      → Wrote db.agent_session new sessions
      → Pending id (record db { agent_session = sessions })
  written-Pending {key} {old} {new} found same flags wrote =
      let at_key = same ∙ S.find-key _ _ _ found in
      elim (Bool-cases (key == id)) [
        | inl here ↦
            let is : key ≡ id = (eq_iff key id).0 here in
            let new_key : new.session_id ≡ id = at_key ∙ is in
            let row_is : old ≡ pending.row = cc (found, pending.found, is) in
            record {
              row = new;
              found = rw (← new_key) (find-Wrote_self wrote);
              flagged = flags is row_is;
            }
        | inr other ↦ record {
          row = pending.row;
          found =
              find-Wrote_ne id wrote (λ e. ground (arith, at_key, eq_iff key id)) ∙ pending.found;
          flagged = pending.flagged;
        }
      ]

  module _ (ctx : Context) where
    status-Pending :
        (key s : String) → Ensures (Pending id) (update_agent_session_status ctx key s db)
    unfolding update_agent_session_status
    status-Pending key s = Ensures-bind λ _ _. Ensures-bind λ old found. Ensures-bind λ _ wrote.
        Ensures-ok (
          written-Pending (or_err-eq-ok _ _ found) refl
            (λ _ is. ap (λ row. row.cancel_requested) is ∙ pending.flagged) (update-Wrote wrote))

    sandbox-Pending :
        (key s : String) → Ensures (Pending id) (update_agent_session_sandbox ctx key s db)
    unfolding update_agent_session_sandbox
    sandbox-Pending key s = Ensures-bind λ _ _. Ensures-bind λ old found. Ensures-bind λ _ wrote.
        Ensures-ok (
          written-Pending (or_err-eq-ok _ _ found) refl
            (λ _ is. ap (λ row. row.cancel_requested) is ∙ pending.flagged) (update-Wrote wrote))

    request-Pending : (key : String) → Ensures (Pending id) (request_session_cancel ctx key db)
    unfolding request_session_cancel
    request-Pending key = Ensures-bind λ _ _. Ensures-bind λ old found. Ensures-bind λ _ wrote.
        Ensures-ok
          (written-Pending (or_err-eq-ok _ _ found) refl (λ _ _. refl) (update-Wrote wrote))

    turn-Pending :
        (key prompt : String)
        → trim key ≢ id
        → Ensures (Pending id) (record_session_turn ctx key prompt db)
    unfolding record_session_turn
    turn-Pending key prompt ne = Ensures-bind λ checked valid. Ensures-bind λ old found.
        Ensures-bind λ _ wrote.
          let is = ((validate_identifier_iff key "session_id" checked).0 valid).0 in
          Ensures-ok (
            written-Pending (or_err-eq-ok _ _ found) refl (λ e _. absurd (ne (sym is ∙ e)))
              (update-Wrote wrote))

    clear-Pending :
        (key : String) → trim key ≢ id → Ensures (Pending id) (clear_session_cancel ctx key db)
    unfolding clear_session_cancel
    clear-Pending key ne = Ensures-bind λ checked valid. Ensures-bind λ old found.
        Ensures-bind λ _ wrote.
          let is = ((validate_identifier_iff key "session_id" checked).0 valid).0 in
          Ensures-ok (
            written-Pending (or_err-eq-ok _ _ found) refl (λ e _. absurd (ne (sym is ∙ e)))
              (update-Wrote wrote))

    edit-Pending :
        (edit : Edit) → Spares id edit → Ensures (Pending id) (perform ctx (call_of edit) db)
    unfolding perform
    edit-Pending (Edit.status key s) _ = status-Pending key s
    edit-Pending (Edit.sandbox key s) _ = sandbox-Pending key s
    edit-Pending (Edit.turn key prompt) ne = turn-Pending key prompt ne
    edit-Pending (Edit.request key) _ = request-Pending key
    edit-Pending (Edit.clear key) ne = clear-Pending key ne

module _ ⦃S : Store⦄ where
  commit-Pending :
      (id : String) (db : Db) (r : Result Db)
      → Pending id db
      → Ensures (Pending id) r
      → Pending id (commit db r)
  commit-Pending id db (ok after) p e = e.at after refl
  commit-Pending id db (err message) p e = p
  commit-Pending id db panicked p e = p

  -- A session that is to be cancelled stays so under any sequence of calls that change sessions, this
  -- one or others, with whatever arguments and outcomes, in which there is no turn of this session
  -- and no clearing of its flag.
  pub run-Pending :
      {id : String} (edits : List (Context × Edit)) (db : Db)
      → AllSpare id edits
      → Pending id db
      → Pending id (run (calls_of edits) db)
  unfolding run
  run-Pending [] db spares pending = pending
  run-Pending {id} ((ctx, edit) ∷ edits) db (spared, spares) pending =
      run-Pending edits (commit db (perform ctx (call_of edit) db)) spares (
        commit-Pending id db (perform ctx (call_of edit) db) pending
          (edit-Pending pending ctx edit spared))
