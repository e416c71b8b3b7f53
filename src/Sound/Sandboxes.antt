-- ===== src/Sound/Sandboxes.antt =====
-- The reducers of spacetimedb/src/lib.rs for sandboxes, snapshots and checkpoints, and the
-- invariant.
use cadet.Shared.{
  String, ℕ, Ensures, Ensures-ok, Ensures-bind, Option-cases, inl, inr, Among, arith, ok, ◌≡◌,
}
use cadet.Shared.Int.{ℤ}
use cadet.Store.{Store}
use cadet.Store.Tables.{All, Wrote-All, insert-Wrote, update-Wrote}
use cadet.Store.Deleted.{delete_found-All}
use cadet.Text.Choice.{is_one_of-Among, sandbox_statuses}
use cadet.Rows.Sandboxes.{SandboxInstance, AgentCheckpoint}
use cadet.Db.{Db, Context}
use cadet.Reducers.Sandboxes.{
  create_sandbox, update_sandbox_status, delete_sandbox, create_sandbox_snapshot, create_checkpoint,
  attach_snapshot, validate_sandbox_status,
}
use cadet.Sound.{Sound, SandboxWords}
use cadet.Sound.Words.{sandboxes-Worded, sandboxes_kept-Worded}

validate_sandbox_status-Among :
    (value : String) {s : String} → validate_sandbox_status value ≡ ok s → Among s sandbox_statuses
unfolding validate_sandbox_status
validate_sandbox_status-Among value {s} h = is_one_of-Among s sandbox_statuses (ground arith)

module _ ⦃S : Store⦄ where
  attach_snapshot-All :
      {t u : S.Table SandboxInstance (λ row. row.sandbox_id)} (snapshot_id : String) (now : ℤ)
      (k : String)
      → attach_snapshot t snapshot_id now (S.find t k) ≡ ok u
      → All SandboxWords t
      → All SandboxWords u
  unfolding attach_snapshot
  attach_snapshot-All {t} {u} snapshot_id now k e a = elim (Option-cases (S.find t k)) [
    | inl missing ↦ let kept = rw missing at e in let same : t ≡ u = cc in rw (← same) a
    | inr (row, present) ↦
        let wrote = rw present at e in Wrote-All (update-Wrote wrote) a (a.at k row present)
  ]

module _ ⦃S : Store⦄ {db : Db} (h : Sound db) where
  agent_checkpoint-Sound :
      {t0 : S.Table AgentCheckpoint (λ row. row.checkpoint_id)}
      → Sound (record db { agent_checkpoint = t0 })
  agent_checkpoint-Sound = record { links = assumption h; words = assumption h }

module _ ⦃S : Store⦄ (ctx : Context) (db : Db) (h : Sound db) where
  pub create_sandbox-Sound :
      (sandbox_id operator_id agent_id run_id status metadata_json : String)
      → Ensures Sound
          (create_sandbox ctx sandbox_id operator_id agent_id run_id status metadata_json db)
  unfolding create_sandbox
  create_sandbox-Sound sandbox_id operator_id agent_id run_id status metadata_json =
      Ensures-bind λ _ _. Ensures-bind λ _ _. Ensures-bind λ _ _. Ensures-bind λ _ s.
        Ensures-bind λ _ _. Ensures-bind λ _ wrote. Ensures-ok (record {
          links = assumption h;
          words = sandboxes-Worded h.words (insert-Wrote wrote) (validate_sandbox_status-Among _ s);
        })

  pub update_sandbox_status-Sound :
      (sandbox_id status metadata_json : String)
      → Ensures Sound (update_sandbox_status ctx sandbox_id status metadata_json db)
  unfolding update_sandbox_status
  update_sandbox_status-Sound sandbox_id status metadata_json = Ensures-bind λ _ _.
      Ensures-bind λ _ s. Ensures-bind λ _ _. Ensures-bind λ _ _. Ensures-bind λ _ wrote.
        Ensures-ok (record {
          links = assumption h;
          words = sandboxes-Worded h.words (update-Wrote wrote) (validate_sandbox_status-Among _ s);
        })

  pub delete_sandbox-Sound :
      (sandbox_id : String) → Ensures Sound (delete_sandbox ctx sandbox_id db)
  unfolding delete_sandbox
  delete_sandbox-Sound sandbox_id = Ensures-bind λ checked _. Ensures-ok (record {
    links = assumption h;
    words = sandboxes_kept-Worded h.words (delete_found-All checked h.words.sandboxes);
  })

  pub create_sandbox_snapshot-Sound :
      (snapshot_id sandbox_id operator_id : String)
      → Ensures Sound (create_sandbox_snapshot ctx snapshot_id sandbox_id operator_id db)
  unfolding create_sandbox_snapshot
  create_sandbox_snapshot-Sound snapshot_id sandbox_id operator_id = Ensures-bind λ _ _.
      Ensures-bind λ checked _. Ensures-bind λ _ _. Ensures-bind λ _ _.
        Ensures-bind λ sandboxes wrote.
          let kept =
            sandboxes_kept-Worded h.words
              (attach_snapshot-All _ _ checked wrote h.words.sandboxes) in
          Ensures-ok (record { links = assumption h; words = assumption kept })

  pub create_checkpoint-Sound :
      (checkpoint_id session_id sandbox_id snapshot_id label : String) (turn_number : ℕ)
      → Ensures Sound (
          create_checkpoint ctx checkpoint_id session_id sandbox_id snapshot_id label turn_number
            db)
  unfolding create_checkpoint
  create_checkpoint-Sound checkpoint_id session_id sandbox_id snapshot_id label turn_number =
      Ensures-bind λ _ _. Ensures-ok (agent_checkpoint-Sound h)
