-- ===== src/Reducers/Sandboxes.antt =====
-- The reducers of spacetimedb/src/lib.rs for sandboxes, snapshots and checkpoints. The argument
-- `_timestamp_ms`, where there is one, is not used by the source and is left out.
use Prim.Native.String.{◌++◌}
use cadet.Shared.{String, ℕ, Option, none, some, Result, ok, err, ◌>>=◌, or_err, if◌then◌else◌}
use cadet.Shared.Int.{ℤ}
use cadet.Store.{Store, delete_found}
use cadet.Text.{trim, validate_identifier, normalize_json_blob}
use cadet.Text.Choice.{is_one_of, sandbox_statuses}
use cadet.Rows.Sandboxes.{SandboxInstance}
use cadet.Db.{Db, Context, now_micros}

unfoldable pub validate_sandbox_status : String → Result String
validate_sandbox_status value = do
  let trimmed = trim value
  if is_one_of trimmed sandbox_statuses
      then ok trimmed
      else err ("Invalid sandbox status: " ++ trimmed)

module _ ⦃S : Store⦄ where
  -- The end of create_sandbox_snapshot, by what the look for the sandbox has found.
  unfoldable pub attach_snapshot :
      S.Table SandboxInstance (λ row. row.sandbox_id)
      → String
      → ℤ
      → Option SandboxInstance
      → Result (S.Table SandboxInstance (λ row. row.sandbox_id))
  attach_snapshot t snapshot_id now none = ok t
  attach_snapshot t snapshot_id now (some existing) =
      S.update t (record existing { snapshot_id = snapshot_id; updated_at_micros = now })

  unfoldable pub create_sandbox :
      Context → String → String → String → String → String → String → Db → Result Db
  create_sandbox ctx sandbox_id operator_id agent_id run_id status metadata_json db = do
    sandbox_id ← validate_identifier sandbox_id "sandbox_id"
    operator_id ← validate_identifier operator_id "operator_id"
    agent_id ← validate_identifier agent_id "agent_id"
    status ← validate_sandbox_status status
    metadata_json ← normalize_json_blob metadata_json "metadata_json"
    let now = now_micros ctx
    sandboxes ← S.insert db.sandbox_instance (record {
      sandbox_id = sandbox_id;
      operator_id = operator_id;
      agent_id = agent_id;
      run_id = run_id;
      snapshot_id = "";
      status = status;
      metadata_json = metadata_json;
      created_at_micros = now;
      updated_at_micros = now;
    })
    ok (record db { sandbox_instance = sandboxes })

  unfoldable pub update_sandbox_status : Context → String → String → String → Db → Result Db
  update_sandbox_status ctx sandbox_id status metadata_json db = do
    sandbox_id ← validate_identifier sandbox_id "sandbox_id"
    status ← validate_sandbox_status status
    let now = now_micros ctx
    existing ←
        or_err (S.find db.sandbox_instance sandbox_id) ("Sandbox " ++ sandbox_id ++ " not found")
    metadata_json ← normalize_json_blob metadata_json "metadata_json"
    sandboxes ← S.update db.sandbox_instance (record existing {
      status = status;
      metadata_json = metadata_json;
      updated_at_micros = now;
    })
    ok (record db { sandbox_instance = sandboxes })

  unfoldable pub delete_sandbox : Context → String → Db → Result Db
  delete_sandbox ctx sandbox_id db = do
    sandbox_id ← validate_identifier sandbox_id "sandbox_id"
    ok (record db { sandbox_instance = delete_found db.sandbox_instance sandbox_id })

  unfoldable pub create_sandbox_snapshot : Context → String → String → String → Db → Result Db
  create_sandbox_snapshot ctx snapshot_id sandbox_id operator_id db = do
    snapshot_id ← validate_identifier snapshot_id "snapshot_id"
    sandbox_id ← validate_identifier sandbox_id "sandbox_id"
    operator_id ← validate_identifier operator_id "operator_id"
    let now = now_micros ctx
    snapshots ← S.insert db.sandbox_snapshot (record {
      snapshot_id = snapshot_id;
      sandbox_id = sandbox_id;
      operator_id = operator_id;
      created_at_micros = now;
    })
    sandboxes ←
        attach_snapshot db.sandbox_instance snapshot_id now (S.find db.sandbox_instance sandbox_id)
    ok (record db { sandbox_snapshot = snapshots; sandbox_instance = sandboxes })

  unfoldable pub create_checkpoint :
      Context → String → String → String → String → String → ℕ → Db → Result Db
  create_checkpoint ctx checkpoint_id session_id sandbox_id snapshot_id label turn_number db = do
    let now = now_micros ctx
    checkpoints ← S.insert db.agent_checkpoint (record {
      checkpoint_id = checkpoint_id;
      session_id = session_id;
      sandbox_id = sandbox_id;
      snapshot_id = snapshot_id;
      label = label;
      turn_number = turn_number;
      created_at_micros = now;
    })
    ok (record db { agent_checkpoint = checkpoints })
