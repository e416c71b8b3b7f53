-- ===== src/Progress/Status.antt =====
-- `update_run_stage` and `update_run_status` of spacetimedb/src/lib.rs.
use cadet.Shared.{
  String, ◌≡◌, ◌≢◌, refl, sym, ◌∙◌, ok, some, ◌==◌, ◌||◌, if◌then◌else◌, Ensures, Ensures-ok,
  Ensures-bind, or_err-eq-ok, ◌>>=◌,
}
use cadet.Store.{Store}
use cadet.Store.Tables.{update_found, update-Wrote, find-Wrote_self, find-Wrote_ne}
use cadet.Text.{trim}
use cadet.Vocab.Enum.{IsWord}
use cadet.Vocab.RunState.{run_state}
use cadet.Validate.{validate_workflow_run_status}
use cadet.Validate.Words.{parse_as_iff}
use cadet.Rows.Workflow.{WorkflowRun}
use cadet.Db.{Db, Context, now_micros}
use cadet.Reducers.Runs.{update_run_stage, update_run_status}

module _ ⦃S : Store⦄ (ctx : Context) where
  abbrev pub staged : String → WorkflowRun → WorkflowRun
  staged stage run = record run { current_stage = stage; updated_at_micros = now_micros ctx }

  -- A run gets its completion time when it completes or fails, and keeps the one it has otherwise.
  abbrev pub restated : String → WorkflowRun → WorkflowRun
  restated status run = record run {
    status = status;
    updated_at_micros = now_micros ctx;
    completed_at_micros =
        if status == "completed" || status == "failed"
        then some (now_micros ctx)
        else run.completed_at_micros;
  }

  -- Of a run that is there, `update_run_stage` stores any text whatever as its stage, and changes
  -- nothing else but the time of its update: it succeeds on each text, a stage or not.
  pub update_run_stage_any :
      (run_id stage : String) (db : Db) (run : WorkflowRun)
      → S.find db.workflow_run run_id ≡ some run
      → (db' : Db) × (update_run_stage ctx run_id stage db ≡ ok db')
        × (S.find db'.workflow_run run_id ≡ some (staged stage run))
        × ((k : String) → run_id ≢ k → S.find db'.workflow_run k ≡ S.find db.workflow_run k)
  unfolding update_run_stage ◌>>=◌
  update_run_stage_any run_id stage db run found =
      let (runs, updated) = update_found db.workflow_run (staged stage run) run found refl in
      let key = S.find-key _ _ _ found in
      let write = update-Wrote updated in
      (
        record db { workflow_run = runs },
        rw (found, updated),
        rw (← key) (find-Wrote_self write),
        λ k ne. find-Wrote_ne k write (λ p. ne (sym key ∙ p)),
      )

  update_run_status-Ensures :
      (run_id status : String) (db : Db)
      → Ensures
          (λ db'.
            (run : WorkflowRun) × IsWord run_state (trim status)
            × (S.find db.workflow_run run_id ≡ some run)
            × (S.find db'.workflow_run run_id ≡ some (restated (trim status) run))
            × ((k : String) → run_id ≢ k → S.find db'.workflow_run k ≡ S.find db.workflow_run k))
          (update_run_status ctx run_id status db)
  unfolding update_run_status validate_workflow_run_status
  update_run_status-Ensures run_id status db = Ensures-bind λ state valid. Ensures-bind λ run found.
      Ensures-bind λ runs wrote.
        let (is, word) = (parse_as_iff run_state status "status" state).0 valid in
        let known = or_err-eq-ok _ _ found in
        let key = S.find-key _ _ _ known in
        Ensures-ok (
          run,
          rw (← is) word,
          known,
          rw (← is, ← key) (find-Wrote_self (update-Wrote wrote)),
          λ k ne. find-Wrote_ne k (update-Wrote wrote) (λ p. ne (sym key ∙ p)),
        )

  -- A change of a run's status that succeeds is to the trimmed text, which is a status of runs. The
  -- run gets the time of the call as its completion time if it completes or fails, and else keeps
  -- the completion time that it had, though it may run again. All other runs are as they were.
  pub update_run_status_effect :
      (run_id status : String) (db : Db) {db' : Db}
      → update_run_status ctx run_id status db ≡ ok db'
      → (run : WorkflowRun) × IsWord run_state (trim status)
        × (S.find db.workflow_run run_id ≡ some run)
        × (S.find db'.workflow_run run_id ≡ some (restated (trim status) run))
        × ((k : String) → run_id ≢ k → S.find db'.workflow_run k ≡ S.find db.workflow_run k)
  update_run_status_effect run_id status db {db'} e =
      (update_run_status-Ensures run_id status db).at db' e
