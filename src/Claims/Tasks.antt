-- ===== src/Claims/Tasks.antt =====
-- `claim_browser_task` of spacetimedb/src/lib.rs.
use cadet.Shared.{
  Ensures, Ensures-bind, Ensures-ok, String, arith, eq_iff, false, ok, or_err-eq-ok, refl,
  refuse_if-eq-ok, some, sym, ◌>>=◌, ◌∙◌, ◌≡◌, ◌≢◌,
}
use cadet.Store.{Store}
use cadet.Store.Tables.{update_found, update-Wrote, find-Wrote_self, find-Wrote_ne}
use cadet.Text.{trim, is_empty}
use cadet.Text.Checks.{
  validate_identifier_iff, validate_text-eq-trim, validate_text_complete, IsIdentifier,
}
use cadet.Vocab.Enum.{IsWord}
use cadet.Vocab.BrowserTaskState.{BrowserTaskState, browser_task_state, as_str}
use cadet.Rows.Browser.{BrowserTask}
use cadet.Validate.{validate_browser_task_status}
use cadet.Validate.Words.{parse_as_iff}
use cadet.Db.{Db, Context, now_micros}
use cadet.Reducers.Browser.{claim_browser_task}
use cadet.Claims.{TaskClaimed}
use cadet.Claims.Steps.{tests_equal}

trim_running : trim "running" ≡ "running"
unfolding trim
trim_running = refl

module _ ⦃S : Store⦄ (ctx : Context) (task_id runner_id : String) (db : Db) where
  claim_Ensures :
      Ensures
        (TaskClaimed ctx (trim task_id) (trim runner_id) db)
        (claim_browser_task ctx task_id runner_id db)
  unfolding claim_browser_task validate_browser_task_status
  claim_Ensures = Ensures-bind λ id valid_id. Ensures-bind λ runner valid_runner.
      Ensures-bind λ task found. Ensures-bind λ _ queued. Ensures-bind λ status valid_status.
        Ensures-bind λ tasks wrote.
          let id_is = ((validate_identifier_iff task_id "task_id" id).0 valid_id).0 in
          let runner_is = (validate_text-eq-trim runner_id "runner_id" valid_runner).0 in
          let status_is =
            ((parse_as_iff browser_task_state "running" "status" status).0 valid_status).0
            ∙ trim_running in
          let known = or_err-eq-ok _ _ found in
          let key = S.find-key _ _ _ known in
          Ensures-ok (record {
            task = task;
            found = rw (← id_is) known;
            queued = tests_equal _ _ (refuse_if-eq-ok _ _ queued);
            taken =
                rw (← status_is, ← id_is, ← runner_is, ← key)
                  (find-Wrote_self (update-Wrote wrote));
            others =
                λ k ne. find-Wrote_ne k (update-Wrote wrote) (λ e. ne (sym id_is ∙ sym key ∙ e));
          })

  -- A claim of a browser task that succeeds has found it queued. The task is then running for the
  -- runner that the caller names, and all other tasks are as they were.
  pub claim_browser_task_effect :
      {db' : Db}
      → claim_browser_task ctx task_id runner_id db ≡ ok db'
      → TaskClaimed ctx (trim task_id) (trim runner_id) db db'
  claim_browser_task_effect {db'} e = claim_Ensures.at db' e

running-IsWord : IsWord browser_task_state "running"
unfolding browser_task_state as_str
running-IsWord = record { variant = BrowserTaskState.running; spelled = refl }

running_accepted : validate_browser_task_status "running" ≡ ok "running"
unfolding validate_browser_task_status
running_accepted =
    (parse_as_iff browser_task_state "running" "status" "running").1
      (sym trim_running, running-IsWord)

module _ ⦃S : Store⦄ (ctx : Context) (task_id runner_id : String) (db : Db) where
  -- A claim with valid arguments of a browser task that is there and queued succeeds.
  pub claim_browser_task_succeeds :
      (task : BrowserTask)
      → IsIdentifier (trim task_id)
      → is_empty (trim runner_id) ≡ false
      → S.find db.browser_task (trim task_id) ≡ some task
      → task.status ≡ "queued"
      → (db' : Db) × (claim_browser_task ctx task_id runner_id db ≡ ok db')
  unfolding claim_browser_task ◌>>=◌
  claim_browser_task_succeeds task id_valid filled found queued =
      let id_ok = (validate_identifier_iff task_id "task_id" (trim task_id)).1 (refl, id_valid) in
      let runner_ok = validate_text_complete runner_id "runner_id" filled in
      let queued_test = (eq_iff task.status "queued").1 queued in
      let row : BrowserTask = record task {
        status = "running";
        runner_id = some (trim runner_id);
        updated_at_micros = now_micros ctx;
      } in
      let (tasks, updated) = update_found db.browser_task row task found refl in
      (
        record db { browser_task = tasks },
        rw (id_ok, runner_ok, found, queued_test, running_accepted, updated),
      )

module _ ⦃S : Store⦄ where
  -- Once a claim of a browser task has succeeded, no other claim of it succeeds on the database that
  -- the first one left, whoever makes it.
  pub claim_browser_task_exclusive :
      (ctx ctx' : Context) (task_id task_id' runner runner' : String) (db db' : Db)
      → claim_browser_task ctx task_id runner db ≡ ok db'
      → trim task_id' ≡ trim task_id
      → (db'' : Db) → claim_browser_task ctx' task_id' runner' db' ≢ ok db''
  claim_browser_task_exclusive ctx ctx' task_id task_id' runner runner' db db' first same db''
        second =
      let a = claim_browser_task_effect ctx task_id runner db first in
      let b = claim_browser_task_effect ctx' task_id' runner' db' second in
      ground (arith, a.taken, b.found, b.queued, same, eq_iff "running" "queued")
