-- ===== src/Runner/Tasks.antt =====
-- `maybe_handle_browser_task` of rust/starbridge-runner/src/main.rs together with
-- `claim_browser_task` of spacetimedb/src/lib.rs.
use cadet.Shared.{String, ◌≡◌, refl, ◌∙◌, ap, ok, some, eq_refl}
use cadet.Store.{Store}
use cadet.Text.{trim}
use cadet.Text.Checks.{IsTidy, IsIdentifier}
use cadet.Vocab.ExecutionOwner.{ExecutionOwner, as_str}
use cadet.Vocab.BrowserTaskState.{browser_task_state, from_str}
use cadet.Rows.Browser.{BrowserTask}
use cadet.Db.{Db, Context, now_micros}
use cadet.Claims.Tasks.{claim_browser_task_succeeds, claim_browser_task_effect}
use cadet.System.{Call, perform}
use cadet.Runner.{WorkerState, Action, maybe_handle_browser_task}

module _ ⦃S : Store⦄ where
  module _ (runner : String) (task : BrowserTask)
      (owned : task.owner_execution ≡ "browser-worker") where
    -- The state of a worker for browser tasks.
    abbrev pub browser_state : WorkerState
    browser_state = record { owner = ExecutionOwner.browser_worker; runner_id = runner }

    queued_sends :
        task.status ≡ "queued"
        → maybe_handle_browser_task browser_state task
          ≡ Action.send (Call.claim_browser_task task.task_id runner)
    unfolding maybe_handle_browser_task browser_task_state from_str as_str
    queued_sends queued = rw (owned, queued) refl

    running_works :
        task.status ≡ "running"
        → task.runner_id ≡ some runner
        → maybe_handle_browser_task browser_state task ≡ Action.process_browser_task task
    unfolding maybe_handle_browser_task browser_task_state from_str as_str
    running_works running mine = rw (owned, running, mine, eq_refl runner) refl

module _ ⦃S : Store⦄ where
  -- A worker for browser tasks that sees a queued task sends a claim of it. On the tables that hold
  -- this task, the claim succeeds, and of the task that is stored then the same worker sees that it
  -- is to work on it; so if the id of the task is an identifier, its owner is the browser worker, and
  -- the worker's id has no white space at its ends and is not empty.
  pub maybe_handle_browser_task-takes :
      (ctx : Context) (runner : String) (task : BrowserTask) (db : Db)
      → S.find db.browser_task task.task_id ≡ some task
      → IsIdentifier task.task_id
      → IsTidy runner
      → (owned : task.owner_execution ≡ "browser-worker") → task.status ≡ "queued"
      → (call : Call) × (maybe_handle_browser_task
            (record { owner = ExecutionOwner.browser_worker; runner_id = runner })
            task
          ≡ Action.send call)
        × ((db' : Db) × (perform ctx call db ≡ ok db')
            × ((taken : BrowserTask) × (S.find db'.browser_task task.task_id ≡ some taken)
                × (maybe_handle_browser_task
                      (record { owner = ExecutionOwner.browser_worker; runner_id = runner })
                      taken
                    ≡ Action.process_browser_task taken)))
  unfolding perform
  maybe_handle_browser_task-takes ctx runner task db found id tidy owned queued =
      let trimmed = id.tidy.trimmed in
      let (db', claimed) =
        claim_browser_task_succeeds ctx task.task_id runner db task (rw trimmed id)
          (rw tidy.trimmed tidy.filled) (rw trimmed found) queued in
      let effect = claim_browser_task_effect ctx task.task_id runner db claimed in
      let same : effect.task ≡ task = cc (effect.found, found, trimmed) in
      let taken : BrowserTask = record effect.task {
        status = "running";
        runner_id = some (trim runner);
        updated_at_micros = now_micros ctx;
      } in
      (
        Call.claim_browser_task task.task_id runner,
        queued_sends runner task owned queued,
        (
          db',
          claimed,
          (
            taken,
            rw trimmed at effect.taken,
            running_works runner taken (ap (λ row. row.owner_execution) same ∙ owned) refl
                (ap some tidy.trimmed),
          ),
        ),
      )
