-- ===== src/Runner/Process/Ends.antt =====
-- What the calls of `process_browser_task` of rust/starbridge-runner/src/main.rs do to the tables of
-- spacetimedb/src/lib.rs.
use cadet.Shared.{String, ◌≡◌, refl, Option, some, none, List, [], ◌∷◌, Option-cases, inl, inr}
use mathlib.Core.List.{◌++◌ as ◌+++◌}
use cadet.Shared.Int.{ℤ}
use cadet.Store.{Store}
use cadet.Text.{trim}
use cadet.Text.Checks.{IsIdentifier}
use cadet.Rows.Workflow.{WorkflowStep, WorkflowRun}
use cadet.Rows.Browser.{BrowserTask}
use cadet.Db.{Db, Context}
use cadet.Progress.Tasks.{TaskEnded, complete_browser_task_effect, fail_browser_task_effect}
use cadet.Progress.Moves.{complete_browser_task_succeeds, fail_browser_task_succeeds}
use cadet.System.{Call, perform, commit, run}
use cadet.Runner.Next.{Json}
use cadet.Runner.Process.Held.{
  commit_Ensures, Held, record_tool_call-Held, record_browser_artifact-Held,
}
use cadet.Runner.Process.{
  BrowserOutcome, Attempt, attempt, process_browser_task, result_text, result_object, error_object,
  failure_calls, failure, tool_call, text_artifact, screenshot_artifact, screenshot_calls, and_try,
}

module _ ⦃S : Store⦄ where
  -- The calls at the times that the host takes them at.
  abbrev pub timed : (Call → Context) → List Call → List (Context × Call)
  timed clock [] = []
  timed clock (call ∷ calls) = (clock call, call) ∷ timed clock calls

module _ ⦃S : Store⦄ (task : BrowserTask) where
  -- The task, its step and its run are stored with these statuses.
  pub record Stored (status step_status run_status : String) (db : Db) : Type 0 where
    pub task_row : BrowserTask
    pub task_at : S.find db.browser_task task.task_id ≡ some task_row
    pub task_status : task_row.status ≡ status
    pub step_row : WorkflowStep
    pub step_at : S.find db.workflow_step task.step_id ≡ some step_row
    pub step_status_is : step_row.status ≡ step_status
    pub run_row : WorkflowRun
    pub run_at : S.find db.workflow_run task.run_id ≡ some run_row
    pub run_status_is : run_row.status ≡ run_status

  -- Without an error the task is completed, and its run goes on; with one, both have failed.
  abbrev pub EndedAs : Option String → Db → Type 0
  EndedAs none = Stored "completed" "ready" "running"
  EndedAs (some error) = Stored "failed" "failed" "failed"

  TaskEnded-Stored :
      {ctx : Context} {result : String} {db db' : Db} {status step_status run_status : String}
      {completed : Option ℤ} {step : WorkflowStep} {owner : WorkflowRun}
      → trim task.task_id ≡ task.task_id
      → Held task step owner db
      → TaskEnded ctx task.task_id result db status step_status run_status completed db'
      → Stored status step_status run_status db'
  TaskEnded-Stored trimmed held e =
      let same : e.task ≡ task = cc (e.found, held.task_found, trimmed) in
      record {
        task_row = _;
        task_at = rw trimmed at e.ended;
        task_status = refl;
        step_row = _;
        step_at = rw same at e.step_moved.moved;
        step_status_is = refl;
        run_row = _;
        run_at = rw same at e.run_moved.moved;
        run_status_is = refl;
      }

module _ ⦃S : Store⦄ ⦃J : Json⦄ (task : BrowserTask) (send : Call → Option String)
    (clock : Call → Context) (step : WorkflowStep) (owner : WorkflowRun)
    (id_valid : IsIdentifier task.task_id)
    (up : (error : String) → send (failure task error) ≡ none) where
  -- From tables that hold the task, the calls of this work and of its end lead to one.
  abbrev Reaches : Attempt → Type 0
  Reaches work =
      (db : Db)
      → Held task step owner db
      → EndedAs task work.error
          (run (timed clock (work.sent +++ failure_calls task send work.error)) db)

  failed_Reaches : (error : String) → Reaches (record { sent = []; error = some error })
  unfolding run perform
  failed_Reaches error db held =
      let trimmed = id_valid.tidy.trimmed in
      let call = failure task error in
      let object = error_object task error in
      let (db', ends) =
        fail_browser_task_succeeds (clock call) task.task_id (J.print object) db task step owner
          (rw trimmed id_valid) (J.print-filled object) (rw trimmed held.task_found) held.step_found
          held.run_found in
      let effect = fail_browser_task_effect (clock call) task.task_id (J.print object) db ends in
      rw (up error, ends) (TaskEnded-Stored task trimmed held effect)

  completed_Reaches :
      (summary content : String)
      → Reaches (
          and_try send
            (Call.complete_browser_task task.task_id (result_text task summary content))
            (record { sent = []; error = none }))
  unfolding run perform
  completed_Reaches summary content =
      let object = result_object task summary content in
      let call = Call.complete_browser_task task.task_id (J.print object) in
      let trimmed = id_valid.tidy.trimmed in
      elim (Option-cases (send call)) [
        | inl sent ↦ rw sent λ db held.
            let (db', ends) =
              complete_browser_task_succeeds (clock call) task.task_id (J.print object) db task step
                owner (rw trimmed id_valid) (J.print-filled object) (rw trimmed held.task_found)
                held.step_found held.run_found in
            let effect =
              complete_browser_task_effect (clock call) task.task_id (J.print object) db ends in
            rw ends (TaskEnded-Stored task trimmed held effect)
        | inr (error, refused) ↦ rw refused (failed_Reaches error)
      ]

  -- A call that leaves the three rows alone.
  abbrev Keeps : Call → Type 0
  Keeps call =
      (db : Db)
      → Held task step owner db
      → Held task step owner (commit db (perform (clock call) call db))

  try_Reaches :
      (call : Call) (rest : Attempt) → Keeps call → Reaches rest → Reaches (and_try send call rest)
  unfolding run
  try_Reaches call rest keeps h = elim (Option-cases (send call)) [
    | inl sent ↦ rw sent λ db held. h (commit db (perform (clock call) call db)) (keeps db held)
    | inr (error, refused) ↦ rw refused (failed_Reaches error)
  ]

  artifact_Keeps :
      (artifact_id task_id run_id step_id kind title url metadata_json : String)
      → Keeps (
          Call.record_browser_artifact artifact_id task_id run_id step_id kind title url
            metadata_json)
  unfolding perform
  artifact_Keeps i1 i2 i3 i4 i5 i6 i7 i8 db held =
      commit_Ensures db held (record_browser_artifact-Held task _ db held i1 i2 i3 i4 i5 i6 i7 i8)

  tool_Keeps : (result : String) → Keeps (tool_call task result)
  unfolding perform
  tool_Keeps result db held =
      commit_Ensures db held (record_tool_call-Held task _ db held _ _ _ _ _ _ _ _)

  screenshot_Reaches :
      (screenshot : Option String) (last : Attempt)
      → Reaches last
      → Reaches (record {
        sent = screenshot_calls task send screenshot +++ last.sent;
        error = last.error;
      })
  unfolding run
  screenshot_Reaches none last h = h
  screenshot_Reaches (some path) last h =
      elim (Option-cases (send (screenshot_artifact task path))) [
        | inl sent ↦ rw sent λ db held. h _ (artifact_Keeps _ _ _ _ _ _ _ _ db held)
        | inr (error, refused) ↦ rw refused h
      ]

  attempt-Reaches : (outcome : BrowserOutcome) → Reaches (attempt task send outcome)
  unfolding attempt
  attempt-Reaches (BrowserOutcome.captured summary content screenshot) =
      try_Reaches (tool_call task (result_text task summary content)) _ (tool_Keeps _) (
        try_Reaches (text_artifact task content) _ (artifact_Keeps _ _ _ _ _ _ _ _)
          (screenshot_Reaches screenshot _ (completed_Reaches summary content)))
  attempt-Reaches (BrowserOutcome.failed error) = failed_Reaches error

module _ ⦃S : Store⦄ ⦃J : Json⦄ where
  -- A browser task on which a worker starts to work comes to an end, whatever the browser gives and
  -- whichever of the calls the connection refuses, as long as it does not refuse that of
  -- `fail_browser_task`, and whatever becomes of the records that the worker asks for on the way: on
  -- tables that hold the task, its step and its run, the calls of the worker leave the task
  -- completed, its step ready and its run running where the work met no error, and all three failed
  -- where it met one; so if the id of the task is an identifier.
  pub process_browser_task-ends :
      (task : BrowserTask) (send : Call → Option String) (clock : Call → Context) (db : Db)
      (step : WorkflowStep) (owner : WorkflowRun) (outcome : BrowserOutcome)
      → IsIdentifier task.task_id
      → ((error : String) → send (failure task error) ≡ none)
      → S.find db.browser_task task.task_id ≡ some task
      → S.find db.workflow_step task.step_id ≡ some step
      → S.find db.workflow_run task.run_id ≡ some owner
      → EndedAs task
          (attempt task send outcome).error
          (run (timed clock (process_browser_task task send [] outcome)) db)
  unfolding process_browser_task
  process_browser_task-ends task send clock db step owner outcome id_valid up e1 e2 e3 =
      attempt-Reaches task send clock step owner id_valid up outcome db
        (record { task_found = e1; step_found = e2; run_found = e3 })
