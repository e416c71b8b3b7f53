-- ===== src/Sound/Browser.antt =====
-- The reducers of spacetimedb/src/lib.rs for browser tasks and artifacts, and the invariant.
use cadet.Shared.{
  String, ◌≡◌, refl, Ensures, Ensures-ok, Ensures-bind, Ensures-nest, or_err-eq-ok, some, ok,
}
use cadet.Store.{Store}
use cadet.Store.Tables.{insert-Wrote, update-Wrote, upsert-Wrote, Present-found}
use cadet.Vocab.Enum.{IsWord}
use cadet.Vocab.BrowserTaskState.{BrowserTaskState, browser_task_state, as_str as task_state_str}
use cadet.Vocab.ExecutionOwner.{ExecutionOwner, execution_owner, as_str as owner_str}
use cadet.Validate.Kinds.{
  validate_browser_mode-IsWord, validate_browser_risk-IsWord, validate_browser_task_status-IsWord,
  validate_artifact_kind-IsWord,
}
use cadet.Db.{Db, Context}
use cadet.Reducers.Browser.{
  enqueue_browser_task, claim_browser_task, complete_browser_task, fail_browser_task,
  record_browser_artifact,
}
use cadet.Rows.Browser.{BrowserTask}
use cadet.Sound.{Sound}
use cadet.Sound.Links.{tasks-Linked}
use cadet.Sound.Words.{tasks-Worded, artifacts-Worded}
use cadet.Sound.Runs.{
  update_workflow_run_status_rule, block_linked_step_rule, update_workflow_run_status-Sound,
  block_linked_step-Sound, rewrite_run-Sound, rewrite_step-Sound,
}

queued-IsWord : IsWord browser_task_state "queued"
unfolding browser_task_state task_state_str
queued-IsWord = record { variant = BrowserTaskState.queued; spelled = refl }

browser_worker-IsWord : IsWord execution_owner "browser-worker"
unfolding execution_owner owner_str
browser_worker-IsWord = record { variant = ExecutionOwner.browser_worker; spelled = refl }

module _ ⦃S : Store⦄ (ctx : Context) (db : Db) (h : Sound db) where
  -- The step and the run of the task are known to be there only once they have been written.
  pub enqueue_browser_task-Sound :
      (task_id run_id step_id agent_id mode risk url request_json : String)
      → Ensures Sound
          (enqueue_browser_task ctx task_id run_id step_id agent_id mode risk url request_json db)
  unfolding enqueue_browser_task
  enqueue_browser_task-Sound task_id run_id step_id agent_id mode risk url request_json =
      Ensures-bind λ task_id _. Ensures-bind λ run_id _. Ensures-bind λ step_id _.
        Ensures-bind λ agent_id _. Ensures-bind λ mode m. Ensures-bind λ risk r.
          Ensures-bind λ url _. Ensures-bind λ request_json _. Ensures-bind λ tasks wrote.
            Ensures-nest (
              block_linked_step_rule ctx _ _ _ λ step _ steps step_found _ step_word written.
                update_workflow_run_status_rule ctx _ _ _ _ _ _
                  λ run _ runs run_found _ run_word rewritten.
                    let with_task : Sound (record db { browser_task = tasks }) = record {
                      links =
                          tasks-Linked h.links (insert-Wrote wrote) (Present-found run_found)
                            (Present-found step_found);
                      words = tasks-Worded h.words (insert-Wrote wrote) (
                        validate_browser_mode-IsWord _ m,
                        validate_browser_risk-IsWord _ r,
                        queued-IsWord,
                        browser_worker-IsWord,
                      );
                    } in
                    rewrite_run-Sound
                      (rewrite_step-Sound with_task step_found written refl refl refl step_word)
                      run_found rewritten refl refl refl run_word)

  -- A task that is there may be written again with another status.
  rewrite_task-Sound :
      {task_id : String} {task row : BrowserTask} {tasks : S.Table BrowserTask (λ row. row.task_id)}
      → S.find db.browser_task task_id ≡ some task
      → S.update db.browser_task row ≡ ok tasks
      → row.run_id ≡ task.run_id
      → row.step_id ≡ task.step_id
      → row.mode ≡ task.mode
      → row.risk ≡ task.risk
      → row.owner_execution ≡ task.owner_execution
      → IsWord browser_task_state row.status
      → Sound (record db { browser_task = tasks })
  rewrite_task-Sound {task_id} {task} found wrote e₁ e₂ e₃ e₄ e₅ word = record {
    links =
        tasks-Linked h.links (update-Wrote wrote) (rw e₁ (h.links.task_run.at task_id task found))
          (rw e₂ (h.links.task_step.at task_id task found));
    words =
        let (mode_word, risk_word, _, owner_word) = h.words.tasks.at task_id task found in
        tasks-Worded h.words (update-Wrote wrote)
          (rw e₃ mode_word, rw e₄ risk_word, word, rw e₅ owner_word);
  }

  pub claim_browser_task-Sound :
      (task_id runner_id : String) → Ensures Sound (claim_browser_task ctx task_id runner_id db)
  unfolding claim_browser_task
  claim_browser_task-Sound task_id runner_id = Ensures-bind λ task_id _. Ensures-bind λ runner_id _.
      Ensures-bind λ task found. Ensures-bind λ _ _. Ensures-bind λ status s.
        Ensures-bind λ tasks wrote. Ensures-ok (
          rewrite_task-Sound (or_err-eq-ok _ _ found) wrote refl refl refl refl refl
            (validate_browser_task_status-IsWord _ s))

  pub complete_browser_task-Sound :
      (task_id result_json : String)
      → Ensures Sound (complete_browser_task ctx task_id result_json db)
  unfolding complete_browser_task
  complete_browser_task-Sound task_id result_json = Ensures-bind λ task_id _.
      Ensures-bind λ result_json _. Ensures-bind λ task found. Ensures-bind λ status s.
        Ensures-bind λ tasks wrote.
          let with_task =
            rewrite_task-Sound (or_err-eq-ok _ _ found) wrote refl refl refl refl refl
              (validate_browser_task_status-IsWord _ s) in
          Ensures-bind λ blocked e.
            update_workflow_run_status-Sound ctx blocked
              ((block_linked_step-Sound ctx _ with_task _ _).at blocked e) _ _ _ _ _

  pub fail_browser_task-Sound :
      (task_id result_json : String) → Ensures Sound (fail_browser_task ctx task_id result_json db)
  unfolding fail_browser_task
  fail_browser_task-Sound task_id result_json = Ensures-bind λ task_id _.
      Ensures-bind λ result_json _. Ensures-bind λ task found. Ensures-bind λ status s.
        Ensures-bind λ tasks wrote.
          let with_task =
            rewrite_task-Sound (or_err-eq-ok _ _ found) wrote refl refl refl refl refl
              (validate_browser_task_status-IsWord _ s) in
          Ensures-bind λ blocked e.
            update_workflow_run_status-Sound ctx blocked
              ((block_linked_step-Sound ctx _ with_task _ _).at blocked e) _ _ _ _ _

  pub record_browser_artifact-Sound :
      (artifact_id task_id run_id step_id kind title url metadata_json : String)
      → Ensures Sound (
          record_browser_artifact ctx artifact_id task_id run_id step_id kind title url
            metadata_json db)
  unfolding record_browser_artifact
  record_browser_artifact-Sound artifact_id task_id run_id step_id kind title url metadata_json =
      Ensures-bind λ artifact_id _. Ensures-bind λ task_id _. Ensures-bind λ run_id _.
        Ensures-bind λ step_id _. Ensures-bind λ kind k. Ensures-bind λ title _.
          Ensures-bind λ url _. Ensures-bind λ metadata_json _. Ensures-bind λ artifacts wrote.
            Ensures-ok (record {
              links = assumption h;
              words =
                  artifacts-Worded h.words (upsert-Wrote wrote) (validate_artifact_kind-IsWord _ k);
            })
