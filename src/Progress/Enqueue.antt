-- ===== src/Progress/Enqueue.antt =====
-- `enqueue_workflow_step` of spacetimedb/src/lib.rs.
use cadet.Shared.{
  not_there, String, ◌≡◌, ◌≢◌, refl, sym, ◌∙◌, ok, Option, some, none, Ensures, Ensures-bind,
  refuse_if-eq-ok, >>=-eq-ok,
}
use mathlib.Core.Option
use cadet.Store.{Store}
use cadet.Store.Tables.{insert-Wrote, find-Wrote_self, find-Wrote_ne}
use cadet.Text.{trim, validate_identifier}
use cadet.Text.Checks.{validate_identifier_iff, validate_text-eq-trim, normalize_json_blob-eq}
use cadet.Vocab.WorkflowStage.{workflow_stage}
use cadet.Vocab.ExecutionOwner.{execution_owner}
use cadet.Validate.{validate_stage, validate_execution_owner}
use cadet.Validate.Words.{parse_as_iff}
use cadet.Rows.Workflow.{WorkflowStep}
use cadet.Db.{Db, Context, now_micros}
use cadet.Reducers.Steps.{enqueue_workflow_step, check_option}
use cadet.Sound.Runs.{update_workflow_run_status_rule}
use cadet.Progress.{RunMoved}
use cadet.Progress.Completion.{moved_run}

trim_queued : trim "queued" ≡ "queued"
unfolding trim
trim_queued = refl

check_identifier-eq :
    (o : Option String) (field : String) {o' : Option String}
    → check_option (λ candidate. validate_identifier candidate field) o ≡ ok o'
    → o' ≡ Option.map trim o
unfolding check_option
check_identifier-eq none field h = cc
check_identifier-eq (some s) field h =
    let (checked, valid, is) = >>=-eq-ok (validate_identifier s field) _ h in
    let trimmed = ((validate_identifier_iff s field checked).0 valid).0 in cc

module _ ⦃S : Store⦄ (ctx : Context)
    (step_id run_id agent_id stage owner_execution input_json : String)
    (depends_on_step_id : Option String) where
  -- The step as it is first stored.
  abbrev pub enqueued : WorkflowStep
  enqueued = record {
    step_id = trim step_id;
    run_id = trim run_id;
    agent_id = trim agent_id;
    stage = trim stage;
    owner_execution = trim owner_execution;
    status = "ready";
    input_json = trim input_json;
    output_json = none;
    retry_count = 0;
    depends_on_step_id = Option.map trim depends_on_step_id;
    approval_request_id = none;
    runner_id = none;
    created_at_micros = now_micros ctx;
    updated_at_micros = now_micros ctx;
    claimed_at_micros = none;
    completed_at_micros = none;
  }

  enqueue_Ensures :
      (db : Db)
      → Ensures
          (λ db'.
            (S.find db.workflow_step (trim step_id) ≡ none)
            × (S.find db'.workflow_step (trim step_id) ≡ some enqueued)
            × ((k : String)
                → trim step_id ≢ k
                → S.find db'.workflow_step k ≡ S.find db.workflow_step k)
            × RunMoved ctx (trim run_id) "queued" (trim stage) none db db')
          (enqueue_workflow_step ctx step_id run_id agent_id stage owner_execution input_json
            depends_on_step_id db)
  unfolding enqueue_workflow_step validate_stage validate_execution_owner
  enqueue_Ensures db = Ensures-bind λ id valid_id. Ensures-bind λ run_key valid_run.
      Ensures-bind λ agent valid_agent. Ensures-bind λ at_stage valid_stage.
        Ensures-bind λ owner valid_owner. Ensures-bind λ input valid_input.
          Ensures-bind λ needs valid_needs. Ensures-bind λ _ known. Ensures-bind λ _ fresh.
            Ensures-bind λ steps wrote.
              update_workflow_run_status_rule ctx _ _ _ _ _ _
                λ run checked runs run_found is _ rewritten.
                  let id_is = ((validate_identifier_iff step_id "step_id" id).0 valid_id).0 in
                  let run_is = ((validate_identifier_iff run_id "run_id" run_key).0 valid_run).0 in
                  let agent_is =
                    ((validate_identifier_iff agent_id "agent_id" agent).0 valid_agent).0 in
                  let stage_is =
                    ((parse_as_iff workflow_stage stage "stage" at_stage).0 valid_stage).0 in
                  let owner_is =
                    ((parse_as_iff execution_owner owner_execution "owner_execution" owner).0
                      valid_owner).0 in
                  let input_is =
                    (validate_text-eq-trim input_json "input_json"
                      (rw normalize_json_blob-eq at valid_input)).0 in
                  let needs_is =
                    check_identifier-eq depends_on_step_id "depends_on_step_id" valid_needs in
                  let free : S.find db.workflow_step id ≡ none =
                    not_there _ (refuse_if-eq-ok _ _ fresh) in
                  (
                    rw (← id_is) free,
                    rw
                        (
                          ← id_is,
                          ← run_is,
                          ← agent_is,
                          ← stage_is,
                          ← owner_is,
                          ← input_is,
                          ← needs_is,
                        )
                        (find-Wrote_self (insert-Wrote wrote)),
                    λ k ne. find-Wrote_ne k (insert-Wrote wrote) (λ e. ne (sym id_is ∙ e)),
                    rw (← run_is, ← stage_is)
                        (moved_run ctx run_found (is ∙ trim_queued) rewritten),
                  )

  -- A step that is enqueued was not there before: its trimmed arguments are stored with the status
  -- `ready`, the run that it names was there and is queued at its stage, with no completion time,
  -- and all other steps and runs are as they were.
  pub enqueue_workflow_step_effect :
      (db : Db) {db' : Db}
      → enqueue_workflow_step ctx step_id run_id agent_id stage owner_execution input_json
          depends_on_step_id db
        ≡ ok db'
      → (S.find db.workflow_step (trim step_id) ≡ none)
        × (S.find db'.workflow_step (trim step_id) ≡ some enqueued)
        × ((k : String) → trim step_id ≢ k → S.find db'.workflow_step k ≡ S.find db.workflow_step k)
        × RunMoved ctx (trim run_id) "queued" (trim stage) none db db'
  enqueue_workflow_step_effect db {db'} e = (enqueue_Ensures db).at db' e
