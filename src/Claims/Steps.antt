-- ===== src/Claims/Steps.antt =====
-- `claim_workflow_step` of spacetimedb/src/lib.rs.
use cadet.Shared.{
  String, ◌≡◌, ◌≢◌, refl, sym, ◌∙◌, false, not, some, ok, arith, ◌==◌, eq_iff, Ensures, Ensures-ok,
  Ensures-bind, or_err-eq-ok, refuse_if-eq-ok, ◌>>=◌,
}
use cadet.Store.{Store}
use cadet.Store.Tables.{update_found, update-Wrote, find-Wrote_self, find-Wrote_ne}
use cadet.Text.{is_empty, trim}
use cadet.Text.Checks.{
  IsIdentifier, validate_identifier_iff, validate_text-eq-trim, validate_text_complete,
}
use cadet.Vocab.Enum.{IsWord}
use cadet.Vocab.ExecutionOwner.{execution_owner}
use cadet.Validate.{validate_execution_owner}
use cadet.Validate.Words.{parse_as_iff}
use cadet.Rows.Workflow.{WorkflowStep}
use cadet.Db.{Db, Context, now_micros}
use cadet.Reducers.Steps.{claim_workflow_step}
use cadet.Claims.{StepClaimed}

pub tests_equal : (s t : String) → not (s == t) ≡ false → s ≡ t
tests_equal s t h = ground (arith, eq_iff s t)

module _ ⦃S : Store⦄ (ctx : Context) (step_id owner_execution runner_id : String) (db : Db) where
  claim_Ensures :
      Ensures
        (StepClaimed ctx (trim step_id) (trim owner_execution) (trim runner_id) db)
        (claim_workflow_step ctx step_id owner_execution runner_id db)
  unfolding claim_workflow_step validate_execution_owner
  claim_Ensures = Ensures-bind λ id valid_id. Ensures-bind λ owner valid_owner.
      Ensures-bind λ runner valid_runner. Ensures-bind λ step found. Ensures-bind λ _ owned.
        Ensures-bind λ _ ready. Ensures-bind λ steps wrote.
          let id_is = ((validate_identifier_iff step_id "step_id" id).0 valid_id).0 in
          let owner_is =
            ((parse_as_iff execution_owner owner_execution "owner_execution" owner).0
              valid_owner).0 in
          let runner_is = (validate_text-eq-trim runner_id "runner_id" valid_runner).0 in
          let known = or_err-eq-ok _ _ found in
          let key = S.find-key _ _ _ known in
          Ensures-ok (record {
            step = step;
            found = rw (← id_is) known;
            ready = tests_equal _ _ (refuse_if-eq-ok _ _ ready);
            owned = rw (← owner_is) (tests_equal _ _ (refuse_if-eq-ok _ _ owned));
            taken = rw (← id_is, ← runner_is, ← key) (find-Wrote_self (update-Wrote wrote));
            others =
                λ k ne. find-Wrote_ne k (update-Wrote wrote) (λ e. ne (sym id_is ∙ sym key ∙ e));
          })

  -- A claim that succeeds has found the step ready and for the owner that the caller names. The step
  -- is then running for the runner that the caller names, since the time of the call, and all other
  -- steps are as they were.
  pub claim_workflow_step_effect :
      {db' : Db}
      → claim_workflow_step ctx step_id owner_execution runner_id db ≡ ok db'
      → StepClaimed ctx (trim step_id) (trim owner_execution) (trim runner_id) db db'
  claim_workflow_step_effect {db'} e = claim_Ensures.at db' e

  -- A claim with valid arguments of a step that is there, ready and for this owner succeeds.
  pub claim_workflow_step_succeeds :
      (step : WorkflowStep)
      → IsIdentifier (trim step_id)
      → IsWord execution_owner (trim owner_execution)
      → is_empty (trim runner_id) ≡ false
      → S.find db.workflow_step (trim step_id) ≡ some step
      → step.owner_execution ≡ trim owner_execution
      → step.status ≡ "ready"
      → (db' : Db) × (claim_workflow_step ctx step_id owner_execution runner_id db ≡ ok db')
  unfolding claim_workflow_step validate_execution_owner ◌>>=◌
  claim_workflow_step_succeeds step id_valid owner_word runner_filled found owned ready =
      let id_ok = (validate_identifier_iff step_id "step_id" (trim step_id)).1 (refl, id_valid) in
      let owner_ok =
        (parse_as_iff execution_owner owner_execution "owner_execution" (trim owner_execution)).1
          (refl, owner_word) in
      let runner_ok = validate_text_complete runner_id "runner_id" runner_filled in
      let owner_test = (eq_iff step.owner_execution (trim owner_execution)).1 owned in
      let ready_test = (eq_iff step.status "ready").1 ready in
      let now = now_micros ctx in
      let row : WorkflowStep = record step {
        status = "running";
        runner_id = some (trim runner_id);
        claimed_at_micros = some now;
        updated_at_micros = now;
      } in
      let (steps, updated) = update_found db.workflow_step row step found refl in
      (
        record db { workflow_step = steps },
        rw (id_ok, owner_ok, runner_ok, found, owner_test, ready_test, updated),
      )

module _ ⦃S : Store⦄ where
  -- Once a claim of a step has succeeded, no other claim of it succeeds on the database that the
  -- first one left, whoever makes it.
  pub claim_workflow_step_exclusive :
      (ctx ctx' : Context) (step_id step_id' owner owner' runner runner' : String) (db db' : Db)
      → claim_workflow_step ctx step_id owner runner db ≡ ok db'
      → trim step_id' ≡ trim step_id
      → (db'' : Db) → claim_workflow_step ctx' step_id' owner' runner' db' ≢ ok db''
  claim_workflow_step_exclusive ctx ctx' step_id step_id' owner owner' runner runner' db db' first
        same db'' second =
      let a = claim_workflow_step_effect ctx step_id owner runner db first in
      let b = claim_workflow_step_effect ctx' step_id' owner' runner' db' second in
      ground (arith, a.taken, b.found, b.ready, same, eq_iff "running" "ready")
