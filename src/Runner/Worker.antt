-- ===== src/Runner/Worker.antt =====
-- `maybe_handle_step` of rust/starbridge-runner/src/main.rs together with `claim_workflow_step` of
-- spacetimedb/src/lib.rs.
use cadet.Shared.{
  String, ◌≡◌, refl, sym, ◌∙◌, ap, Result, ok, err, panicked, some, none, true, ◌==◌, eq_iff,
  eq_refl, arith, Option, Bool-cases, inl, inr,
}
use cadet.Store.{Store}
use cadet.Text.{trim}
use cadet.Text.Checks.{IsTidy, IsIdentifier}
use cadet.Vocab.Enum.{IsWord}
use cadet.Vocab.ExecutionOwner.{
  ExecutionOwner, execution_owner, as_str, from_str-as_str, from_str as owner_from_str,
}
use cadet.Vocab.StepState.{StepState, step_state, from_str}
use cadet.Rows.Workflow.{WorkflowStep}
use cadet.Db.{Db, Context, now_micros}
use cadet.Claims.Steps.{claim_workflow_step_succeeds, claim_workflow_step_effect}
use cadet.System.{Call, perform}
use cadet.Runner.{WorkerState, Action, maybe_handle_step, is_runner, step_action, parsed}

trim-as_str : (owner : ExecutionOwner) → trim (as_str owner) ≡ as_str owner
unfolding trim as_str
trim-as_str ExecutionOwner.local_runner = refl
trim-as_str ExecutionOwner.vercel_edge = refl
trim-as_str ExecutionOwner.container_runner = refl
trim-as_str ExecutionOwner.maincloud_runner = refl
trim-as_str ExecutionOwner.browser_worker = refl
trim-as_str ExecutionOwner.learning_worker = refl
trim-as_str ExecutionOwner.external_agent = refl

as_str-IsWord : (owner : ExecutionOwner) → IsWord execution_owner (trim (as_str owner))
unfolding execution_owner
as_str-IsWord owner = record { variant = owner; spelled = sym (trim-as_str owner) }

is_runner_eq :
    (runner : Option String) (id : String) → is_runner runner id ≡ true → runner ≡ some id
is_runner_eq none id h = cc
is_runner_eq (some runner) id h = ap some ((eq_iff runner id).0 h)

module _ ⦃S : Store⦄ where
  step_action_needs :
      (state : WorkerState) (step row : WorkflowStep) (status : StepState)
      → step_action state step status ≡ Action.process_workflow_step row
      → is_runner step.runner_id state.runner_id ≡ true
  step_action_needs state step row StepState.ready h = cc
  step_action_needs state step row StepState.running h = ground arith
  step_action_needs state step row StepState.blocked h = cc
  step_action_needs state step row StepState.waiting_approval h = cc
  step_action_needs state step row StepState.completed h = cc
  step_action_needs state step row StepState.failed h = cc
  step_action_needs state step row StepState.claimed h = cc
  step_action_needs state step row StepState.cancelled h = cc

  parsed_needs :
      (state : WorkerState) (step row : WorkflowStep) (status : Result StepState)
      → parsed status (step_action state step) ≡ Action.process_workflow_step row
      → is_runner step.runner_id state.runner_id ≡ true
  parsed_needs state step row (ok status) h = step_action_needs state step row status h
  parsed_needs state step row (err message) h = cc
  parsed_needs state step row panicked h = cc

as_str_injective : (a b : ExecutionOwner) → as_str a ≡ as_str b → a ≡ b
as_str_injective a b h =
    let same : ok a ≡ ok b = sym (from_str-as_str a) ∙ ap owner_from_str h ∙ from_str-as_str b in cc

module _ ⦃S : Store⦄ where
  -- What a step looks like that a worker works on.
  process_needs :
      (state : WorkerState) (step row : WorkflowStep)
      → maybe_handle_step state step ≡ Action.process_workflow_step row
      → (step.runner_id ≡ some state.runner_id) × (step.owner_execution ≡ as_str state.owner)
  unfolding maybe_handle_step
  process_needs state step row h = elim (Bool-cases (step.owner_execution == as_str state.owner)) [
    | inl owned ↦ (
      is_runner_eq step.runner_id state.runner_id
          (parsed_needs state step row (step_state.from_str step.status) (rw owned at h)),
      (eq_iff step.owner_execution (as_str state.owner)).0 owned,
    )
    | inr other ↦
        absurd (let idle : Action.idle ≡ Action.process_workflow_step row = rw other at h in cc)
  ]

  -- A step is worked on for one runner only: two workers that both work on what they see of it, be it
  -- the same row, have the same runner id, and are for the same owner.
  pub maybe_handle_step-process_unique :
      (state state' : WorkerState) (step row row' : WorkflowStep)
      → maybe_handle_step state step ≡ Action.process_workflow_step row
      → maybe_handle_step state' step ≡ Action.process_workflow_step row'
      → (state.runner_id ≡ state'.runner_id) × (state.owner ≡ state'.owner)
  maybe_handle_step-process_unique state state' step row row' h k =
      let a = process_needs state step row h in
      let b = process_needs state' step row' k in (cc, as_str_injective _ _ (sym a.1 ∙ b.1))

  module _ (state : WorkerState) (step : WorkflowStep)
      (owned : step.owner_execution ≡ as_str state.owner) where
    ready_sends :
        step.status ≡ "ready"
        → maybe_handle_step state step
          ≡ Action.send (Call.claim_workflow_step step.step_id (as_str state.owner) state.runner_id)
    unfolding maybe_handle_step step_state from_str
    ready_sends ready = rw (owned, eq_refl (as_str state.owner), ready) refl

    running_works :
        step.status ≡ "running"
        → step.runner_id ≡ some state.runner_id
        → maybe_handle_step state step ≡ Action.process_workflow_step step
    unfolding maybe_handle_step step_state from_str
    running_works running mine =
        rw (owned, eq_refl (as_str state.owner), running, mine, eq_refl state.runner_id) refl

module _ ⦃S : Store⦄ where
  -- A worker that sees a ready step of its owner sends a claim of it. On the tables that hold this
  -- step, the claim succeeds, and of the step that is stored then the same worker sees that it is to
  -- work on it; so if the id of the step is an identifier, and the worker's has no white space at its
  -- ends and is not empty.
  pub maybe_handle_step-takes :
      (ctx : Context) (state : WorkerState) (step : WorkflowStep) (db : Db)
      → S.find db.workflow_step step.step_id ≡ some step
      → IsIdentifier step.step_id
      → IsTidy state.runner_id
      → step.owner_execution ≡ as_str state.owner
      → step.status ≡ "ready"
      → (call : Call) × (maybe_handle_step state step ≡ Action.send call)
        × ((db' : Db) × (perform ctx call db ≡ ok db')
            × ((taken : WorkflowStep) × (S.find db'.workflow_step step.step_id ≡ some taken)
                × (maybe_handle_step state taken ≡ Action.process_workflow_step taken)))
  unfolding perform
  maybe_handle_step-takes ctx state step db found id tidy owned ready =
      let owner = as_str state.owner in
      let trimmed = id.tidy.trimmed in
      let owner_trimmed = trim-as_str state.owner in
      let (db', claimed) =
        claim_workflow_step_succeeds ctx step.step_id owner state.runner_id db step (rw trimmed id)
          (as_str-IsWord state.owner) (rw tidy.trimmed tidy.filled) (rw trimmed found)
          (owned ∙ sym owner_trimmed) ready in
      let effect = claim_workflow_step_effect ctx step.step_id owner state.runner_id db claimed in
      let taken : WorkflowStep = record effect.step {
        status = "running";
        runner_id = some (trim state.runner_id);
        claimed_at_micros = some (now_micros ctx);
        updated_at_micros = now_micros ctx;
      } in
      (
        Call.claim_workflow_step step.step_id owner state.runner_id,
        ready_sends state step owned ready,
        (
          db',
          claimed,
          (
            taken,
            rw trimmed at effect.taken,
            running_works state taken (effect.owned ∙ owner_trimmed) refl (ap some tidy.trimmed),
          ),
        ),
      )
