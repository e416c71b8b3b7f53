-- ===== src/Runner.antt =====
-- The worker of rust/starbridge-runner/src/main.rs: which rows it acts on, whom it names as the
-- owner of a step, and how it writes a shell command.
pub mod Worker
pub mod Tasks
pub mod Owners
pub mod Shell
pub mod Next
pub mod Process
use cadet.Shared.{
  String, Bool, true, false, not, ◌==◌, ◌||◌, if◌then◌else◌, Option, some, none, Result, ok, err,
  panicked,
}
use cadet.Store.{Store}
use cadet.Vocab.ExecutionOwner.{ExecutionOwner, as_str}
use cadet.Vocab.ExecutionTarget.{ExecutionTarget, as_str as target_str}
use cadet.Vocab.WorkflowStage.{WorkflowStage}
use cadet.Vocab.StepState.{StepState, step_state}
use cadet.Vocab.BrowserTaskState.{BrowserTaskState, browser_task_state}
use cadet.Rows.Workflow.{WorkflowStep}
use cadet.Rows.Browser.{BrowserTask}
use cadet.System.{Call}

-- The owner and the runner that a worker is started for.
pub record WorkerState : Type 0 where
  pub owner : ExecutionOwner
  pub runner_id : String

module _ ⦃S : Store⦄ where
  -- What a handler does with a row: nothing, a call of a reducer whose result is dropped, or the work.
  pub data Action : Type 0 where
    idle : Action
    send : Call → Action
    process_workflow_step : WorkflowStep → Action
    process_browser_task : BrowserTask → Action

-- `runner_id.as_deref() == Some(id)`
abbrev pub is_runner : Option String → String → Bool
is_runner none id = false
is_runner (some runner) id = runner == id

module _ ⦃S : Store⦄ where
  abbrev pub step_action : WorkerState → WorkflowStep → StepState → Action
  step_action state step StepState.ready =
      Action.send (Call.claim_workflow_step step.step_id (as_str state.owner) state.runner_id)
  step_action state step StepState.running =
      if is_runner step.runner_id state.runner_id
      then Action.process_workflow_step step
      else Action.idle
  step_action state step _ = Action.idle

  abbrev pub parsed {ℓ} : {A : Type ℓ} → Result A → (A → Action) → Action
  parsed (ok a) act = act a
  parsed (err message) act = Action.idle
  parsed panicked act = Action.idle

  unfoldable pub maybe_handle_step : WorkerState → WorkflowStep → Action
  maybe_handle_step state step =
      if not (step.owner_execution == as_str state.owner)
      then Action.idle
      else parsed (step_state.from_str step.status) (step_action state step)

abbrev is_browser_worker : ExecutionOwner → Bool
is_browser_worker ExecutionOwner.browser_worker = true
is_browser_worker _ = false

module _ ⦃S : Store⦄ where
  abbrev task_action : WorkerState → BrowserTask → BrowserTaskState → Action
  task_action state task BrowserTaskState.queued =
      Action.send (Call.claim_browser_task task.task_id state.runner_id)
  task_action state task BrowserTaskState.running =
      if is_runner task.runner_id state.runner_id
      then Action.process_browser_task task
      else Action.idle
  task_action state task _ = Action.idle

  unfoldable pub maybe_handle_browser_task : WorkerState → BrowserTask → Action
  maybe_handle_browser_task state task =
      if not (is_browser_worker state.owner)
        || not (task.owner_execution == as_str ExecutionOwner.browser_worker)
      then Action.idle
      else parsed (browser_task_state.from_str task.status) (task_action state task)

unfoldable pub from_target : ExecutionTarget → ExecutionOwner
from_target ExecutionTarget.local_runner = ExecutionOwner.local_runner
from_target ExecutionTarget.vercel_edge = ExecutionOwner.vercel_edge
from_target ExecutionTarget.container_runner = ExecutionOwner.container_runner
from_target ExecutionTarget.maincloud_runner = ExecutionOwner.maincloud_runner

-- `execution` is `manifest.deployment.execution`, and `text` how it is printed.
abbrev by_target : ExecutionTarget → String → ExecutionOwner
by_target execution text =
    if text == "vercel-edge" then ExecutionOwner.container_runner else from_target execution

-- The arms of the source in their order: the guard of the second leaves the last two to decide.
unfoldable pub owner_for_stage : ExecutionTarget → WorkflowStage → Bool → ExecutionOwner
owner_for_stage execution WorkflowStage.learn browser_required = ExecutionOwner.learning_worker
owner_for_stage execution WorkflowStage.gather true = ExecutionOwner.browser_worker
owner_for_stage execution WorkflowStage.verify true = ExecutionOwner.browser_worker
owner_for_stage execution WorkflowStage.route browser_required = from_target execution
owner_for_stage execution WorkflowStage.plan browser_required =
    by_target execution (target_str execution)
owner_for_stage execution WorkflowStage.gather false = by_target execution (target_str execution)
owner_for_stage execution WorkflowStage.act browser_required =
    by_target execution (target_str execution)
owner_for_stage execution WorkflowStage.verify false = by_target execution (target_str execution)
owner_for_stage execution WorkflowStage.summarize browser_required =
    by_target execution (target_str execution)
