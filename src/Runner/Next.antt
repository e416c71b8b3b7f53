-- ===== src/Runner/Next.antt =====
-- `enqueue_next_step` of rust/starbridge-runner/src/main.rs, over the JSON values of serde_json,
-- which is not part of this repository.
pub mod Once
use Prim.Native.String.{◌++◌}
use cadet.Shared.{
  String, ◌≡◌, Bool, true, false, Option, some, none, is_some, Result, ok, err, panicked,
  if◌then◌else◌,
}
use mathlib.Core.Option
use cadet.Store.{Store}
use cadet.Text.{is_empty, trim}
use cadet.Vocab.ExecutionOwner.{as_str as owner_str}
use cadet.Vocab.ExecutionTarget.{ExecutionTarget}
use cadet.Vocab.WorkflowStage.{WorkflowStage, from_str, as_str, next}
use cadet.Rows.Workflow.{WorkflowStep}
use cadet.Db.{Db}
use cadet.System.{Call}
use cadet.Runner.{Action, owner_for_stage}

-- `serde_json::Value` and `serde_json::Map`, as far as the runner uses them.
pub record Json : Type 1 where
  pub Value : Type 0
  pub Object : Type 0
  pub get : Value → String → Option Value
  pub as_str : Value → Option String
  pub as_bool : Value → Option Bool
  pub as_object : Value → Option Object
  pub null : Value
  pub str : String → Value
  pub bool : Bool → Value
  pub new : Object
  pub insert : Object → String → Value → Object
  -- `serde_json::to_string`, which may fail.
  pub to_string : Object → Option String
  -- `Value::Object(o).to_string()`, which has braces at its ends.
  pub print : Object → String
  pub print-filled : (o : Object) → is_empty (trim (print o)) ≡ false

abbrev pub unwrap_or {ℓ} : {A : Type ℓ} → Option A → A → A
unwrap_or none other = other
unwrap_or (some a) other = a

-- `o.and_then(f)`
abbrev pub and_then {ℓ κ} : {A : Type ℓ} {B : Type κ} → Option A → (A → Option B) → Option B
and_then none f = none
and_then (some a) f = f a

module _ ⦃J : Json⦄ where
  abbrev pub browser_required : J.Value → Bool
  browser_required input = unwrap_or (and_then (J.get input "browserRequired") J.as_bool) false

  -- The input of the next step: that of this one, with its output and where it stands.
  abbrev pub next_input : WorkflowStep → WorkflowStage → J.Value → J.Value → J.Object
  next_input step current_stage input outcome =
      let o0 = unwrap_or (J.as_object input) J.new in
      let o1 = J.insert o0 "goal" (J.str (unwrap_or (and_then (J.get input "goal") J.as_str) "")) in
      let o2 = J.insert o1 "runId" (J.str step.run_id) in
      let o3 = J.insert o2 "threadId" (unwrap_or (J.get input "threadId") J.null) in
      let o4 = J.insert o3 "channel" (unwrap_or (J.get input "channel") (J.str "system")) in
      let o5 = J.insert o4 "browserRequired" (J.bool (browser_required input)) in
      let o6 = J.insert o5 "browserMode" (unwrap_or (J.get input "browserMode") (J.str "read")) in
      let o7 = J.insert o6 "previousStage" (J.str (as_str current_stage)) in
      J.insert o7 "previousOutput" outcome

  -- `format!("{}_{}", step.run_id, stage)`
  abbrev pub next_step_id : WorkflowStep → WorkflowStage → String
  next_step_id step stage = step.run_id ++ ("_" ++ as_str stage)

  module _ ⦃S : Store⦄ (tables : Db) (execution : ExecutionTarget) (step : WorkflowStep)
      (input outcome : J.Value) where
    abbrev pub enqueue_call : WorkflowStage → WorkflowStage → Call
    enqueue_call current_stage stage =
        Call.enqueue_workflow_step (next_step_id step stage) step.run_id step.agent_id
          (as_str stage) (owner_str (owner_for_stage execution stage (browser_required input)))
          (unwrap_or (J.to_string (next_input step current_stage input outcome)) "{}")
          (some step.step_id)

    abbrev pub enqueue_at : WorkflowStage → Option WorkflowStage → Action
    enqueue_at current_stage none = Action.idle
    enqueue_at current_stage (some stage) =
        if is_some (S.find tables.workflow_step (next_step_id step stage))
        then Action.idle
        else Action.send (enqueue_call current_stage stage)

    -- `step.stage` is parsed; a text that is no stage ends the handler.
    abbrev pub enqueue_after : Result WorkflowStage → Action
    enqueue_after (ok current_stage) = enqueue_at current_stage (next current_stage)
    enqueue_after (err message) = Action.idle
    enqueue_after panicked = Action.idle

    unfoldable pub enqueue_next_step : Action
    enqueue_next_step = enqueue_after (from_str step.stage)
