-- ===== src/Examples/Runner.antt =====
-- A worker, the next step of a run, and shell words, on the tables of the examples.
use Prim.Native.String.{◌++◌}
use cadet.Shared.{
  String, Bool, ◌≡◌, refl, ok, some, none, Option, List, [], ◌∷◌, true, false, if◌then◌else◌, ◌==◌,
}
use cadet.Shared.Int.{pos}
use cadet.Text.{is_empty, trim}
use cadet.Text.Checks.{IsTidy, IsIdentifier}
use cadet.Vocab.ExecutionOwner.{ExecutionOwner, as_str}
use cadet.Vocab.ExecutionTarget.{ExecutionTarget}
use cadet.Vocab.WorkflowStage.{WorkflowStage, from_str, next, as_str as stage_str}
use cadet.Rows.Workflow.{WorkflowStep}
use cadet.Db.{Db}
use cadet.System.{Call, perform, commit, run}
use cadet.Runner.{WorkerState, Action, maybe_handle_step, owner_for_stage}
use cadet.Runner.Worker.{maybe_handle_step-takes, maybe_handle_step-process_unique}
use cadet.Runner.Owners.{owner_for_stage-edge}
use cadet.Runner.Next.{Json, enqueue_next_step, next_step_id}
use cadet.Runner.Next.Once.{enqueue_next_step-stores, enqueue_next_step-once}
use cadet.Runner.Shell.{Mode, read_word, shell_escape, space, read_word-shell_escape}
use cadet.Runner.Process.{BrowserOutcome, attempt, process_browser_task}
use cadet.Runner.Process.Ends.{EndedAs, timed, process_browser_task-ends}
use cadet.Examples.{tables, at, step, task, workflow, busy, step_at}

read_word-shell_escape_example :
    read_word Mode.bare (shell_escape "a'; rm -rf b" ++ String.◌∷◌ space "&& wait")
    ≡ some ("a'; rm -rf b", String.◌∷◌ space "&& wait")
read_word-shell_escape_example = read_word-shell_escape "a'; rm -rf b" "&& wait"

owner_for_stage-edge_example :
    (WorkflowStage.route ≡ WorkflowStage.route)
    × (ExecutionTarget.vercel_edge ≡ ExecutionTarget.vercel_edge)
unfolding owner_for_stage cadet.Runner.from_target
owner_for_stage-edge_example =
    owner_for_stage-edge ExecutionTarget.vercel_edge WorkflowStage.route false refl

abbrev learner : WorkerState
learner = record { owner = ExecutionOwner.learning_worker; runner_id = "runner-1" }

id_valid : IsIdentifier "run-1_learn"
unfolding trim cadet.Text.is_identifier_char
id_valid = record { tidy = record { trimmed = refl; filled = refl }; chars = refl }

learner-IsTidy : IsTidy "runner-1"
unfolding trim
learner-IsTidy = record { trimmed = refl; filled = refl }

maybe_handle_step-takes_example :
    (call : Call) × (maybe_handle_step learner step ≡ Action.send call)
    × ((db' : Db) × (perform (at (pos 5)) call busy ≡ ok db')
        × ((taken : WorkflowStep) × (step_at db' "run-1_learn" ≡ some taken)
            × (maybe_handle_step learner taken ≡ Action.process_workflow_step taken)))
unfolding as_str
maybe_handle_step-takes_example =
    maybe_handle_step-takes (at (pos 5)) learner step busy refl id_valid learner-IsTidy refl refl

abbrev taken_step : WorkflowStep
taken_step = record step { status = "running"; runner_id = some "runner-1" }

works : maybe_handle_step learner taken_step ≡ Action.process_workflow_step taken_step
unfolding maybe_handle_step as_str cadet.Vocab.StepState.step_state cadet.Vocab.StepState.from_str
works = refl

maybe_handle_step-process_unique_example :
    (learner.runner_id ≡ learner.runner_id) × (learner.owner ≡ learner.owner)
maybe_handle_step-process_unique_example =
    maybe_handle_step-process_unique learner learner taken_step taken_step taken_step works works

-- JSON values whose objects hold printed values.
data Value : Type 0 where
  null : Value
  str : String → Value
  bool : Bool → Value
  object : List (String × String) → Value

abbrev printed : Value → String
printed Value.null = "null"
printed (Value.str s) = s
printed (Value.bool true) = "true"
printed (Value.bool false) = "false"
printed (Value.object o) = "{}"

abbrev lookup : List (String × String) → String → Option Value
lookup [] key = none
lookup ((name, text) ∷ o) key = if name == key then some (Value.str text) else lookup o key

abbrev get : Value → String → Option Value
get (Value.object o) key = lookup o key
get _ key = none

abbrev as_text : Value → Option String
as_text (Value.str s) = some s
as_text _ = none

abbrev as_bool : Value → Option Bool
as_bool (Value.bool b) = some b
as_bool _ = none

abbrev as_object : Value → Option (List (String × String))
as_object (Value.object o) = some o
as_object _ = none

blank_free : is_empty (trim "{}") ≡ false
unfolding trim
blank_free = refl

instance abbrev json : Json
json = record {
  Value = Value;
  Object = List (String × String);
  get = get;
  as_str = as_text;
  as_bool = as_bool;
  as_object = as_object;
  null = Value.null;
  str = Value.str;
  bool = Value.bool;
  new = [];
  insert = λ o key value. (key, printed value) ∷ o;
  to_string = λ o. some "{}";
  print = λ o. "{}";
  print-filled = λ o. blank_free;
}

-- The step before, of the stage `plan`.
abbrev planned : WorkflowStep
planned = record step { step_id = "run-1_plan"; stage = "plan"; status = "completed" }

abbrev input : Value
input = Value.object (("goal", "report") ∷ [])

abbrev gather_call : Call
gather_call =
    Call.enqueue_workflow_step "run-1_gather" "run-1" "saturn" "gather" "container-runner" "{}"
      (some "run-1_plan")

gather_sent :
    enqueue_next_step busy ExecutionTarget.vercel_edge planned input Value.null
    ≡ Action.send gather_call
unfolding enqueue_next_step from_str next stage_str as_str owner_for_stage
    cadet.Vocab.ExecutionTarget.as_str
gather_sent = refl

abbrev gathering : Db
gathering = commit busy (perform (at (pos 6)) gather_call busy)

gather_stored : perform (at (pos 6)) gather_call busy ≡ ok gathering
unfolding perform cadet.Reducers.Steps.enqueue_workflow_step cadet.Reducers.Steps.check_option
    cadet.Reducers.Runs.update_workflow_run_status cadet.Shared.◌>>=◌ cadet.Text.validate_identifier
    cadet.Text.normalize_json_blob cadet.Validate.validate_stage
    cadet.Validate.validate_execution_owner cadet.Validate.validate_workflow_run_status
    cadet.Validate.parse_as cadet.Text.validate_text cadet.Vocab.ExecutionOwner.execution_owner
    cadet.Vocab.ExecutionOwner.from_str cadet.Vocab.ExecutionOwner.as_str
    cadet.Vocab.WorkflowStage.workflow_stage cadet.Vocab.WorkflowStage.from_str
    cadet.Vocab.WorkflowStage.as_str cadet.Vocab.RunState.run_state cadet.Vocab.RunState.from_str
    cadet.Vocab.RunState.as_str
gather_stored = refl

enqueue_next_step-stores_example :
    (current stage : WorkflowStage) × (from_str planned.stage ≡ ok current)
    × (next current ≡ some stage)
    × ((row : WorkflowStep) × (step_at gathering (trim (next_step_id planned stage)) ≡ some row)
        × (row.stage ≡ stage_str stage)
        × (row.status ≡ "ready")
        × (row.run_id ≡ trim planned.run_id)
        × (row.depends_on_step_id ≡ some (trim planned.step_id)))
enqueue_next_step-stores_example =
    enqueue_next_step-stores busy ExecutionTarget.vercel_edge planned input Value.null (at (pos 6))
      gather_call gathering gather_sent gather_stored

next_ids_tidy :
    (stage : WorkflowStage) → trim (next_step_id planned stage) ≡ next_step_id planned stage
unfolding trim stage_str
next_ids_tidy WorkflowStage.route = refl
next_ids_tidy WorkflowStage.plan = refl
next_ids_tidy WorkflowStage.gather = refl
next_ids_tidy WorkflowStage.act = refl
next_ids_tidy WorkflowStage.verify = refl
next_ids_tidy WorkflowStage.summarize = refl
next_ids_tidy WorkflowStage.learn = refl

enqueue_next_step-once_example :
    enqueue_next_step gathering ExecutionTarget.local_runner planned Value.null input ≡ Action.idle
enqueue_next_step-once_example =
    enqueue_next_step-once busy ExecutionTarget.vercel_edge planned input Value.null next_ids_tidy
      (at (pos 6)) gather_call gathering gather_sent gather_stored ExecutionTarget.local_runner
      Value.null input

task_id-IsIdentifier : IsIdentifier "task-1"
unfolding trim cadet.Text.is_identifier_char
task_id-IsIdentifier = record { tidy = record { trimmed = refl; filled = refl }; chars = refl }

-- A connection that refuses the records of tool calls.
abbrev refuses_tool_calls : Call → Option String
refuses_tool_calls (Call.record_tool_call x0 x1 x2 x3 x4 x5 x6 x7) = some "disconnected"
refuses_tool_calls _ = none

abbrev page : BrowserOutcome
page = BrowserOutcome.captured "Browser worker captured x" "Hello" (some "/tmp/shot.png")

tool_call_refused : (attempt task refuses_tool_calls page).error ≡ some "disconnected"
unfolding attempt
tool_call_refused = refl

sent_all : (attempt task (λ call. none) page).error ≡ none
unfolding attempt
sent_all = refl

process_browser_task-ends_example :
    EndedAs task
      (attempt task refuses_tool_calls page).error
      (run (timed (λ call. at (pos 7)) (process_browser_task task refuses_tool_calls [] page)) busy)
process_browser_task-ends_example =
    process_browser_task-ends task refuses_tool_calls (λ call. at (pos 7)) busy step workflow page
      task_id-IsIdentifier (λ error. refl) refl refl refl
