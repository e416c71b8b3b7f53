-- ===== src/Runner/Process.antt =====
-- `process_browser_task` of rust/starbridge-runner/src/main.rs: the calls of reducers that a worker
-- makes for a task it has claimed. What the browser gave (`run_browser_task`, which runs a shell or
-- fetches the address) is a parameter, and so is what the connection answers to a call.
mod Held
pub mod Ends
use Prim.Native.String.{◌++◌}
use cadet.Shared.{
  ℕ, zero, suc, String, Bool, Option, some, none, if◌then◌else◌, List, [], ◌∷◌, ◌==◌, ◌||◌, false,
}
use mathlib.Core.List.{◌++◌ as ◌+++◌}
use cadet.Store.{Store}
use cadet.Vocab.ToolCallState.{ToolCallState, as_str as tool_call_str}
use cadet.Rows.Browser.{BrowserTask}
use cadet.System.{Call}
use cadet.Runner.Next.{Json}

-- What `run_browser_task` gave: a summary, the text of the page and where its screenshot is, or an
-- error.
pub data BrowserOutcome : Type 0 where
  captured : String → String → Option String → BrowserOutcome
  failed : String → BrowserOutcome

-- `s.chars().take(n).collect()`
unfoldable pub take : ℕ → String → String
take n String.[] = ""
take zero (String.◌∷◌ c s) = ""
take (suc n) (String.◌∷◌ c s) = String.◌∷◌ c (take n s)

abbrev is_active : List String → String → Bool
is_active [] id = false
is_active (known ∷ ids) id = (known == id) || is_active ids id

module _ ⦃S : Store⦄ where
  -- The calls that went out, and the error that ended the work early.
  pub record Attempt : Type 0 where
    pub sent : List Call
    pub error : Option String

  -- The connection refuses a call with an error, or sends it: the client does not wait for the
  -- reducer to end.
  module _ (send : Call → Option String) where
    abbrev and_if : Option String → Call → Attempt → Attempt
    and_if none call rest = record { sent = call ∷ rest.sent; error = rest.error }
    and_if (some error) call rest = record { sent = []; error = some error }

    -- `reducers.call(...).map_err(|error| error.to_string())?; rest`
    abbrev pub and_try : Call → Attempt → Attempt
    and_try call rest = and_if (send call) call rest

    abbrev dropped : Option String → Call → List Call
    dropped none call = call ∷ []
    dropped (some error) call = []

    -- `let _ = reducers.call(...)`
    abbrev pub and_drop : Call → List Call
    and_drop call = dropped (send call) call

  module _ ⦃J : Json⦄ (task : BrowserTask) where
    abbrev pub result_object : String → String → J.Object
    result_object summary content =
        let o1 = J.insert J.new "summary" (J.str summary) in
        let o2 = J.insert o1 "content" (J.str content) in
        let o3 = J.insert o2 "mode" (J.str task.mode) in J.insert o3 "url" (J.str task.url)

    abbrev pub result_text : String → String → String
    result_text summary content = J.print (result_object summary content)

    abbrev pub error_object : String → J.Object
    error_object error = J.insert J.new "error" (J.str error)

    abbrev pub tool_call : String → Call
    tool_call result =
        Call.record_tool_call ("tool_" ++ task.task_id) task.run_id task.step_id task.agent_id
          "browser" (tool_call_str ToolCallState.completed) task.request_json (some result)

    abbrev pub text_artifact : String → Call
    text_artifact content =
        Call.record_browser_artifact ("artifact_" ++ (task.task_id ++ "_text")) task.task_id
          task.run_id task.step_id "text" ("Browser text for " ++ task.url)
          ("inline://browser-text/" ++ task.task_id)
          (J.print (J.insert J.new "contentPreview" (J.str (take 800 content))))

    abbrev pub screenshot_artifact : String → Call
    screenshot_artifact path =
        Call.record_browser_artifact ("artifact_" ++ (task.task_id ++ "_screenshot")) task.task_id
          task.run_id task.step_id "screenshot" ("Browser screenshot for " ++ task.url) path "{}"

    abbrev pub failure : String → Call
    failure error = Call.fail_browser_task task.task_id (J.print (error_object error))

    module _ (send : Call → Option String) where
      abbrev pub screenshot_calls : Option String → List Call
      screenshot_calls none = []
      screenshot_calls (some path) = and_drop send (screenshot_artifact path)

      -- The closure whose error is caught.
      unfoldable pub attempt : BrowserOutcome → Attempt
      attempt (captured summary content screenshot) =
          let result = result_text summary content in
          let last =
            and_try send (Call.complete_browser_task task.task_id result)
              (record { sent = []; error = none }) in
          and_try send (tool_call result) (
            and_try send (text_artifact content)
              (record { sent = screenshot_calls screenshot +++ last.sent; error = last.error }))
      attempt (failed error) = record { sent = []; error = some error }

      abbrev pub failure_calls : Option String → List Call
      failure_calls none = []
      failure_calls (some error) = and_drop send (failure error)

      -- `active` are the tasks that this worker is at work on; the task is added to them first and
      -- removed at the end, so they are the same afterwards.
      unfoldable pub process_browser_task : List String → BrowserOutcome → List Call
      process_browser_task active outcome =
          let work = attempt outcome in
          if is_active active task.task_id then [] else work.sent +++ failure_calls work.error
