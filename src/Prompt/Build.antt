-- ===== src/Prompt/Build.antt =====
-- `build_prompt` of rust/starbridge-core/src/context_engine.rs, and `encode_trajectory`.
use Prim.Native.String.{◌++◌}
use cadet.Shared.{
  ℕ, String, Bool, true, false, not, if◌then◌else◌, Option, none, some, List, [], ◌∷◌,
}
use cadet.Shared.Int.{ℤ}
use cadet.Text.{is_empty}
use cadet.Prompt.Decimal.{decimal, decimal_ℤ}
use cadet.Prompt.Toon.{encode_object, encode_nested, encode_table, join}
use cadet.Prompt.Budget.{ContextFragment, new, fit_to_budget, assemble}

pub record ToolCallEntry : Type 0 where
  pub tool_name : String
  pub input_toon : String
  pub output_toon : String
  pub success : Bool

pub record TrajectoryEntry : Type 0 where
  pub run_id : String
  pub step_id : String
  pub agent_id : String
  pub stage : String
  pub instruction : String
  pub context_toon : String
  pub output : String
  pub tool_calls : List ToolCallEntry
  pub success : Bool
  pub duration_ms : ℕ
  pub timestamp_micros : ℤ

pub record ThreadMessage : Type 0 where
  pub sender : String
  pub text : String
  pub timestamp_micros : ℤ

-- The field `similarity`, a number that no function here reads, is left out.
pub record MemoryChunk : Type 0 where
  pub title : String
  pub content : String

pub record ActiveRoute : Type 0 where
  pub channel : String
  pub filter : String

pub record ToolSummary : Type 0 where
  pub name : String
  pub category : String
  pub requires_approval : Bool

pub record PromptData : Type 0 where
  pub agent_id : String
  pub agent_name : String
  pub agent_runtime : String
  pub namespace : String
  pub system_prompt : String
  pub run_id : String
  pub goal : String
  pub priority : String
  pub current_stage : String
  pub requested_by : String
  pub sender_name : Option String
  pub sender_channel : Option String
  pub sender_entity_id : Option String
  pub thread_history : List ThreadMessage
  pub memory_chunks : List MemoryChunk
  pub previous_step_output : Option String
  pub recent_trajectories : List TrajectoryEntry
  pub active_routes : List ActiveRoute
  pub tools : List ToolSummary
  pub loadable_prompts : List String
  pub token_budget : ℕ

abbrev map {ℓ κ} : {A : Type ℓ} {B : Type κ} → (A → B) → List A → List B
map f [] = []
map f (x ∷ xs) = f x ∷ map f xs

-- `Vec::is_empty`
abbrev no_rows {ℓ} : {A : Type ℓ} → List A → Bool
no_rows [] = true
no_rows (x ∷ xs) = false

abbrev bool_str : Bool → String
bool_str true = "true"
bool_str false = "false"

unfoldable pub encode_trajectory : TrajectoryEntry → String
encode_trajectory entry =
    encode_object (
      ("run_id", entry.run_id)
      ∷ ("step_id", entry.step_id)
      ∷ ("agent_id", entry.agent_id)
      ∷ ("stage", entry.stage)
      ∷ ("success", bool_str entry.success)
      ∷ ("duration_ms", decimal entry.duration_ms)
      ∷ [])
    ++ encode_nested "instruction" (("text", entry.instruction) ∷ [])
    ++ (if no_rows entry.tool_calls
        then ""
        else encode_table "tool_calls" ("tool" ∷ "success" ∷ [])
            (map (λ tc. tc.tool_name ∷ bool_str tc.success ∷ []) entry.tool_calls))

-- `if test { fragments.push(fragment) }`, before the fragments that follow.
abbrev pub push_if : Bool → ContextFragment → List ContextFragment → List ContextFragment
push_if true fragment rest = fragment ∷ rest
push_if false fragment rest = rest

abbrev optional : String → Option String → List (String × String) → List (String × String)
optional key none rest = rest
optional key (some value) rest = (key, value) ∷ rest

abbrev pub push_sender : PromptData → Option String → List ContextFragment → List ContextFragment
push_sender prompt none rest = rest
push_sender prompt (some name) rest =
    new "sender" (
      encode_nested "sender" (
        ("name", name)
        ∷ optional "channel" prompt.sender_channel
            (optional "entity_id" prompt.sender_entity_id [])))
    ∷ rest

abbrev pub push_previous : Option String → List ContextFragment → List ContextFragment
push_previous none rest = rest
push_previous (some prev) rest =
    new "previous-step" (encode_nested "previous_step" (("output", prev) ∷ [])) ∷ rest

abbrev identity : PromptData → ContextFragment
identity prompt = new "agent-identity" (
    encode_nested "agent" (
      ("id", prompt.agent_id)
      ∷ ("name", prompt.agent_name)
      ∷ ("runtime", prompt.agent_runtime)
      ∷ ("namespace", prompt.namespace)
      ∷ []))

abbrev mission : PromptData → ContextFragment
mission prompt = new "mission" (
    encode_nested "mission" (
      ("run_id", prompt.run_id)
      ∷ ("goal", prompt.goal)
      ∷ ("priority", prompt.priority)
      ∷ ("stage", prompt.current_stage)
      ∷ ("requested_by", prompt.requested_by)
      ∷ []))

abbrev thread_table : List ThreadMessage → ContextFragment
thread_table history = new "thread-history" (
    encode_table "thread_history" ("sender" ∷ "text" ∷ "ts" ∷ [])
      (map (λ m. m.sender ∷ m.text ∷ decimal_ℤ m.timestamp_micros ∷ []) history))

abbrev memory_table : List MemoryChunk → ContextFragment
memory_table chunks = new "memory-context" (
    encode_table "memory_context" ("title" ∷ "content" ∷ [])
      (map (λ c. c.title ∷ c.content ∷ []) chunks))

abbrev tool_table : List ToolSummary → ContextFragment
tool_table tools = new "tools" (
    encode_table "tools" ("name" ∷ "category" ∷ "approval" ∷ [])
      (map (λ t. t.name ∷ t.category ∷ (if t.requires_approval then "yes" else "no") ∷ []) tools))

abbrev trajectory_table : List TrajectoryEntry → ContextFragment
trajectory_table entries = new "trajectories" (
    encode_table "recent_trajectory" ("stage" ∷ "result" ∷ "ms" ∷ []) (
      map (λ t. t.stage ∷ (if t.success then "ok" else "fail") ∷ decimal t.duration_ms ∷ [])
        entries))

abbrev route_table : List ActiveRoute → ContextFragment
route_table routes = new "active-routes" (
    encode_table "active_routes" ("channel" ∷ "filter" ∷ [])
      (map (λ r. r.channel ∷ r.filter ∷ []) routes))

abbrev prompt_list : List String → ContextFragment
prompt_list prompts = new "loadable-prompts" ("loadable_prompts: " ++ join ", " prompts ++ "\n")

-- The fragments that `build_prompt` pushes, in their order.
unfoldable pub fragments : PromptData → List ContextFragment
fragments prompt =
    identity prompt
    ∷ push_if (not (is_empty prompt.system_prompt)) (new "system-prompt" prompt.system_prompt) (
        mission prompt
        ∷ push_sender prompt prompt.sender_name (
            push_if (not (no_rows prompt.thread_history)) (thread_table prompt.thread_history) (
              push_if (not (no_rows prompt.memory_chunks)) (memory_table prompt.memory_chunks) (
                push_if (not (no_rows prompt.tools)) (tool_table prompt.tools) (
                  push_previous prompt.previous_step_output (
                    push_if (not (no_rows prompt.recent_trajectories))
                      (trajectory_table prompt.recent_trajectories)
                      (push_if (not (no_rows prompt.active_routes))
                        (route_table prompt.active_routes)
                        (push_if (not (no_rows prompt.loadable_prompts))
                          (prompt_list prompt.loadable_prompts) []))))))))

unfoldable pub build_prompt : PromptData → String
unfolding fragments
build_prompt prompt = assemble (fit_to_budget (fragments prompt) prompt.token_budget)
