-- ===== src/Validate.antt =====
-- The checks of spacetimedb/src/lib.rs for a word of an enumeration.
pub mod Words
pub mod Kinds
use cadet.Shared.{String, Result, ok, ◌>>=◌}
use cadet.Text.{validate_text}
use cadet.Vocab.Enum.{StringEnum}
use cadet.Vocab.ControlPlaneTarget.{control_plane_target}
use cadet.Vocab.JobPriority.{job_priority}
use cadet.Vocab.MessageChannel.{message_channel}
use cadet.Vocab.MessageDirection.{message_direction}
use cadet.Vocab.WorkflowStage.{workflow_stage}
use cadet.Vocab.RunState.{run_state}
use cadet.Vocab.StepState.{step_state}
use cadet.Vocab.BrowserMode.{browser_mode}
use cadet.Vocab.ToolRisk.{tool_risk}
use cadet.Vocab.ApprovalStatus.{approval_status}
use cadet.Vocab.DeliveryStatus.{delivery_status}
use cadet.Vocab.ExecutionTarget.{execution_target}
use cadet.Vocab.ExecutionOwner.{execution_owner}
use cadet.Vocab.AgentRuntime.{agent_runtime}
use cadet.Vocab.BrowserTaskState.{browser_task_state}
use cadet.Vocab.JobStatus.{job_status}
use cadet.Vocab.ScheduleStatus.{schedule_status}
use cadet.Vocab.RunnerPresenceStatus.{runner_presence_status}
use cadet.Vocab.ToolCallState.{tool_call_state}
use cadet.Vocab.BrowserArtifactKind.{browser_artifact_kind}

-- `validate_text(value, field)?.parse::<T>().map(|value| value.to_string())`
unfoldable pub parse_as : {A : Type 0} → StringEnum A → String → String → Result String
parse_as e value field = do text ← validate_text value field; a ← e.from_str text; ok (e.as_str a)

unfoldable pub validate_control_plane : String → Result String
validate_control_plane value = parse_as control_plane_target value "control_plane"

unfoldable pub validate_priority : String → Result String
validate_priority value = parse_as job_priority value "priority"

unfoldable pub validate_channel : String → Result String
validate_channel value = parse_as message_channel value "channel"

unfoldable pub validate_direction : String → Result String
validate_direction value = parse_as message_direction value "direction"

unfoldable pub validate_stage : String → Result String
validate_stage value = parse_as workflow_stage value "stage"

unfoldable pub validate_workflow_run_status : String → Result String
validate_workflow_run_status value = parse_as run_state value "status"

unfoldable pub validate_step_status : String → Result String
validate_step_status value = parse_as step_state value "status"

unfoldable pub validate_browser_mode : String → Result String
validate_browser_mode value = parse_as browser_mode value "mode"

unfoldable pub validate_browser_risk : String → Result String
validate_browser_risk value = parse_as tool_risk value "risk"

unfoldable pub validate_approval_status : String → Result String
validate_approval_status value = parse_as approval_status value "status"

unfoldable pub validate_delivery_status : String → Result String
validate_delivery_status value = parse_as delivery_status value "status"

unfoldable pub validate_execution_target : String → Result String
validate_execution_target value = parse_as execution_target value "execution_target"

unfoldable pub validate_execution_owner : String → Result String
validate_execution_owner value = parse_as execution_owner value "owner_execution"

unfoldable pub validate_runtime : String → Result String
validate_runtime value = parse_as agent_runtime value "runtime"

unfoldable pub validate_browser_task_status : String → Result String
validate_browser_task_status value = parse_as browser_task_state value "status"

unfoldable pub validate_job_status : String → Result String
validate_job_status value = parse_as job_status value "status"

unfoldable pub validate_schedule_status : String → Result String
validate_schedule_status value = parse_as schedule_status value "status"

unfoldable pub validate_runner_presence_status : String → Result String
validate_runner_presence_status value = parse_as runner_presence_status value "status"

unfoldable pub validate_tool_call_status : String → Result String
validate_tool_call_status value = parse_as tool_call_state value "status"

unfoldable pub validate_artifact_kind : String → Result String
validate_artifact_kind value = parse_as browser_artifact_kind value "kind"
