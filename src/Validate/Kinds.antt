-- ===== src/Validate/Kinds.antt =====
-- The check of spacetimedb/src/lib.rs for each enumeration.
use cadet.Shared.{String, ◌≡◌, ok}
use cadet.Vocab.Enum.{IsWord}
use cadet.Vocab.ControlPlaneTarget.{control_plane_target}
use cadet.Vocab.JobPriority.{job_priority}
use cadet.Vocab.MessageChannel.{message_channel}
use cadet.Vocab.MessageDirection.{message_direction}
use cadet.Vocab.WorkflowStage.{workflow_stage}
use cadet.Vocab.RunState.{run_state}
use cadet.Vocab.StepState.{step_state}
use cadet.Vocab.BrowserMode.{browser_mode}
use cadet.Vocab.ToolRisk.{tool_risk}
use cadet.Vocab.ApprovalStatus.{approval_status}
use cadet.Vocab.DeliveryStatus.{delivery_status}
use cadet.Vocab.ExecutionTarget.{execution_target}
use cadet.Vocab.ExecutionOwner.{execution_owner}
use cadet.Vocab.AgentRuntime.{agent_runtime}
use cadet.Vocab.BrowserTaskState.{browser_task_state}
use cadet.Vocab.JobStatus.{job_status}
use cadet.Vocab.ScheduleStatus.{schedule_status}
use cadet.Vocab.RunnerPresenceStatus.{runner_presence_status}
use cadet.Vocab.ToolCallState.{tool_call_state}
use cadet.Vocab.BrowserArtifactKind.{browser_artifact_kind}
use cadet.Validate.{
  validate_control_plane, validate_priority, validate_channel, validate_direction, validate_stage,
  validate_workflow_run_status, validate_step_status, validate_browser_mode, validate_browser_risk,
  validate_approval_status, validate_delivery_status, validate_execution_target,
  validate_execution_owner, validate_runtime, validate_browser_task_status, validate_job_status,
  validate_schedule_status, validate_runner_presence_status, validate_tool_call_status,
  validate_artifact_kind,
}
use cadet.Validate.Words.{parse_as_iff}

module _ (value : String) {s : String} where
  pub validate_control_plane-IsWord :
      validate_control_plane value ≡ ok s → IsWord control_plane_target s
  unfolding validate_control_plane
  validate_control_plane-IsWord h =
      ((parse_as_iff control_plane_target value "control_plane" s).0 h).1

  pub validate_priority-IsWord : validate_priority value ≡ ok s → IsWord job_priority s
  unfolding validate_priority
  validate_priority-IsWord h = ((parse_as_iff job_priority value "priority" s).0 h).1

  pub validate_channel-IsWord : validate_channel value ≡ ok s → IsWord message_channel s
  unfolding validate_channel
  validate_channel-IsWord h = ((parse_as_iff message_channel value "channel" s).0 h).1

  pub validate_direction-IsWord : validate_direction value ≡ ok s → IsWord message_direction s
  unfolding validate_direction
  validate_direction-IsWord h = ((parse_as_iff message_direction value "direction" s).0 h).1

  pub validate_stage-IsWord : validate_stage value ≡ ok s → IsWord workflow_stage s
  unfolding validate_stage
  validate_stage-IsWord h = ((parse_as_iff workflow_stage value "stage" s).0 h).1

  pub validate_workflow_run_status-IsWord :
      validate_workflow_run_status value ≡ ok s → IsWord run_state s
  unfolding validate_workflow_run_status
  validate_workflow_run_status-IsWord h = ((parse_as_iff run_state value "status" s).0 h).1

  pub validate_step_status-IsWord : validate_step_status value ≡ ok s → IsWord step_state s
  unfolding validate_step_status
  validate_step_status-IsWord h = ((parse_as_iff step_state value "status" s).0 h).1

  pub validate_browser_mode-IsWord : validate_browser_mode value ≡ ok s → IsWord browser_mode s
  unfolding validate_browser_mode
  validate_browser_mode-IsWord h = ((parse_as_iff browser_mode value "mode" s).0 h).1

  pub validate_browser_risk-IsWord : validate_browser_risk value ≡ ok s → IsWord tool_risk s
  unfolding validate_browser_risk
  validate_browser_risk-IsWord h = ((parse_as_iff tool_risk value "risk" s).0 h).1

  pub validate_approval_status-IsWord :
      validate_approval_status value ≡ ok s → IsWord approval_status s
  unfolding validate_approval_status
  validate_approval_status-IsWord h = ((parse_as_iff approval_status value "status" s).0 h).1

  pub validate_delivery_status-IsWord :
      validate_delivery_status value ≡ ok s → IsWord delivery_status s
  unfolding validate_delivery_status
  validate_delivery_status-IsWord h = ((parse_as_iff delivery_status value "status" s).0 h).1

  pub validate_execution_target-IsWord :
      validate_execution_target value ≡ ok s → IsWord execution_target s
  unfolding validate_execution_target
  validate_execution_target-IsWord h =
      ((parse_as_iff execution_target value "execution_target" s).0 h).1

  pub validate_execution_owner-IsWord :
      validate_execution_owner value ≡ ok s → IsWord execution_owner s
  unfolding validate_execution_owner
  validate_execution_owner-IsWord h =
      ((parse_as_iff execution_owner value "owner_execution" s).0 h).1

  pub validate_runtime-IsWord : validate_runtime value ≡ ok s → IsWord agent_runtime s
  unfolding validate_runtime
  validate_runtime-IsWord h = ((parse_as_iff agent_runtime value "runtime" s).0 h).1

  pub validate_browser_task_status-IsWord :
      validate_browser_task_status value ≡ ok s → IsWord browser_task_state s
  unfolding validate_browser_task_status
  validate_browser_task_status-IsWord h = ((parse_as_iff browser_task_state value "status" s).0 h).1

  pub validate_job_status-IsWord : validate_job_status value ≡ ok s → IsWord job_status s
  unfolding validate_job_status
  validate_job_status-IsWord h = ((parse_as_iff job_status value "status" s).0 h).1

  pub validate_schedule_status-IsWord :
      validate_schedule_status value ≡ ok s → IsWord schedule_status s
  unfolding validate_schedule_status
  validate_schedule_status-IsWord h = ((parse_as_iff schedule_status value "status" s).0 h).1

  pub validate_runner_presence_status-IsWord :
      validate_runner_presence_status value ≡ ok s → IsWord runner_presence_status s
  unfolding validate_runner_presence_status
  validate_runner_presence_status-IsWord h =
      ((parse_as_iff runner_presence_status value "status" s).0 h).1

  pub validate_tool_call_status-IsWord :
      validate_tool_call_status value ≡ ok s → IsWord tool_call_state s
  unfolding validate_tool_call_status
  validate_tool_call_status-IsWord h = ((parse_as_iff tool_call_state value "status" s).0 h).1

  pub validate_artifact_kind-IsWord :
      validate_artifact_kind value ≡ ok s → IsWord browser_artifact_kind s
  unfolding validate_artifact_kind
  validate_artifact_kind-IsWord h = ((parse_as_iff browser_artifact_kind value "kind" s).0 h).1
