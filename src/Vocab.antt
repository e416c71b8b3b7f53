-- ===== src/Vocab.antt =====
-- The enumerations of rust/starbridge-core/src/lib.rs: the words that the tables store as texts.
pub mod Enum
pub mod WorkflowStage
pub mod ExecutionTarget
pub mod ExecutionOwner
pub mod ControlPlaneTarget
pub mod AgentRuntime
pub mod BrowserMode
pub mod JobPriority
pub mod MessageDirection
pub mod MessageChannel
pub mod ApprovalStatus
pub mod DeliveryStatus
pub mod JobStatus
pub mod ScheduleStatus
pub mod RunnerPresenceStatus
pub mod BrowserArtifactKind
pub mod RunState
pub mod StepState
pub mod BrowserTaskState
pub mod ToolRisk
pub mod ToolCallState
