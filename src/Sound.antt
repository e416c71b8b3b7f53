-- ===== src/Sound.antt =====
-- The invariant of the tables of spacetimedb/src/lib.rs: references and words.
pub mod Links
pub mod Words
pub mod Jobs
pub mod Schedules
pub mod Runs
pub mod Steps
pub mod Approvals
pub mod Browser
pub mod Messages
pub mod Sessions
pub mod Operators
pub mod Accounts
pub mod Bus
pub mod Training
pub mod Chat
pub mod Sandboxes
pub mod Skills
use cadet.Shared.{ℕ, ◌<◌, ◌≡◌, false, Among}
use cadet.Store.{Store}
use cadet.Store.Tables.{All, Present}
use cadet.Text.Choice.{sandbox_statuses, score_sources, training_methods, training_statuses}
use cadet.Vocab.Enum.{IsWord}
use cadet.Vocab.AgentRuntime.{agent_runtime}
use cadet.Vocab.ControlPlaneTarget.{control_plane_target}
use cadet.Vocab.ExecutionTarget.{execution_target}
use cadet.Vocab.JobPriority.{job_priority}
use cadet.Vocab.JobStatus.{job_status}
use cadet.Vocab.ScheduleStatus.{schedule_status}
use cadet.Vocab.RunnerPresenceStatus.{runner_presence_status}
use cadet.Vocab.MessageChannel.{message_channel}
use cadet.Vocab.MessageDirection.{message_direction}
use cadet.Vocab.DeliveryStatus.{delivery_status}
use cadet.Vocab.RunState.{run_state}
use cadet.Vocab.StepState.{step_state}
use cadet.Vocab.WorkflowStage.{workflow_stage}
use cadet.Vocab.ExecutionOwner.{execution_owner}
use cadet.Vocab.ApprovalStatus.{approval_status}
use cadet.Vocab.ToolRisk.{tool_risk}
use cadet.Vocab.ToolCallState.{tool_call_state}
use cadet.Vocab.BrowserTaskState.{browser_task_state}
use cadet.Vocab.BrowserMode.{browser_mode}
use cadet.Vocab.BrowserArtifactKind.{browser_artifact_kind}
use cadet.Rows.Agents.{AgentRecord, JobRecord, RunnerPresence, ScheduleRecord}
use cadet.Rows.Threads.{ThreadRecord, MessageEvent, DeliveryAttempt}
use cadet.Rows.Workflow.{WorkflowRun, WorkflowStep, ApprovalRequest, ToolCallRecord}
use cadet.Rows.Browser.{BrowserTask, BrowserArtifact}
use cadet.Rows.Memory.{MemoryEmbedding}
use cadet.Rows.Sandboxes.{SandboxInstance}
use cadet.Rows.Training.{TrajectoryScore, TrainingBuffer, TrainingRun}
use cadet.Db.{Db}
use cadet.Reducers.Training.{out_of_unit}

abbrev pub AgentWords : AgentRecord → Type 0
AgentWords a =
    IsWord agent_runtime a.runtime
    × IsWord control_plane_target a.control_plane
    × IsWord execution_target a.execution_target

abbrev pub PresenceWords : RunnerPresence → Type 0
PresenceWords p =
    IsWord control_plane_target p.control_plane × IsWord runner_presence_status p.status

-- The interval of a schedule is not 0.
abbrev pub ScheduleWords : ScheduleRecord → Type 0
ScheduleWords s =
    IsWord control_plane_target s.control_plane
    × IsWord job_priority s.priority
    × IsWord schedule_status s.status
    × (0 < s.interval_minutes)

abbrev pub ThreadWords : ThreadRecord → Type 0
ThreadWords t = IsWord message_channel t.channel

abbrev pub EventWords : MessageEvent → Type 0
EventWords e = IsWord message_channel e.channel × IsWord message_direction e.direction

abbrev pub DeliveryWords : DeliveryAttempt → Type 0
DeliveryWords d =
    IsWord message_channel d.channel
    × IsWord message_direction d.direction
    × IsWord delivery_status d.status

-- `current_stage` is left out: `update_run_stage` stores any text there.
abbrev pub RunWords : WorkflowRun → Type 0
RunWords r = IsWord job_priority r.priority × IsWord run_state r.status

abbrev pub StepWords : WorkflowStep → Type 0
StepWords s =
    IsWord workflow_stage s.stage
    × IsWord execution_owner s.owner_execution
    × IsWord step_state s.status

abbrev pub ApprovalWords : ApprovalRequest → Type 0
ApprovalWords a = IsWord approval_status a.status × IsWord tool_risk a.risk

abbrev pub ToolCallWords : ToolCallRecord → Type 0
ToolCallWords c = IsWord tool_call_state c.status

abbrev pub TaskWords : BrowserTask → Type 0
TaskWords t =
    IsWord browser_mode t.mode
    × IsWord tool_risk t.risk
    × IsWord browser_task_state t.status
    × IsWord execution_owner t.owner_execution

abbrev pub ArtifactWords : BrowserArtifact → Type 0
ArtifactWords a = IsWord browser_artifact_kind a.kind

abbrev pub EmbeddingWords : MemoryEmbedding → Type 0
EmbeddingWords e = 0 < e.dimensions

abbrev pub SandboxWords : SandboxInstance → Type 0
SandboxWords s = Among s.status sandbox_statuses

module _ ⦃S : Store⦄ where
  abbrev pub JobWords : JobRecord → Type 0
  JobWords j = IsWord job_priority j.priority × IsWord job_status j.status

  -- Between 0 and 1, or not a number.
  abbrev pub InUnit : S.f32.Carrier → Type 0
  InUnit x = out_of_unit x ≡ false

  abbrev pub ScoreWords : TrajectoryScore → Type 0
  ScoreWords s =
      Among s.source score_sources
      × InUnit s.correctness
      × InUnit s.efficiency
      × InUnit s.tool_use_quality
      × InUnit s.adherence
      × InUnit s.composite
      × InUnit s.loss
      × InUnit s.surprise
      × InUnit s.delight

  abbrev pub BufferWords : TrainingBuffer → Type 0
  BufferWords b = InUnit b.delight

  abbrev pub TrainingWords : TrainingRun → Type 0
  TrainingWords t = Among t.method training_methods × Among t.status training_statuses

  -- These columns, which a reducer checks when it writes a row, name a row that is there. Left out are
  -- those that are stored without a look, as the agent of a step, an approval or a browser task, the
  -- run of a message event and the step that a step depends on.
  pub record Linked (db : Db) : Type 0 where
    pub job_agent : All (λ job. Present db.agent_record job.agent_id) db.job_record
    pub schedule_agent :
        All (λ schedule. Present db.agent_record schedule.agent_id) db.schedule_record
    pub event_thread : All (λ event. Present db.thread_record event.thread_id) db.message_event
    pub run_thread : All (λ run. Present db.thread_record run.thread_id) db.workflow_run
    pub run_agent : All (λ run. Present db.agent_record run.agent_id) db.workflow_run
    pub step_run : All (λ step. Present db.workflow_run step.run_id) db.workflow_step
    pub approval_run : All (λ a. Present db.workflow_run a.run_id) db.approval_request
    pub approval_step : All (λ a. Present db.workflow_step a.step_id) db.approval_request
    pub task_run : All (λ task. Present db.workflow_run task.run_id) db.browser_task
    pub task_step : All (λ task. Present db.workflow_step task.step_id) db.browser_task

  -- What holds of the columns of these tables. Left out are the columns that are stored without a
  -- check, as the stage of a logged trajectory, the channel and the direction of a raw message and the
  -- dimensions of the embedding of a message.
  pub record Worded (db : Db) : Type 0 where
    pub agents : All AgentWords db.agent_record
    pub jobs : All JobWords db.job_record
    pub presence : All PresenceWords db.runner_presence
    pub schedules : All ScheduleWords db.schedule_record
    pub threads : All ThreadWords db.thread_record
    pub events : All EventWords db.message_event
    pub deliveries : All DeliveryWords db.delivery_attempt
    pub runs : All RunWords db.workflow_run
    pub steps : All StepWords db.workflow_step
    pub approvals : All ApprovalWords db.approval_request
    pub tool_calls : All ToolCallWords db.tool_call_record
    pub tasks : All TaskWords db.browser_task
    pub artifacts : All ArtifactWords db.browser_artifact
    pub embeddings : All EmbeddingWords db.memory_embedding
    pub sandboxes : All SandboxWords db.sandbox_instance
    pub scores : All ScoreWords db.trajectory_score
    pub buffers : All BufferWords db.training_buffer
    pub trainings : All TrainingWords db.training_run

  pub record Sound (db : Db) : Type 0 where
    pub links : Linked db
    pub words : Worded db
