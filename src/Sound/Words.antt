-- ===== src/Sound/Words.antt =====
-- A write to each table with columns for words.
use cadet.Store.{Store}
use cadet.Store.Tables.{All, Wrote, Wrote-All}
use cadet.Rows.Agents.{AgentRecord, JobRecord, RunnerPresence, ScheduleRecord}
use cadet.Rows.Threads.{ThreadRecord, MessageEvent, DeliveryAttempt}
use cadet.Rows.Workflow.{WorkflowRun, WorkflowStep, ApprovalRequest, ToolCallRecord}
use cadet.Rows.Browser.{BrowserTask, BrowserArtifact}
use cadet.Rows.Memory.{MemoryEmbedding}
use cadet.Rows.Sandboxes.{SandboxInstance}
use cadet.Rows.Training.{TrajectoryScore, TrainingBuffer, TrainingRun}
use cadet.Db.{Db}
use cadet.Sound.{
  Worded, AgentWords, JobWords, PresenceWords, ScheduleWords, ThreadWords, EventWords,
  DeliveryWords, RunWords, StepWords, ApprovalWords, ToolCallWords, TaskWords, ArtifactWords,
  EmbeddingWords, SandboxWords, ScoreWords, BufferWords, TrainingWords,
}

module _ ⦃S : Store⦄ {db : Db} where
  pub agents-Worded :
      {row : AgentRecord} {t : S.Table AgentRecord (λ row. row.agent_id)}
      → Worded db
      → Wrote db.agent_record row t
      → AgentWords row
      → Worded (record db { agent_record = t })
  agents-Worded h w p = assumption (Wrote-All w h.agents p)

  pub jobs-Worded :
      {row : JobRecord} {t : S.Table JobRecord (λ row. row.job_id)}
      → Worded db
      → Wrote db.job_record row t
      → JobWords row
      → Worded (record db { job_record = t })
  jobs-Worded h w p = assumption (Wrote-All w h.jobs p)

  pub presence-Worded :
      {row : RunnerPresence} {t : S.Table RunnerPresence (λ row. row.runner_id)}
      → Worded db
      → Wrote db.runner_presence row t
      → PresenceWords row
      → Worded (record db { runner_presence = t })
  presence-Worded h w p = assumption (Wrote-All w h.presence p)

  pub schedules-Worded :
      {row : ScheduleRecord} {t : S.Table ScheduleRecord (λ row. row.schedule_id)}
      → Worded db
      → Wrote db.schedule_record row t
      → ScheduleWords row
      → Worded (record db { schedule_record = t })
  schedules-Worded h w p = assumption (Wrote-All w h.schedules p)

  pub threads-Worded :
      {row : ThreadRecord} {t : S.Table ThreadRecord (λ row. row.thread_id)}
      → Worded db
      → Wrote db.thread_record row t
      → ThreadWords row
      → Worded (record db { thread_record = t })
  threads-Worded h w p = assumption (Wrote-All w h.threads p)

  pub events-Worded :
      {row : MessageEvent} {t : S.Table MessageEvent (λ row. row.event_id)}
      → Worded db
      → Wrote db.message_event row t
      → EventWords row
      → Worded (record db { message_event = t })
  events-Worded h w p = assumption (Wrote-All w h.events p)

  pub deliveries-Worded :
      {row : DeliveryAttempt} {t : S.Table DeliveryAttempt (λ row. row.attempt_id)}
      → Worded db
      → Wrote db.delivery_attempt row t
      → DeliveryWords row
      → Worded (record db { delivery_attempt = t })
  deliveries-Worded h w p = assumption (Wrote-All w h.deliveries p)

  pub runs-Worded :
      {row : WorkflowRun} {t : S.Table WorkflowRun (λ row. row.run_id)}
      → Worded db
      → Wrote db.workflow_run row t
      → RunWords row
      → Worded (record db { workflow_run = t })
  runs-Worded h w p = assumption (Wrote-All w h.runs p)

  pub steps-Worded :
      {row : WorkflowStep} {t : S.Table WorkflowStep (λ row. row.step_id)}
      → Worded db
      → Wrote db.workflow_step row t
      → StepWords row
      → Worded (record db { workflow_step = t })
  steps-Worded h w p = assumption (Wrote-All w h.steps p)

  pub approvals-Worded :
      {row : ApprovalRequest} {t : S.Table ApprovalRequest (λ row. row.approval_id)}
      → Worded db
      → Wrote db.approval_request row t
      → ApprovalWords row
      → Worded (record db { approval_request = t })
  approvals-Worded h w p = assumption (Wrote-All w h.approvals p)

  pub tool_calls-Worded :
      {row : ToolCallRecord} {t : S.Table ToolCallRecord (λ row. row.tool_call_id)}
      → Worded db
      → Wrote db.tool_call_record row t
      → ToolCallWords row
      → Worded (record db { tool_call_record = t })
  tool_calls-Worded h w p = assumption (Wrote-All w h.tool_calls p)

  pub tasks-Worded :
      {row : BrowserTask} {t : S.Table BrowserTask (λ row. row.task_id)}
      → Worded db
      → Wrote db.browser_task row t
      → TaskWords row
      → Worded (record db { browser_task = t })
  tasks-Worded h w p = assumption (Wrote-All w h.tasks p)

  pub artifacts-Worded :
      {row : BrowserArtifact} {t : S.Table BrowserArtifact (λ row. row.artifact_id)}
      → Worded db
      → Wrote db.browser_artifact row t
      → ArtifactWords row
      → Worded (record db { browser_artifact = t })
  artifacts-Worded h w p = assumption (Wrote-All w h.artifacts p)

  pub embeddings-Worded :
      {row : MemoryEmbedding} {t : S.Table MemoryEmbedding (λ row. row.embedding_id)}
      → Worded db
      → Wrote db.memory_embedding row t
      → EmbeddingWords row
      → Worded (record db { memory_embedding = t })
  embeddings-Worded h w p = assumption (Wrote-All w h.embeddings p)

  pub sandboxes-Worded :
      {row : SandboxInstance} {t : S.Table SandboxInstance (λ row. row.sandbox_id)}
      → Worded db
      → Wrote db.sandbox_instance row t
      → SandboxWords row
      → Worded (record db { sandbox_instance = t })
  sandboxes-Worded h w p = assumption (Wrote-All w h.sandboxes p)

  pub scores-Worded :
      {row : TrajectoryScore} {t : S.Table TrajectoryScore (λ row. row.score_id)}
      → Worded db
      → Wrote db.trajectory_score row t
      → ScoreWords row
      → Worded (record db { trajectory_score = t })
  scores-Worded h w p = assumption (Wrote-All w h.scores p)

  pub buffers-Worded :
      {row : TrainingBuffer} {t : S.Table TrainingBuffer (λ row. row.buffer_id)}
      → Worded db
      → Wrote db.training_buffer row t
      → BufferWords row
      → Worded (record db { training_buffer = t })
  buffers-Worded h w p = assumption (Wrote-All w h.buffers p)

  pub trainings-Worded :
      {row : TrainingRun} {t : S.Table TrainingRun (λ row. row.training_id)}
      → Worded db
      → Wrote db.training_run row t
      → TrainingWords row
      → Worded (record db { training_run = t })
  trainings-Worded h w p = assumption (Wrote-All w h.trainings p)

  -- Rows of sandboxes are removed, too.
  pub sandboxes_kept-Worded :
      {t : S.Table SandboxInstance (λ row. row.sandbox_id)}
      → Worded db
      → All SandboxWords t
      → Worded (record db { sandbox_instance = t })
  sandboxes_kept-Worded h a = assumption a
