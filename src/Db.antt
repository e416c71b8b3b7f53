-- ===== src/Db.antt =====
-- The database of spacetimedb/src/lib.rs: its tables, and what the host tells a reducer.
use cadet.Shared.Int.{ℤ}
use cadet.Store.{Store}
use cadet.Rows.Agents.{AgentRecord, JobRecord, MemoryNote, RunnerPresence, ScheduleRecord}
use cadet.Rows.Threads.{ThreadRecord, MessageEvent, DeliveryAttempt}
use cadet.Rows.Workflow.{WorkflowRun, WorkflowStep, ApprovalRequest, ToolCallRecord}
use cadet.Rows.Browser.{BrowserTask, BrowserArtifact}
use cadet.Rows.Sessions.{AgentSessionRecord}
use cadet.Rows.Memory.{MemoryDocument, MemoryChunk, MemoryEmbedding, RetrievalTrace}
use cadet.Rows.Operators.{
  OperatorAccount, WebAuthnCredential, AuthChallenge, UserAgentConfig, OperatorCredits,
  OperatorToken,
}
use cadet.Rows.Bus.{
  RawMessage, MessageExtraction, MessageEntity, MessageEmbeddingRecord, ConversationLink,
  MessageRoute,
}
use cadet.Rows.Chat.{ChatBotState, ChatMessage, UserInteraction}
use cadet.Rows.Training.{TrajectoryLog, TrajectoryScore, TrainingBuffer, TrainingRun}
use cadet.Rows.Sandboxes.{SandboxInstance, SandboxSnapshot, AgentCheckpoint}
use cadet.Rows.Skills.{AgentSkill, AgentHook}

module _ ⦃S : Store⦄ where
  pub record Db : Type 0 where
    pub agent_record : S.Table AgentRecord (λ row. row.agent_id)
    pub job_record : S.Table JobRecord (λ row. row.job_id)
    pub memory_note : S.Log MemoryNote
    pub runner_presence : S.Table RunnerPresence (λ row. row.runner_id)
    pub schedule_record : S.Table ScheduleRecord (λ row. row.schedule_id)
    pub thread_record : S.Table ThreadRecord (λ row. row.thread_id)
    pub message_event : S.Table MessageEvent (λ row. row.event_id)
    pub delivery_attempt : S.Table DeliveryAttempt (λ row. row.attempt_id)
    pub workflow_run : S.Table WorkflowRun (λ row. row.run_id)
    pub workflow_step : S.Table WorkflowStep (λ row. row.step_id)
    pub approval_request : S.Table ApprovalRequest (λ row. row.approval_id)
    pub tool_call_record : S.Table ToolCallRecord (λ row. row.tool_call_id)
    pub browser_task : S.Table BrowserTask (λ row. row.task_id)
    pub browser_artifact : S.Table BrowserArtifact (λ row. row.artifact_id)
    pub memory_document : S.Table MemoryDocument (λ row. row.document_id)
    pub memory_chunk : S.Table MemoryChunk (λ row. row.chunk_id)
    pub memory_embedding : S.Table MemoryEmbedding (λ row. row.embedding_id)
    pub retrieval_trace : S.Table RetrievalTrace (λ row. row.trace_id)
    pub agent_session : S.Table AgentSessionRecord (λ row. row.session_id)
    pub operator_account : S.Table OperatorAccount (λ row. row.operator_id)
    pub webauthn_credential : S.Table WebAuthnCredential (λ row. row.credential_id)
    pub auth_challenge : S.Table AuthChallenge (λ row. row.challenge_id)
    pub user_agent_config : S.Table UserAgentConfig (λ row. row.config_id)
    pub operator_credits : S.Table OperatorCredits (λ row. row.operator_id)
    pub operator_token : S.Table OperatorToken (λ row. row.operator_id)
    pub raw_message : S.Table RawMessage (λ row. row.message_id)
    pub message_extraction : S.Table MessageExtraction (λ row. row.extraction_id)
    pub message_entity : S.Table MessageEntity (λ row. row.entity_id)
    pub message_embedding : S.Table MessageEmbeddingRecord (λ row. row.embedding_id)
    pub conversation_link : S.Table ConversationLink (λ row. row.link_id)
    pub message_route : S.Table MessageRoute (λ row. row.route_id)
    pub chat_bot_state : S.Table ChatBotState (λ row. row.key)
    pub chat_message : S.Table ChatMessage (λ row. row.message_id)
    pub user_interaction : S.Table UserInteraction (λ row. row.interaction_id)
    pub trajectory_log : S.Table TrajectoryLog (λ row. row.trajectory_id)
    pub trajectory_score : S.Table TrajectoryScore (λ row. row.score_id)
    pub training_buffer : S.Table TrainingBuffer (λ row. row.buffer_id)
    pub training_run : S.Table TrainingRun (λ row. row.training_id)
    pub sandbox_instance : S.Table SandboxInstance (λ row. row.sandbox_id)
    pub sandbox_snapshot : S.Table SandboxSnapshot (λ row. row.snapshot_id)
    pub agent_checkpoint : S.Table AgentCheckpoint (λ row. row.checkpoint_id)
    pub agent_skill : S.Table AgentSkill (λ row. row.skill_id)
    pub agent_hook : S.Table AgentHook (λ row. row.hook_id)

  -- `ReducerContext`, but for its database: the time of the call, in microseconds, and the caller.
  pub record Context : Type 0 where
    pub timestamp : ℤ
    pub sender : S.Identity

  -- `ctx.timestamp.to_micros_since_unix_epoch()`
  abbrev pub now_micros : Context → ℤ
  now_micros ctx = ctx.timestamp
