-- ===== src/Sound/Links.antt =====
-- A write to each table that references lead to or from.
use cadet.Store.{Store}
use cadet.Store.Tables.{Present, Wrote, Wrote-All, Wrote-Grows, All-map}
use cadet.Rows.Agents.{AgentRecord, JobRecord, ScheduleRecord}
use cadet.Rows.Threads.{ThreadRecord, MessageEvent}
use cadet.Rows.Workflow.{WorkflowRun, WorkflowStep, ApprovalRequest}
use cadet.Rows.Browser.{BrowserTask}
use cadet.Db.{Db}
use cadet.Sound.{Linked}

module _ ⦃S : Store⦄ {db : Db} where
  pub agents-Linked :
      {row : AgentRecord} {t : S.Table AgentRecord (λ row. row.agent_id)}
      → Linked db
      → Wrote db.agent_record row t
      → Linked (record db { agent_record = t })
  agents-Linked h w =
      let g = Wrote-Grows w in
      assumption (
        All-map (λ job. g.keeps job.agent_id) h.job_agent,
        All-map (λ schedule. g.keeps schedule.agent_id) h.schedule_agent,
        All-map (λ run. g.keeps run.agent_id) h.run_agent,
      )

  pub jobs-Linked :
      {row : JobRecord} {t : S.Table JobRecord (λ row. row.job_id)}
      → Linked db
      → Wrote db.job_record row t
      → Present db.agent_record row.agent_id
      → Linked (record db { job_record = t })
  jobs-Linked h w p = assumption (Wrote-All w h.job_agent p)

  pub schedules-Linked :
      {row : ScheduleRecord} {t : S.Table ScheduleRecord (λ row. row.schedule_id)}
      → Linked db
      → Wrote db.schedule_record row t
      → Present db.agent_record row.agent_id
      → Linked (record db { schedule_record = t })
  schedules-Linked h w p = assumption (Wrote-All w h.schedule_agent p)

  pub threads-Linked :
      {row : ThreadRecord} {t : S.Table ThreadRecord (λ row. row.thread_id)}
      → Linked db
      → Wrote db.thread_record row t
      → Linked (record db { thread_record = t })
  threads-Linked h w =
      let g = Wrote-Grows w in
      assumption (
        All-map (λ event. g.keeps event.thread_id) h.event_thread,
        All-map (λ run. g.keeps run.thread_id) h.run_thread,
      )

  pub events-Linked :
      {row : MessageEvent} {t : S.Table MessageEvent (λ row. row.event_id)}
      → Linked db
      → Wrote db.message_event row t
      → Present db.thread_record row.thread_id
      → Linked (record db { message_event = t })
  events-Linked h w p = assumption (Wrote-All w h.event_thread p)

  pub runs-Linked :
      {row : WorkflowRun} {t : S.Table WorkflowRun (λ row. row.run_id)}
      → Linked db
      → Wrote db.workflow_run row t
      → Present db.thread_record row.thread_id
      → Present db.agent_record row.agent_id
      → Linked (record db { workflow_run = t })
  runs-Linked h w p q =
      let g = Wrote-Grows w in
      assumption (
        Wrote-All w h.run_thread p,
        Wrote-All w h.run_agent q,
        All-map (λ step. g.keeps step.run_id) h.step_run,
        All-map (λ a. g.keeps a.run_id) h.approval_run,
        All-map (λ task. g.keeps task.run_id) h.task_run,
      )

  pub steps-Linked :
      {row : WorkflowStep} {t : S.Table WorkflowStep (λ row. row.step_id)}
      → Linked db
      → Wrote db.workflow_step row t
      → Present db.workflow_run row.run_id
      → Linked (record db { workflow_step = t })
  steps-Linked h w p =
      let g = Wrote-Grows w in
      assumption (
        Wrote-All w h.step_run p,
        All-map (λ a. g.keeps a.step_id) h.approval_step,
        All-map (λ task. g.keeps task.step_id) h.task_step,
      )

  pub approvals-Linked :
      {row : ApprovalRequest} {t : S.Table ApprovalRequest (λ row. row.approval_id)}
      → Linked db
      → Wrote db.approval_request row t
      → Present db.workflow_run row.run_id
      → Present db.workflow_step row.step_id
      → Linked (record db { approval_request = t })
  approvals-Linked h w p q =
      assumption (Wrote-All w h.approval_run p, Wrote-All w h.approval_step q)

  pub tasks-Linked :
      {row : BrowserTask} {t : S.Table BrowserTask (λ row. row.task_id)}
      → Linked db
      → Wrote db.browser_task row t
      → Present db.workflow_run row.run_id
      → Present db.workflow_step row.step_id
      → Linked (record db { browser_task = t })
  tasks-Linked h w p q = assumption (Wrote-All w h.task_run p, Wrote-All w h.task_step q)
