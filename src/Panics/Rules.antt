-- ===== src/Panics/Rules.antt =====
-- Rules for the parts that reducers are made of: checks, reads and writes of a table.
use cadet.Shared.{
  String, ◌≡◌, ◌≢◌, refl, Bool, true, false, Option, some, none, Result, ok, err, panicked, ◌>>=◌,
  refuse_if, or_err, or_err-eq-ok, refuse_if-eq-ok, arith, is_some,
}
use cadet.Store.{Store, upsert}
use cadet.Store.Tables.{update_found, upsert_total}
use cadet.Text.{validate_identifier, validate_text, normalize_json_blob}
use cadet.Vocab.Enum.{StringEnum}
use cadet.Vocab.ControlPlaneTarget.{control_plane_target}
use cadet.Vocab.JobPriority.{job_priority}
use cadet.Vocab.MessageChannel.{message_channel}
use cadet.Vocab.MessageDirection.{message_direction}
use cadet.Vocab.WorkflowStage.{workflow_stage}
use cadet.Vocab.RunState.{run_state}
use cadet.Vocab.StepState.{step_state}
use cadet.Vocab.BrowserMode.{browser_mode}
use cadet.Vocab.ToolRisk.{tool_risk}
use cadet.Vocab.ApprovalStatus.{approval_status}
use cadet.Vocab.DeliveryStatus.{delivery_status}
use cadet.Vocab.ExecutionTarget.{execution_target}
use cadet.Vocab.ExecutionOwner.{execution_owner}
use cadet.Vocab.AgentRuntime.{agent_runtime}
use cadet.Vocab.BrowserTaskState.{browser_task_state}
use cadet.Vocab.JobStatus.{job_status}
use cadet.Vocab.ScheduleStatus.{schedule_status}
use cadet.Vocab.RunnerPresenceStatus.{runner_presence_status}
use cadet.Vocab.ToolCallState.{tool_call_state}
use cadet.Vocab.BrowserArtifactKind.{browser_artifact_kind}
use cadet.Validate.{
  parse_as, validate_control_plane, validate_priority, validate_channel, validate_direction,
  validate_stage, validate_workflow_run_status, validate_step_status, validate_browser_mode,
  validate_browser_risk, validate_approval_status, validate_delivery_status,
  validate_execution_target, validate_execution_owner, validate_runtime,
  validate_browser_task_status, validate_job_status, validate_schedule_status,
  validate_runner_presence_status, validate_tool_call_status, validate_artifact_kind,
}

pub record Calm {ℓ} {A : Type ℓ} (r : Result A) : Type ℓ where
  pub at : r ≢ panicked

pub Calm-ok {ℓ} : {A : Type ℓ} {a : A} → Calm (ok a)
Calm-ok = record { at = λ e. cc }

pub Calm-bind {ℓ κ} :
    {A : Type ℓ} {B : Type κ} {r : Result A} {f : A → Result B}
    → Calm r
    → ((a : A) → r ≡ ok a → Calm (f a))
    → Calm (r >>= f)
unfolding ◌>>=◌
Calm-bind {r = ok a} c h = h a refl
Calm-bind {r = err e} c h = record { at = λ e. cc }
Calm-bind {r = panicked} c h = absurd (c.at refl)

pub Calm-refuse_if : (b : Bool) (message : String) → Calm (refuse_if b message)
Calm-refuse_if true message = record { at = λ e. cc }
Calm-refuse_if false message = record { at = λ e. cc }

pub Calm-or_err {ℓ} : {A : Type ℓ} (o : Option A) (message : String) → Calm (or_err o message)
Calm-or_err none message = record { at = λ e. cc }
Calm-or_err (some a) message = record { at = λ e. cc }

pub Calm-validate_text : (value field : String) → Calm (validate_text value field)
unfolding validate_text
Calm-validate_text value field = record { at = λ e. ground arith }

pub Calm-normalize_json_blob : (value field : String) → Calm (normalize_json_blob value field)
unfolding normalize_json_blob
Calm-normalize_json_blob value field = record { at = λ e. ground arith }

pub Calm-validate_identifier : (value field : String) → Calm (validate_identifier value field)
unfolding validate_identifier
Calm-validate_identifier value field = record { at = λ e. ground arith }

module _ ⦃S : Store⦄ {R : Type 0} {key : R → String} where
  pub Calm-upsert : (t : S.Table R key) (row : R) → Calm (upsert t row)
  Calm-upsert t row = let (u, e) = upsert_total t row in record { at = λ p. cc }

  pub Calm-update :
      {t : S.Table R key} {row old : R} {k : String}
      → S.find t k ≡ some old
      → key row ≡ key old
      → Calm (S.update t row)
  Calm-update {t} {row} {old} found same =
      let (u, e) = update_found t row old found same in record { at = λ p. cc }

  pub Calm-insert :
      {t : S.Table R key} {row : R} → S.find t (key row) ≡ none → Calm (S.insert t row)
  Calm-insert {t} {row} free = let (u, e) = S.insert_new t row free in record { at = λ p. cc }

module _ ⦃S : Store⦄ {R : Type 0} {key : R → String} where
  pub Calm-update_known :
      {t : S.Table R key} {row old : R} (k message : String)
      → or_err (S.find t k) message ≡ ok old
      → key row ≡ key old
      → Calm (S.update t row)
  Calm-update_known {t} k message found same =
      Calm-update (or_err-eq-ok (S.find t k) message found) same

  -- A look before an insert.
  pub Calm-insert_fresh {κ} :
      {B : Type κ} {t : S.Table R key} {row : R} {k : String} (message : String)
      {f : S.Table R key → Result B}
      → key row ≡ k
      → ((u : S.Table R key) → S.insert t row ≡ ok u → Calm (f u))
      → Calm (refuse_if (is_some (S.find t k)) message >>= λ _. S.insert t row >>= f)
  Calm-insert_fresh {t} {row} {k} message same rest =
      Calm-bind (Calm-refuse_if _ message) λ _ fresh.
        let free : S.find t k ≡ none = ground (arith, refuse_if-eq-ok _ message fresh) in
        Calm-bind (Calm-insert (rw same free)) rest

Calm-from_str : {A : Type 0} (e : StringEnum A) (s : String) → Calm (e.from_str s)
Calm-from_str e s = record { at = e.from_str_calm s }

Calm-parse_as :
    {A : Type 0} (e : StringEnum A) (value field : String) → Calm (parse_as e value field)
unfolding parse_as
Calm-parse_as e value field =
    Calm-bind (Calm-validate_text value field)
      λ text _. Calm-bind (Calm-from_str e text) λ a _. Calm-ok

module _ (value : String) where
  pub Calm-validate_control_plane : Calm (validate_control_plane value)
  unfolding validate_control_plane
  Calm-validate_control_plane = Calm-parse_as control_plane_target value "control_plane"

  pub Calm-validate_priority : Calm (validate_priority value)
  unfolding validate_priority
  Calm-validate_priority = Calm-parse_as job_priority value "priority"

  pub Calm-validate_channel : Calm (validate_channel value)
  unfolding validate_channel
  Calm-validate_channel = Calm-parse_as message_channel value "channel"

  pub Calm-validate_direction : Calm (validate_direction value)
  unfolding validate_direction
  Calm-validate_direction = Calm-parse_as message_direction value "direction"

  pub Calm-validate_stage : Calm (validate_stage value)
  unfolding validate_stage
  Calm-validate_stage = Calm-parse_as workflow_stage value "stage"

  pub Calm-validate_workflow_run_status : Calm (validate_workflow_run_status value)
  unfolding validate_workflow_run_status
  Calm-validate_workflow_run_status = Calm-parse_as run_state value "status"

  pub Calm-validate_step_status : Calm (validate_step_status value)
  unfolding validate_step_status
  Calm-validate_step_status = Calm-parse_as step_state value "status"

  pub Calm-validate_browser_mode : Calm (validate_browser_mode value)
  unfolding validate_browser_mode
  Calm-validate_browser_mode = Calm-parse_as browser_mode value "mode"

  pub Calm-validate_browser_risk : Calm (validate_browser_risk value)
  unfolding validate_browser_risk
  Calm-validate_browser_risk = Calm-parse_as tool_risk value "risk"

  pub Calm-validate_approval_status : Calm (validate_approval_status value)
  unfolding validate_approval_status
  Calm-validate_approval_status = Calm-parse_as approval_status value "status"

  pub Calm-validate_delivery_status : Calm (validate_delivery_status value)
  unfolding validate_delivery_status
  Calm-validate_delivery_status = Calm-parse_as delivery_status value "status"

  pub Calm-validate_execution_target : Calm (validate_execution_target value)
  unfolding validate_execution_target
  Calm-validate_execution_target = Calm-parse_as execution_target value "execution_target"

  pub Calm-validate_execution_owner : Calm (validate_execution_owner value)
  unfolding validate_execution_owner
  Calm-validate_execution_owner = Calm-parse_as execution_owner value "owner_execution"

  pub Calm-validate_runtime : Calm (validate_runtime value)
  unfolding validate_runtime
  Calm-validate_runtime = Calm-parse_as agent_runtime value "runtime"

  pub Calm-validate_browser_task_status : Calm (validate_browser_task_status value)
  unfolding validate_browser_task_status
  Calm-validate_browser_task_status = Calm-parse_as browser_task_state value "status"

  pub Calm-validate_job_status : Calm (validate_job_status value)
  unfolding validate_job_status
  Calm-validate_job_status = Calm-parse_as job_status value "status"

  pub Calm-validate_schedule_status : Calm (validate_schedule_status value)
  unfolding validate_schedule_status
  Calm-validate_schedule_status = Calm-parse_as schedule_status value "status"

  pub Calm-validate_runner_presence_status : Calm (validate_runner_presence_status value)
  unfolding validate_runner_presence_status
  Calm-validate_runner_presence_status = Calm-parse_as runner_presence_status value "status"

  pub Calm-validate_tool_call_status : Calm (validate_tool_call_status value)
  unfolding validate_tool_call_status
  Calm-validate_tool_call_status = Calm-parse_as tool_call_state value "status"

  pub Calm-validate_artifact_kind : Calm (validate_artifact_kind value)
  unfolding validate_artifact_kind
  Calm-validate_artifact_kind = Calm-parse_as browser_artifact_kind value "kind"

pub ruleset calm_checks = (
  Calm-ok, Calm-update_known, Calm-insert_fresh, Calm-refuse_if, Calm-or_err, Calm-validate_text,
  Calm-normalize_json_blob, Calm-validate_identifier, Calm-upsert, Calm-validate_control_plane,
  Calm-validate_priority, Calm-validate_channel, Calm-validate_direction, Calm-validate_stage,
  Calm-validate_workflow_run_status, Calm-validate_step_status, Calm-validate_browser_mode,
  Calm-validate_browser_risk, Calm-validate_approval_status, Calm-validate_delivery_status,
  Calm-validate_execution_target, Calm-validate_execution_owner, Calm-validate_runtime,
  Calm-validate_browser_task_status, Calm-validate_job_status, Calm-validate_schedule_status,
  Calm-validate_runner_presence_status, Calm-validate_tool_call_status, Calm-validate_artifact_kind,
)
