-- ===== src/Examples/Schedules.antt =====
-- A schedule on the tables of the examples.
use cadet.Shared.{
  ℕ, String, ◌≡◌, ◌≢◌, ◌<◌, ◌≤◌, ◌+◌, ◌*◌, ◌^◌, ◌==◌, refl, ok, some, none, List, [], ◌∷◌, true,
  arith, Bool-cases, inl, inr, if◌then◌else◌,
}
use cadet.Shared.Int.{pos}
use cadet.Text.{trim}
use cadet.Store.Tables.{All}
use cadet.Vocab.AgentRuntime.{AgentRuntime, agent_runtime}
use cadet.Vocab.ControlPlaneTarget.{ControlPlaneTarget, control_plane_target}
use cadet.Vocab.ExecutionTarget.{ExecutionTarget, execution_target}
use cadet.Vocab.JobPriority.{JobPriority, job_priority}
use cadet.Vocab.ScheduleStatus.{ScheduleStatus, schedule_status}
use cadet.Rows.Agents.{ScheduleRecord}
use cadet.Db.{Db}
use cadet.System.{commit}
use cadet.Sound.{Sound, AgentWords, ScheduleWords}
use cadet.Reducers.Schedules.{claim_schedule_run, register_schedule}
use cadet.Leases.{RunClaimed}
use cadet.Leases.Claim.{
  claim_schedule_run_effect, claim_schedule_run_waits, claim_schedule_run_once,
}
use cadet.Leases.Registration.{Registered, register_schedule_effect}
use cadet.Examples.{tables, at, agent, schedule, empty, schedule_at}

-- An agent and its schedule, and nothing else.
abbrev pub scheduled : Db
scheduled = record empty { agent_record = agent ∷ []; schedule_record = schedule ∷ [] }

All-none : {R : Type 0} {key : R → String} {P : R → Type 0} → All {key = key} P []
All-none = record { at = λ k r e. cc }

All-one :
    {R : Type 0} {key : R → String} {P : R → Type 0} (r : R) → P r → All {key = key} P (r ∷ [])
All-one {key = key} r p = record {
  at = λ k s e. elim (Bool-cases (key r == k)) [
    | inl same ↦ let q : r ≡ s = ground arith in rw (← q) p
    | inr other ↦ ground arith
  ];
}

agent_words : AgentWords agent
unfolding agent_runtime control_plane_target execution_target cadet.Vocab.AgentRuntime.as_str
    cadet.Vocab.ControlPlaneTarget.as_str cadet.Vocab.ExecutionTarget.as_str
agent_words = (
  record { variant = AgentRuntime.rust_core; spelled = refl },
  record { variant = ControlPlaneTarget.local; spelled = refl },
  record { variant = ExecutionTarget.local_runner; spelled = refl },
)

schedule_words : ScheduleWords schedule
unfolding control_plane_target job_priority schedule_status cadet.Vocab.ControlPlaneTarget.as_str
    cadet.Vocab.JobPriority.as_str cadet.Vocab.ScheduleStatus.as_str
schedule_words = (
  record { variant = ControlPlaneTarget.local; spelled = refl },
  record { variant = JobPriority.normal; spelled = refl },
  record { variant = ScheduleStatus.ready; spelled = refl },
  omega arith,
)

pub scheduled-Sound : Sound scheduled
scheduled-Sound = record {
  links = record {
    job_agent = All-none;
    schedule_agent = All-one schedule (record { row = agent; found = refl });
    event_thread = All-none;
    run_thread = All-none;
    run_agent = All-none;
    step_run = All-none;
    approval_run = All-none;
    approval_step = All-none;
    task_run = All-none;
    task_step = All-none;
  };
  words = record {
    agents = All-one agent agent_words;
    jobs = All-none;
    presence = All-none;
    schedules = All-one schedule schedule_words;
    threads = All-none;
    events = All-none;
    deliveries = All-none;
    runs = All-none;
    steps = All-none;
    approvals = All-none;
    tool_calls = All-none;
    tasks = All-none;
    artifacts = All-none;
    embeddings = All-none;
    sandboxes = All-none;
    scores = All-none;
    buffers = All-none;
    trainings = All-none;
  };
}

-- The schedule was due at 100; it is claimed at 200, and again at 300,000,200.
abbrev claimed : Db
claimed =
    commit scheduled
      (claim_schedule_run (at (pos 200)) "daily" "local" (pos 100) "job-1" "{}" scheduled)

claimed_lem :
    claim_schedule_run (at (pos 200)) "daily" "local" (pos 100) "job-1" "{}" scheduled ≡ ok claimed
unfolding claim_schedule_run cadet.Shared.◌>>=◌ cadet.Text.validate_identifier
    cadet.Validate.validate_control_plane cadet.Validate.parse_as cadet.Text.validate_text
    control_plane_target cadet.Vocab.ControlPlaneTarget.from_str cadet.Text.normalize_json_blob
    cadet.Vocab.ControlPlaneTarget.as_str cadet.Validate.validate_schedule_status schedule_status
    cadet.Vocab.ScheduleStatus.from_str
claimed_lem = refl

abbrev claimed_again : Db
claimed_again = commit claimed (
    claim_schedule_run (at (pos 300_000_200)) "daily" "local" (pos 300_000_200) "job-2" "{}"
      claimed)

claimed_again_lem :
    claim_schedule_run (at (pos 300_000_200)) "daily" "local" (pos 300_000_200) "job-2" "{}" claimed
    ≡ ok claimed_again
unfolding claim_schedule_run cadet.Shared.◌>>=◌ cadet.Text.validate_identifier
    cadet.Validate.validate_control_plane cadet.Validate.parse_as cadet.Text.validate_text
    control_plane_target cadet.Vocab.ControlPlaneTarget.from_str cadet.Text.normalize_json_blob
    cadet.Vocab.ControlPlaneTarget.as_str cadet.Validate.validate_schedule_status schedule_status
    cadet.Vocab.ScheduleStatus.from_str cadet.Shared.Int.i64_add
    cadet.Reducers.Schedules.interval_to_micros
claimed_again_lem = refl

intervals_small :
    All {key = λ s. s.schedule_id} (λ s. s.interval_minutes < 2 ^ 32) scheduled.schedule_record
intervals_small = All-one schedule (omega arith)

claim_schedule_run_effect_example :
    RunClaimed
      (at (pos 200))
      (trim "daily")
      (trim "local")
      (pos 100)
      (trim "job-1")
      (trim "{}")
      scheduled
      claimed
claim_schedule_run_effect_example =
    claim_schedule_run_effect (at (pos 200)) "daily" "local" (pos 100) "job-1" "{}" scheduled
      claimed_lem

claim_schedule_run_waits_example :
    (row : ScheduleRecord) × (schedule_at scheduled (trim "daily") ≡ some row)
    × (200 + row.interval_minutes * 60_000_000 ≤ 300_000_200)
claim_schedule_run_waits_example =
    claim_schedule_run_waits (at (pos 200)) (at (pos 300_000_200)) "daily" "daily" "local" "local"
      (pos 100) (pos 300_000_200) "job-1" "job-2" "{}" "{}" scheduled claimed claimed_again 200
      300_000_200 intervals_small refl (omega arith) refl refl claimed_lem claimed_again_lem

claim_schedule_run_once_example :
    claim_schedule_run (at (pos 300_000_200)) "daily" "local" (pos 100) "job-2" "{}" claimed
    ≢ ok claimed_again
claim_schedule_run_once_example =
    claim_schedule_run_once (at (pos 200)) (at (pos 300_000_200)) "daily" "daily" "local" "local"
      (pos 100) (pos 100) "job-1" "job-2" "{}" "{}" scheduled claimed claimed_again 200
      scheduled-Sound intervals_small refl (omega arith) refl refl claimed_lem

abbrev changed : Db
changed = commit scheduled (
    register_schedule (at (pos 50)) "daily" "saturn" "local" "brief" 10 "high" "operator" true
      scheduled)

changed_lem :
    register_schedule
      (at (pos 50))
      "daily"
      "saturn"
      "local"
      "brief"
      10
      "high"
      "operator"
      true
      scheduled
    ≡ ok changed
unfolding register_schedule cadet.Shared.◌>>=◌ cadet.Text.validate_identifier
    cadet.Validate.validate_control_plane cadet.Validate.parse_as cadet.Text.validate_text
    control_plane_target cadet.Vocab.ControlPlaneTarget.from_str cadet.Validate.validate_priority
    job_priority cadet.Vocab.JobPriority.from_str
changed_lem = refl

register_schedule_effect_example :
    Registered
      (at (pos 50))
      (trim "daily")
      (trim "saturn")
      (trim "local")
      (trim "brief")
      10
      (trim "high")
      (trim "operator")
      true
      scheduled
      changed
register_schedule_effect_example =
    register_schedule_effect (at (pos 50)) "daily" "saturn" "local" "brief" 10 "high" "operator"
      true scheduled changed_lem
