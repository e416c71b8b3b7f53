-- ===== src/Reducers/Schedules.antt =====
-- The reducers of spacetimedb/src/lib.rs for schedules: registration, and the claim of a due run.
use Prim.Native.String.{◌++◌}
use cadet.Shared.{
  String, ℕ, ◌*◌, Bool, none, some, Result, ok, ◌>>=◌, ◌>>◌, refuse_if, or_err, is_some, not,
  nat_eq, ◌==◌,
}
use cadet.Shared.Int.{ℤ, pos, int_eq, ltb_ℤ, i64_add}
use cadet.Store.{Store}
use cadet.Text.{validate_identifier, validate_text, normalize_json_blob}
use cadet.Validate.{validate_control_plane, validate_priority, validate_schedule_status}
use cadet.Db.{Db, Context, now_micros}
use cadet.Reducers.Jobs.{job_status_queued}

abbrev pub schedule_status_ready : String
schedule_status_ready = "ready"

abbrev pub schedule_status_claimed : String
schedule_status_claimed = "claimed"

-- The product of a `u32` fits an `i64`.
unfoldable pub interval_to_micros : ℕ → ℤ
interval_to_micros interval_minutes = pos (interval_minutes * 60 * 1_000_000)

module _ ⦃S : Store⦄ where
  unfoldable pub register_schedule :
      Context → String → String → String → String → ℕ → String → String → Bool → Db → Result Db
  register_schedule ctx schedule_id agent_id control_plane goal interval_minutes priority
        requested_by enabled db =
      do
        schedule_id ← validate_identifier schedule_id "schedule_id"
        agent_id ← validate_identifier agent_id "agent_id"
        control_plane ← validate_control_plane control_plane
        goal ← validate_text goal "goal"
        refuse_if (nat_eq interval_minutes 0) "interval_minutes must be greater than zero"
        priority ← validate_priority priority
        requested_by ← validate_text requested_by "requested_by"
        refuse_if (not (is_some (S.find db.agent_record agent_id)))
            ("agent '" ++ agent_id ++ "' is not registered")
        let existing = S.find db.schedule_record schedule_id
        schedules ← elim existing [
          | some old ↦ S.update db.schedule_record (record {
            schedule_id = schedule_id;
            agent_id = agent_id;
            control_plane = control_plane;
            goal = goal;
            interval_minutes = interval_minutes;
            priority = priority;
            requested_by = requested_by;
            enabled = enabled;
            next_run_at_micros = old.next_run_at_micros;
            last_run_at_micros = old.last_run_at_micros;
            last_job_id = old.last_job_id;
            status = old.status;
            updated_at = ctx.timestamp;
          })
          | none ↦ S.insert db.schedule_record (record {
            schedule_id = schedule_id;
            agent_id = agent_id;
            control_plane = control_plane;
            goal = goal;
            interval_minutes = interval_minutes;
            priority = priority;
            requested_by = requested_by;
            enabled = enabled;
            next_run_at_micros = now_micros ctx;
            last_run_at_micros = none;
            last_job_id = none;
            status = schedule_status_ready;
            updated_at = ctx.timestamp;
          })
        ]
        ok (record db { schedule_record = schedules })

  unfoldable pub claim_schedule_run :
      Context → String → String → ℤ → String → String → Db → Result Db
  claim_schedule_run ctx schedule_id control_plane expected_next_run_at_micros job_id context_json
        db =
      do
        schedule_id ← validate_identifier schedule_id "schedule_id"
        control_plane ← validate_control_plane control_plane
        job_id ← validate_identifier job_id "job_id"
        context_json ← normalize_json_blob context_json "context_json"
        let now = now_micros ctx
        schedule ← or_err (S.find db.schedule_record schedule_id) "schedule not found"
        refuse_if (not (schedule.control_plane == control_plane))
            "schedule belongs to a different control plane"
        refuse_if (not schedule.enabled) "schedule is disabled"
        refuse_if (not (int_eq schedule.next_run_at_micros expected_next_run_at_micros))
            "schedule lease changed"
        refuse_if (ltb_ℤ now schedule.next_run_at_micros) "schedule is not due"
        refuse_if (is_some (S.find db.job_record job_id)) "job already exists"
        jobs ← S.insert db.job_record (record {
          job_id = job_id;
          agent_id = schedule.agent_id;
          goal = schedule.goal;
          priority = schedule.priority;
          requested_by = schedule.requested_by;
          requested_by_identity = ctx.sender;
          context_json = context_json;
          status = job_status_queued;
          runner_id = none;
          result_summary = none;
          created_at = ctx.timestamp;
          updated_at = ctx.timestamp;
        })
        status ← validate_schedule_status schedule_status_claimed
        schedules ← S.update db.schedule_record (record schedule {
          next_run_at_micros = i64_add now (interval_to_micros schedule.interval_minutes);
          last_run_at_micros = some now;
          last_job_id = some job_id;
          status = status;
          updated_at = ctx.timestamp;
        })
        ok (record db { job_record = jobs; schedule_record = schedules })
