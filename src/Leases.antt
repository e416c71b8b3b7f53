-- ===== src/Leases.antt =====
-- The schedules of spacetimedb/src/lib.rs: `register_schedule` and `claim_schedule_run`, in which the
-- time of the next run is the lease that a control plane names.
pub mod Claim
pub mod Registration
use cadet.Shared.{String, ◌≡◌, ◌≢◌, Option, some, none, true, false}
use cadet.Shared.Int.{ℤ, i64_add, ltb_ℤ}
use cadet.Store.{Store}
use cadet.Rows.Agents.{JobRecord, ScheduleRecord}
use cadet.Db.{Db, Context, now_micros}
use cadet.Reducers.Schedules.{interval_to_micros}

module _ ⦃S : Store⦄ where
  -- The schedule was enabled, due, on this plane and at this lease; its next run is an interval
  -- after the call; a queued job for its agent has been made; all else is as it was.
  pub record RunClaimed (ctx : Context) (schedule_id plane : String) (lease : ℤ)
      (job_id context_json : String) (db db' : Db) : Type 0 where
    pub schedule : ScheduleRecord
    pub found : S.find db.schedule_record schedule_id ≡ some schedule
    pub on_plane : schedule.control_plane ≡ plane
    pub enabled : schedule.enabled ≡ true
    pub at_lease : schedule.next_run_at_micros ≡ lease
    pub due : ltb_ℤ (now_micros ctx) schedule.next_run_at_micros ≡ false
    pub fresh_job : S.find db.job_record job_id ≡ none
    pub queued :
        S.find db'.job_record job_id
        ≡ some (record {
          job_id = job_id;
          agent_id = schedule.agent_id;
          goal = schedule.goal;
          priority = schedule.priority;
          requested_by = schedule.requested_by;
          requested_by_identity = ctx.sender;
          context_json = context_json;
          status = "queued";
          runner_id = none;
          result_summary = none;
          created_at = ctx.timestamp;
          updated_at = ctx.timestamp;
        })
    pub moved :
        S.find db'.schedule_record schedule_id
        ≡ some (record schedule {
          next_run_at_micros =
              i64_add (now_micros ctx) (interval_to_micros schedule.interval_minutes);
          last_run_at_micros = some (now_micros ctx);
          last_job_id = some job_id;
          status = "claimed";
          updated_at = ctx.timestamp;
        })
    pub other_jobs : (k : String) → job_id ≢ k → S.find db'.job_record k ≡ S.find db.job_record k
    pub other_schedules :
        (k : String) → schedule_id ≢ k → S.find db'.schedule_record k ≡ S.find db.schedule_record k
