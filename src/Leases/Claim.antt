-- ===== src/Leases/Claim.antt =====
-- `claim_schedule_run` of spacetimedb/src/lib.rs.
use cadet.Shared.{
  not_there, String, ℕ, ◌+◌, ◌*◌, ◌^◌, ◌<◌, ◌≤◌, ◌≡◌, ◌≢◌, refl, sym, ◌∙◌, Bool, true, false, not,
  some, ok, arith, Ensures, Ensures-ok, Ensures-bind, or_err-eq-ok, refuse_if-eq-ok,
}
use cadet.Shared.Int.{ℤ, pos, int_eq, int_eq_iff, ltb_ℤ, i64_add, i64_add-pos}
use cadet.Store.{Store}
use cadet.Store.Tables.{All, update-Wrote, insert-Wrote, find-Wrote_self, find-Wrote_ne}
use cadet.Text.{trim}
use cadet.Text.Checks.{validate_identifier_iff, validate_text-eq-trim, normalize_json_blob-eq}
use cadet.Vocab.ControlPlaneTarget.{control_plane_target}
use cadet.Vocab.ScheduleStatus.{schedule_status}
use cadet.Validate.{validate_control_plane, validate_schedule_status}
use cadet.Validate.Words.{parse_as_iff}
use cadet.Rows.Agents.{ScheduleRecord}
use cadet.Db.{Db, Context}
use cadet.Reducers.Schedules.{interval_to_micros, claim_schedule_run}
use cadet.Claims.Steps.{tests_equal}
use cadet.Sound.{Sound}
use cadet.Leases.{RunClaimed}

trim_claimed : trim "claimed" ≡ "claimed"
unfolding trim
trim_claimed = refl

same_time : (a b : ℤ) → not (int_eq a b) ≡ false → a ≡ b
same_time a b h = (int_eq_iff a b).0 (ground arith)

is_on : (b : Bool) → not b ≡ false → b ≡ true
is_on b h = ground arith

module _ ⦃S : Store⦄ (ctx : Context) (schedule_id plane : String) (lease : ℤ)
    (job_id context_json : String) (db : Db) where
  claim_Ensures :
      Ensures
        (RunClaimed ctx (trim schedule_id) (trim plane) lease (trim job_id) (trim context_json) db)
        (claim_schedule_run ctx schedule_id plane lease job_id context_json db)
  unfolding claim_schedule_run validate_control_plane validate_schedule_status
  claim_Ensures = Ensures-bind λ id valid_id. Ensures-bind λ target valid_plane.
      Ensures-bind λ job valid_job. Ensures-bind λ json valid_json. Ensures-bind λ schedule found.
        Ensures-bind λ _ on_plane. Ensures-bind λ _ enabled. Ensures-bind λ _ at_lease.
          Ensures-bind λ _ due. Ensures-bind λ _ fresh. Ensures-bind λ jobs wrote.
            Ensures-bind λ status valid_status. Ensures-bind λ schedules written.
              let id_is = ((validate_identifier_iff schedule_id "schedule_id" id).0 valid_id).0 in
              let plane_is =
                ((parse_as_iff control_plane_target plane "control_plane" target).0
                  valid_plane).0 in
              let job_is = ((validate_identifier_iff job_id "job_id" job).0 valid_job).0 in
              let json_is =
                (validate_text-eq-trim context_json "context_json"
                  (rw normalize_json_blob-eq at valid_json)).0 in
              let status_is =
                ((parse_as_iff schedule_status "claimed" "status" status).0 valid_status).0
                ∙ trim_claimed in
              let known = or_err-eq-ok _ _ found in
              let key = S.find-key _ _ _ known in
              Ensures-ok (record {
                schedule = schedule;
                found = rw (← id_is) known;
                on_plane = rw (← plane_is) (tests_equal _ _ (refuse_if-eq-ok _ _ on_plane));
                enabled = is_on _ (refuse_if-eq-ok _ _ enabled);
                at_lease = same_time _ _ (refuse_if-eq-ok _ _ at_lease);
                due = refuse_if-eq-ok _ _ due;
                fresh_job = rw (← job_is) (not_there _ (refuse_if-eq-ok _ _ fresh));
                queued = rw (← job_is, ← json_is) (find-Wrote_self (insert-Wrote wrote));
                moved =
                    rw (← status_is, ← job_is, ← id_is, ← key)
                      (find-Wrote_self (update-Wrote written));
                other_jobs =
                    λ k ne. find-Wrote_ne k (insert-Wrote wrote) (λ e. ne (sym job_is ∙ e));
                other_schedules = λ k ne.
                    find-Wrote_ne k (update-Wrote written) (λ e. ne (sym id_is ∙ sym key ∙ e));
              })

  -- A claim of a due run that succeeds has found the schedule enabled, due, on the plane and at the
  -- lease that the caller names, and the job id free. It stores a queued job for the schedule's agent,
  -- and moves the lease to an interval after the call. All other jobs and schedules are as they were.
  pub claim_schedule_run_effect :
      {db' : Db}
      → claim_schedule_run ctx schedule_id plane lease job_id context_json db ≡ ok db'
      → RunClaimed ctx
          (trim schedule_id)
          (trim plane)
          lease
          (trim job_id)
          (trim context_json)
          db
          db'
  claim_schedule_run_effect {db'} e = claim_Ensures.at db' e

-- The sum that a claim stores does not wrap.
next_run :
    (now minutes : ℕ)
    → now < 2 ^ 62
    → minutes < 2 ^ 32
    → i64_add (pos now) (interval_to_micros minutes) ≡ pos (now + minutes * 60_000_000)
unfolding interval_to_micros
next_run now minutes h k =
    let product : minutes * 60 * 1_000_000 ≡ minutes * 60_000_000 = omega arith in
    rw product (i64_add-pos now (minutes * 60_000_000) (omega arith))

module _ ⦃S : Store⦄ (ctx ctx' : Context) (schedule_id schedule_id' plane plane' : String)
    (lease lease' : ℤ) (job_id job_id' context_json context_json' : String) (db db' db'' : Db)
    (now : ℕ) where
  -- Two claims of one schedule that succeed one after the other are an interval apart, if the clock
  -- is not negative, the first time is below 2 ^ 62 microseconds, and intervals are `u32` numbers.
  pub claim_schedule_run_waits :
      (now' : ℕ)
      → All (λ s. s.interval_minutes < 2 ^ 32) db.schedule_record
      → ctx.timestamp ≡ pos now
      → now < 2 ^ 62
      → ctx'.timestamp ≡ pos now'
      → trim schedule_id' ≡ trim schedule_id
      → claim_schedule_run ctx schedule_id plane lease job_id context_json db ≡ ok db'
      → claim_schedule_run ctx' schedule_id' plane' lease' job_id' context_json' db' ≡ ok db''
      → (schedule : ScheduleRecord) × (S.find db.schedule_record (trim schedule_id) ≡ some schedule)
        × (now + schedule.interval_minutes * 60_000_000 ≤ now')
  claim_schedule_run_waits now' ranges at_now small at_now' same first second =
      let a = claim_schedule_run_effect ctx schedule_id plane lease job_id context_json db first in
      let b =
        claim_schedule_run_effect ctx' schedule_id' plane' lease' job_id' context_json' db'
          second in
      let minutes = a.schedule.interval_minutes in
      let range = ranges.at _ a.schedule a.found in
      let next : b.schedule.next_run_at_micros ≡ pos (now + minutes * 60_000_000) =
        cc (a.moved, b.found, same, at_now, next_run now minutes small range) in
      let due : ltb_ℤ (pos now') (pos (now + minutes * 60_000_000)) ≡ false =
        rw (next, at_now') at b.due in
      (a.schedule, a.found, ground arith)

  -- A lease is used once: on sound tables, after a claim of a schedule has succeeded no claim of it
  -- with the same lease does on the database that the first one left, whoever makes it and at
  -- whatever time; so if the first time is not negative and below 2 ^ 62 microseconds, and the
  -- intervals of the schedules are `u32` numbers.
  pub claim_schedule_run_once :
      Sound db
      → All (λ s. s.interval_minutes < 2 ^ 32) db.schedule_record
      → ctx.timestamp ≡ pos now
      → now < 2 ^ 62
      → trim schedule_id' ≡ trim schedule_id
      → lease' ≡ lease
      → claim_schedule_run ctx schedule_id plane lease job_id context_json db ≡ ok db'
      → claim_schedule_run ctx' schedule_id' plane' lease' job_id' context_json' db' ≢ ok db''
  claim_schedule_run_once sound ranges at_now small same same_lease first second =
      let a = claim_schedule_run_effect ctx schedule_id plane lease job_id context_json db first in
      let b =
        claim_schedule_run_effect ctx' schedule_id' plane' lease' job_id' context_json' db'
          second in
      let minutes = a.schedule.interval_minutes in
      let range = ranges.at _ a.schedule a.found in
      let (_, _, _, positive) = sound.words.schedules.at _ a.schedule a.found in
      let again : a.schedule.next_run_at_micros ≡ pos (now + minutes * 60_000_000) = cc (
        a.moved,
        b.found,
        same,
        at_now,
        next_run now minutes small range,
        a.at_lease,
        b.at_lease,
        same_lease,
      ) in
      let due : ltb_ℤ (pos now) (pos (now + minutes * 60_000_000)) ≡ false =
        rw (again, at_now) at a.due in
      ground arith
