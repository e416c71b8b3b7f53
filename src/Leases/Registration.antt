-- ===== src/Leases/Registration.antt =====
-- `register_schedule` of spacetimedb/src/lib.rs.
use cadet.Shared.{
  String, ℕ, ◌≡◌, Bool, none, some, ok, ◌≢◌, sym, ◌∙◌, Ensures, Ensures-ok, Ensures-bind,
  Option-cases, inl, inr, refl, arith,
}
use cadet.Store.{Store}
use cadet.Store.Tables.{
  update-Wrote, insert-Wrote, find-Wrote_self, find-Wrote_ne, Present, Present-refuse_if,
}
use cadet.Text.{trim}
use cadet.Text.Checks.{validate_identifier_iff, validate_text-eq-trim}
use cadet.Vocab.ControlPlaneTarget.{control_plane_target}
use cadet.Vocab.JobPriority.{job_priority}
use cadet.Validate.{validate_control_plane, validate_priority}
use cadet.Validate.Words.{parse_as_iff}
use cadet.Rows.Agents.{ScheduleRecord}
use cadet.Db.{Db, Context, now_micros}
use cadet.Reducers.Schedules.{register_schedule}

module _ ⦃S : Store⦄ where
  -- A schedule that was there keeps its lease, its last run, its last job and its status; a new one
  -- is ready and due at once. Either way it has the rest from the call.
  pub record Registered (ctx : Context) (schedule_id agent_id plane goal : String) (minutes : ℕ)
      (priority requested_by : String) (enabled : Bool) (db db' : Db) : Type 0 where
    pub row : ScheduleRecord
    pub found : S.find db'.schedule_record schedule_id ≡ some row
    pub from_call :
        (row.agent_id ≡ agent_id)
        × (row.control_plane ≡ plane)
        × (row.goal ≡ goal)
        × (row.interval_minutes ≡ minutes)
        × (row.priority ≡ priority)
        × (row.requested_by ≡ requested_by)
        × (row.enabled ≡ enabled)
        × (row.updated_at ≡ ctx.timestamp)
    pub kept :
        (old : ScheduleRecord)
        → S.find db.schedule_record schedule_id ≡ some old
        → (row.next_run_at_micros ≡ old.next_run_at_micros)
          × (row.last_run_at_micros ≡ old.last_run_at_micros)
          × (row.last_job_id ≡ old.last_job_id)
          × (row.status ≡ old.status)
    pub new :
        S.find db.schedule_record schedule_id ≡ none
        → (row.next_run_at_micros ≡ now_micros ctx)
          × (row.last_run_at_micros ≡ none)
          × (row.last_job_id ≡ none)
          × (row.status ≡ "ready")
    pub agent_known : Present db.agent_record agent_id
    pub others :
        (k : String) → schedule_id ≢ k → S.find db'.schedule_record k ≡ S.find db.schedule_record k

module _ ⦃S : Store⦄ (ctx : Context) (schedule_id agent_id plane goal : String) (minutes : ℕ)
    (priority requested_by : String) (enabled : Bool) (db : Db) where
  register_Ensures :
      Ensures
        (Registered ctx
          (trim schedule_id)
          (trim agent_id)
          (trim plane)
          (trim goal)
          minutes
          (trim priority)
          (trim requested_by)
          enabled
          db)
        (register_schedule ctx schedule_id agent_id plane goal minutes priority requested_by enabled
          db)
  unfolding register_schedule validate_control_plane validate_priority
  register_Ensures = Ensures-bind λ id valid_id. Ensures-bind λ agent valid_agent.
      Ensures-bind λ target valid_plane. Ensures-bind λ aim valid_goal. Ensures-bind λ _ _.
        Ensures-bind λ level valid_priority. Ensures-bind λ by valid_by.
          Ensures-bind λ _ registered. Ensures-bind λ schedules wrote.
            let id_is = ((validate_identifier_iff schedule_id "schedule_id" id).0 valid_id).0 in
            let agent_is = ((validate_identifier_iff agent_id "agent_id" agent).0 valid_agent).0 in
            let plane_is =
              ((parse_as_iff control_plane_target plane "control_plane" target).0 valid_plane).0 in
            let goal_is = (validate_text-eq-trim goal "goal" valid_goal).0 in
            let level_is =
              ((parse_as_iff job_priority priority "priority" level).0 valid_priority).0 in
            let by_is = (validate_text-eq-trim requested_by "requested_by" valid_by).0 in
            Ensures-ok (elim (Option-cases (S.find db.schedule_record id)) [
              | inl missing ↦
                  let write = insert-Wrote (rw missing at wrote) in
                  record {
                    row = _;
                    found = rw id_is at (find-Wrote_self write);
                    from_call = (agent_is, plane_is, goal_is, refl, level_is, by_is, refl, refl);
                    kept = λ old there. absurd (cc (missing, there, id_is));
                    new = λ _. (refl, refl, refl, refl);
                    agent_known = rw (← agent_is) (Present-refuse_if _ registered);
                    others = λ k ne. find-Wrote_ne k write (λ e. ne (sym id_is ∙ e));
                  }
              | inr (old, present) ↦
                  let write = update-Wrote (rw present at wrote) in
                  record {
                    row = _;
                    found = rw id_is at (find-Wrote_self write);
                    from_call = (agent_is, plane_is, goal_is, refl, level_is, by_is, refl, refl);
                    kept = λ was there. ground (arith, present, there, id_is);
                    new = λ missing. absurd (cc (missing, present, id_is));
                    agent_known = rw (← agent_is) (Present-refuse_if _ registered);
                    others = λ k ne. find-Wrote_ne k write (λ e. ne (sym id_is ∙ e));
                  }
            ])

  -- A registration of a schedule that succeeds, for an agent that is registered, stores the trimmed
  -- arguments. A schedule that was there keeps its lease, its last run, its last job and its status; a
  -- new one is ready and due at once. All other schedules are as they were.
  pub register_schedule_effect :
      {db' : Db}
      → register_schedule ctx schedule_id agent_id plane goal minutes priority requested_by enabled
          db
        ≡ ok db'
      → Registered ctx
          (trim schedule_id)
          (trim agent_id)
          (trim plane)
          (trim goal)
          minutes
          (trim priority)
          (trim requested_by)
          enabled
          db
          db'
  register_schedule_effect {db'} e = register_Ensures.at db' e
