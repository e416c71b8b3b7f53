-- ===== src/Panics/Duplicates.antt =====
-- `enqueue_job` under a key that is taken.
use cadet.Shared.{
  String, ◌≡◌, some, none, ok, panicked, ◌>>=◌, Ensures, Ensures-ok, Ensures-bind, refuse_if-eq-ok,
  is_some, false, not,
}
use cadet.Store.{Store}
use cadet.Store.Tables.{insert-Wrote, find-Wrote_self}
use cadet.Text.{validate_identifier, validate_text, normalize_json_blob}
use cadet.Validate.{validate_priority}
use cadet.Rows.Agents.{JobRecord}
use cadet.Db.{Db, Context}
use cadet.Reducers.Jobs.{enqueue_job, job_status_queued}

module _ ⦃S : Store⦄ (ctx : Context)
    (job_id agent_id goal priority requested_by context_json : String) where
  taken_panics :
      {job agent aim level by json : String} {old : JobRecord} (db : Db)
      → validate_identifier job_id "job_id" ≡ ok job
      → validate_identifier agent_id "agent_id" ≡ ok agent
      → validate_text goal "goal" ≡ ok aim
      → validate_priority priority ≡ ok level
      → validate_text requested_by "requested_by" ≡ ok by
      → normalize_json_blob context_json "context_json" ≡ ok json
      → not (is_some (S.find db.agent_record agent)) ≡ false
      → S.find db.job_record job ≡ some old
      → enqueue_job ctx job_id agent_id goal priority requested_by context_json db ≡ panicked
  unfolding enqueue_job ◌>>=◌
  taken_panics {job} {agent} {aim} {level} {by} {json} {old} db job_ok agent_ok goal_ok level_ok
        by_ok json_ok known taken =
      let row : JobRecord = record {
        job_id = job;
        agent_id = agent;
        goal = aim;
        priority = level;
        requested_by = by;
        requested_by_identity = ctx.sender;
        context_json = json;
        status = job_status_queued;
        runner_id = none;
        result_summary = none;
        created_at = ctx.timestamp;
        updated_at = ctx.timestamp;
      } in
      rw (
        job_ok,
        agent_ok,
        goal_ok,
        level_ok,
        by_ok,
        json_ok,
        known,
        S.insert_taken db.job_record row old taken,
      )

module _ ⦃S : Store⦄ (ctx ctx' : Context)
    (job_id agent_id goal priority requested_by context_json : String) (db : Db) where
  again_Ensures :
      Ensures
        (λ db'.
          enqueue_job ctx' job_id agent_id goal priority requested_by context_json db' ≡ panicked)
        (enqueue_job ctx job_id agent_id goal priority requested_by context_json db)
  unfolding enqueue_job
  again_Ensures = Ensures-bind λ job job_ok. Ensures-bind λ agent agent_ok.
      Ensures-bind λ aim goal_ok. Ensures-bind λ level level_ok. Ensures-bind λ by by_ok.
        Ensures-bind λ json json_ok. Ensures-bind λ _ known. Ensures-bind λ jobs wrote. Ensures-ok (
          taken_panics ctx' job_id agent_id goal priority requested_by context_json
            (record db { job_record = jobs }) job_ok agent_ok goal_ok level_ok by_ok json_ok
            (refuse_if-eq-ok _ _ known) (find-Wrote_self (insert-Wrote wrote)))

  -- A job that has been enqueued cannot be enqueued again: the same call, made by whomever and
  -- whenever on the database that the first one left, panics at the insert, where the reducers for
  -- runs and steps return an error.
  pub enqueue_job_again_panics :
      {db' : Db}
      → enqueue_job ctx job_id agent_id goal priority requested_by context_json db ≡ ok db'
      → enqueue_job ctx' job_id agent_id goal priority requested_by context_json db' ≡ panicked
  enqueue_job_again_panics {db'} e = again_Ensures.at db' e
