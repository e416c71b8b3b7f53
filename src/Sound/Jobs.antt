-- ===== src/Sound/Jobs.antt =====
-- The reducers of spacetimedb/src/lib.rs for agents, jobs and presence, and the invariant.
use cadet.Shared.{String, refl, Option, Ensures, Ensures-ok, Ensures-bind, or_err-eq-ok}
use cadet.Store.{Store}
use cadet.Store.Tables.{insert-Wrote, update-Wrote, upsert-Wrote, Present-refuse_if}
use cadet.Vocab.Enum.{IsWord}
use cadet.Vocab.JobStatus.{JobStatus, job_status, as_str}
use cadet.Validate.Kinds.{
  validate_runtime-IsWord, validate_control_plane-IsWord, validate_execution_target-IsWord,
  validate_priority-IsWord, validate_job_status-IsWord, validate_runner_presence_status-IsWord,
}
use cadet.Db.{Db, Context}
use cadet.Reducers.Jobs.{
  register_agent, remember, enqueue_job, start_job, transition_job, upsert_presence,
  job_status_queued,
}
use cadet.Sound.{Sound}
use cadet.Sound.Links.{agents-Linked, jobs-Linked}
use cadet.Sound.Words.{agents-Worded, jobs-Worded, presence-Worded}

pub queued-IsWord : IsWord job_status job_status_queued
unfolding job_status as_str
queued-IsWord = record { variant = JobStatus.queued; spelled = refl }

module _ ⦃S : Store⦄ (ctx : Context) (db : Db) (h : Sound db) where
  pub register_agent-Sound :
      (agent_id display_name runtime control_plane execution_target workflow model
        tags_json : String)
      → Ensures Sound (
          register_agent ctx agent_id display_name runtime control_plane execution_target workflow
            model tags_json db)
  unfolding register_agent
  register_agent-Sound agent_id display_name runtime control_plane execution_target workflow model
        tags_json =
      Ensures-bind λ agent_id _. Ensures-bind λ display_name _. Ensures-bind λ runtime r.
        Ensures-bind λ control_plane c. Ensures-bind λ execution_target e.
          Ensures-bind λ workflow _. Ensures-bind λ model _. Ensures-bind λ agents wrote.
            Ensures-ok (record {
              links = agents-Linked h.links (upsert-Wrote wrote);
              words = agents-Worded h.words (upsert-Wrote wrote) (
                validate_runtime-IsWord _ r,
                validate_control_plane-IsWord _ c,
                validate_execution_target-IsWord _ e,
              );
            })

  pub remember-Sound :
      (agent_id namespace content : String)
      → Ensures Sound (remember ctx agent_id namespace content db)
  unfolding remember
  remember-Sound agent_id namespace content = Ensures-bind λ agent_id _. Ensures-bind λ namespace _.
      Ensures-bind λ content _. Ensures-ok (record { links = assumption h; words = assumption h })

  pub enqueue_job-Sound :
      (job_id agent_id goal priority requested_by context_json : String)
      → Ensures Sound (enqueue_job ctx job_id agent_id goal priority requested_by context_json db)
  unfolding enqueue_job
  enqueue_job-Sound job_id agent_id goal priority requested_by context_json =
      Ensures-bind λ job_id _. Ensures-bind λ agent_id _. Ensures-bind λ goal _.
        Ensures-bind λ priority p. Ensures-bind λ requested_by _. Ensures-bind λ context_json _.
          Ensures-bind λ _ registered. Ensures-bind λ jobs wrote. Ensures-ok (record {
            links = jobs-Linked h.links (insert-Wrote wrote) (Present-refuse_if _ registered);
            words =
                jobs-Worded h.words (insert-Wrote wrote)
                  (validate_priority-IsWord _ p, queued-IsWord);
          })

  pub start_job-Sound :
      (job_id runner_id : String) → Ensures Sound (start_job ctx job_id runner_id db)
  unfolding start_job
  start_job-Sound job_id runner_id = Ensures-bind λ job_id _. Ensures-bind λ runner_id _.
      Ensures-bind λ job found. Ensures-bind λ status s. Ensures-bind λ jobs wrote.
        let known = or_err-eq-ok _ _ found in
        Ensures-ok (record {
          links = jobs-Linked h.links (update-Wrote wrote) (h.links.job_agent.at job_id job known);
          words =
              jobs-Worded h.words (update-Wrote wrote)
                ((h.words.jobs.at job_id job known).0, validate_job_status-IsWord _ s);
        })

  pub transition_job-Sound :
      (job_id status : String) (summary : Option String)
      → Ensures Sound (transition_job ctx job_id status summary db)
  unfolding transition_job
  transition_job-Sound job_id status summary = Ensures-bind λ job_id _. Ensures-bind λ job found.
      Ensures-bind λ status s. Ensures-bind λ jobs wrote.
        let known = or_err-eq-ok _ _ found in
        Ensures-ok (record {
          links = jobs-Linked h.links (update-Wrote wrote) (h.links.job_agent.at job_id job known);
          words =
              jobs-Worded h.words (update-Wrote wrote)
                ((h.words.jobs.at job_id job known).0, validate_job_status-IsWord _ s);
        })

  pub upsert_presence-Sound :
      (agent_id runner_id control_plane status : String)
      → Ensures Sound (upsert_presence ctx agent_id runner_id control_plane status db)
  unfolding upsert_presence
  upsert_presence-Sound agent_id runner_id control_plane status = Ensures-bind λ agent_id _.
      Ensures-bind λ runner_id _. Ensures-bind λ control_plane c. Ensures-bind λ status s.
        Ensures-bind λ presence wrote. Ensures-ok (record {
          links = assumption h;
          words =
              presence-Worded h.words (upsert-Wrote wrote)
                (validate_control_plane-IsWord _ c, validate_runner_presence_status-IsWord _ s);
        })
