-- ===== src/Sound/Schedules.antt =====
-- The reducers of spacetimedb/src/lib.rs for schedules, and the invariant.
use cadet.Shared.{
  String, ℕ, ◌<◌, ◌≡◌, refl, Bool, false, nat_eq, arith, Ensures, Ensures-ok, Ensures-bind,
  or_err-eq-ok, refuse_if-eq-ok, Option-cases, inl, inr,
}
use cadet.Shared.Int.{ℤ}
use cadet.Store.{Store}
use cadet.Store.Tables.{insert-Wrote, update-Wrote, Present-refuse_if}
use cadet.Vocab.Enum.{IsWord}
use cadet.Vocab.ScheduleStatus.{schedule_status, as_str as schedule_status_str}
use cadet.Vocab.ScheduleStatus
use cadet.Validate.Kinds.{
  validate_control_plane-IsWord, validate_priority-IsWord, validate_schedule_status-IsWord,
}
use cadet.Db.{Db, Context}
use cadet.Reducers.Schedules.{register_schedule, claim_schedule_run, schedule_status_ready}
use cadet.Sound.{Sound}
use cadet.Sound.Links.{jobs-Linked, schedules-Linked}
use cadet.Sound.Words.{jobs-Worded, schedules-Worded}
use cadet.Sound.Jobs.{queued-IsWord}

ready-IsWord : IsWord schedule_status schedule_status_ready
unfolding schedule_status schedule_status_str
ready-IsWord = record { variant = ScheduleStatus.ready; spelled = refl }

pub positive : (n : ℕ) → nat_eq n 0 ≡ false → 0 < n
positive n h = ground arith

module _ ⦃S : Store⦄ (ctx : Context) (db : Db) (h : Sound db) where
  pub register_schedule-Sound :
      (schedule_id agent_id control_plane goal : String) (interval_minutes : ℕ)
      (priority requested_by : String) (enabled : Bool)
      → Ensures Sound (
          register_schedule ctx schedule_id agent_id control_plane goal interval_minutes priority
            requested_by enabled db)
  unfolding register_schedule
  register_schedule-Sound schedule_id agent_id control_plane goal interval_minutes priority
        requested_by enabled =
      Ensures-bind λ schedule_id _. Ensures-bind λ agent_id _. Ensures-bind λ control_plane c.
        Ensures-bind λ goal _. Ensures-bind λ _ positive_minutes. Ensures-bind λ priority p.
          Ensures-bind λ requested_by _. Ensures-bind λ _ registered.
            Ensures-bind λ schedules wrote.
              let agent = Present-refuse_if _ registered in
              let minutes = positive interval_minutes (refuse_if-eq-ok _ _ positive_minutes) in
              let plane_word = validate_control_plane-IsWord _ c in
              let priority_word = validate_priority-IsWord _ p in
              Ensures-ok (elim (Option-cases (S.find db.schedule_record schedule_id)) [
                | inl missing ↦
                    let write = insert-Wrote (rw missing at wrote) in
                    record {
                      links = schedules-Linked h.links write agent;
                      words =
                          schedules-Worded h.words write
                            (plane_word, priority_word, ready-IsWord, minutes);
                    }
                | inr (old, present) ↦
                    let write = update-Wrote (rw present at wrote) in
                    let (_, _, status_word, _) = h.words.schedules.at schedule_id old present in
                    record {
                      links = schedules-Linked h.links write agent;
                      words =
                          schedules-Worded h.words write
                            (plane_word, priority_word, status_word, minutes);
                    }
              ])

  pub claim_schedule_run-Sound :
      (schedule_id control_plane : String) (expected : ℤ) (job_id context_json : String)
      → Ensures Sound
          (claim_schedule_run ctx schedule_id control_plane expected job_id context_json db)
  unfolding claim_schedule_run
  claim_schedule_run-Sound schedule_id control_plane expected job_id context_json =
      Ensures-bind λ schedule_id _. Ensures-bind λ control_plane _. Ensures-bind λ job_id _.
        Ensures-bind λ context_json _. Ensures-bind λ schedule found. Ensures-bind λ _ _.
          Ensures-bind λ _ _. Ensures-bind λ _ _. Ensures-bind λ _ _. Ensures-bind λ _ _.
            Ensures-bind λ jobs wrote. Ensures-bind λ status s. Ensures-bind λ schedules written.
              let known = or_err-eq-ok _ _ found in
              let agent = h.links.schedule_agent.at schedule_id schedule known in
              let (plane_word, priority_word, _, minutes) =
                h.words.schedules.at schedule_id schedule known in
              let links = jobs-Linked h.links (insert-Wrote wrote) agent in
              let words = jobs-Worded h.words (insert-Wrote wrote) (priority_word, queued-IsWord) in
              Ensures-ok (record {
                links = schedules-Linked links (update-Wrote written) agent;
                words =
                    schedules-Worded words (update-Wrote written)
                      (plane_word, priority_word, validate_schedule_status-IsWord _ s, minutes);
              })
