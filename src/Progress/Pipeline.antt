-- ===== src/Progress/Pipeline.antt =====
-- The order of the stages of rust/starbridge-core/src/lib.rs against the rule of
-- spacetimedb/src/lib.rs for the status of a run.
use cadet.Shared.{◌≡◌, ◌↔◌, refl, none, String, arith, eq_iff}
use cadet.Vocab.WorkflowStage.{WorkflowStage, as_str, next}
use cadet.Reducers.Runs.{run_status_after_step_completion}

not_completed {ℓ} : {A : Type ℓ} → ◌≡◌ {A = String} "running" "completed" → A
not_completed h = ground (arith, eq_iff "running" "completed")

-- The completion of a step completes its run exactly if the stage of the step is the last one, after
-- which the runner has no further step to enqueue.
pub completion_final_iff :
    (stage : WorkflowStage)
    → ((run_status_after_step_completion (as_str stage)).0 ≡ "completed") ↔ (next stage ≡ none)
unfolding run_status_after_step_completion as_str next
completion_final_iff WorkflowStage.route = (not_completed, λ h. cc)
completion_final_iff WorkflowStage.plan = (not_completed, λ h. cc)
completion_final_iff WorkflowStage.gather = (not_completed, λ h. cc)
completion_final_iff WorkflowStage.act = (not_completed, λ h. cc)
completion_final_iff WorkflowStage.verify = (not_completed, λ h. cc)
completion_final_iff WorkflowStage.summarize = (not_completed, λ h. cc)
completion_final_iff WorkflowStage.learn = (λ h. refl, λ h. refl)
