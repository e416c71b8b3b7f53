-- ===== src/Runner/Owners.antt =====
-- `owner_for_stage` of rust/starbridge-runner/src/main.rs.
use cadet.Shared.{◌≡◌, ◌≢◌, refl, Bool, true, false}
use cadet.Vocab.ExecutionOwner.{ExecutionOwner}
use cadet.Vocab.ExecutionTarget.{ExecutionTarget, as_str}
use cadet.Vocab.WorkflowStage.{WorkflowStage}
use cadet.Runner.{owner_for_stage, from_target}

by_target-not_edge :
    (execution : ExecutionTarget)
    → owner_for_stage execution WorkflowStage.plan false ≢ ExecutionOwner.vercel_edge
unfolding owner_for_stage from_target as_str
by_target-not_edge ExecutionTarget.local_runner h = cc
by_target-not_edge ExecutionTarget.vercel_edge h = cc
by_target-not_edge ExecutionTarget.container_runner h = cc
by_target-not_edge ExecutionTarget.maincloud_runner h = cc

-- No step of a stage after `route` is left to the edge runtime: one that is, is a `route` step, whose
-- owner is the target of the deployment.
pub owner_for_stage-edge :
    (execution : ExecutionTarget) (stage : WorkflowStage) (browser_required : Bool)
    → owner_for_stage execution stage browser_required ≡ ExecutionOwner.vercel_edge
    → (stage ≡ WorkflowStage.route) × (execution ≡ ExecutionTarget.vercel_edge)
unfolding owner_for_stage from_target
owner_for_stage-edge ExecutionTarget.local_runner WorkflowStage.route b h = cc
owner_for_stage-edge ExecutionTarget.vercel_edge WorkflowStage.route b h = (refl, refl)
owner_for_stage-edge ExecutionTarget.container_runner WorkflowStage.route b h = cc
owner_for_stage-edge ExecutionTarget.maincloud_runner WorkflowStage.route b h = cc
owner_for_stage-edge execution WorkflowStage.plan b h = absurd (by_target-not_edge execution h)
owner_for_stage-edge execution WorkflowStage.gather true h = cc
owner_for_stage-edge execution WorkflowStage.gather false h =
    absurd (by_target-not_edge execution h)
owner_for_stage-edge execution WorkflowStage.act b h = absurd (by_target-not_edge execution h)
owner_for_stage-edge execution WorkflowStage.verify true h = cc
owner_for_stage-edge execution WorkflowStage.verify false h =
    absurd (by_target-not_edge execution h)
owner_for_stage-edge execution WorkflowStage.summarize b h = absurd (by_target-not_edge execution h)
owner_for_stage-edge execution WorkflowStage.learn b h = cc
