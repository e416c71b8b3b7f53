-- ===== src/Runner/Next/Once.antt =====
-- `enqueue_next_step` of rust/starbridge-runner/src/main.rs together with `enqueue_workflow_step` of
-- spacetimedb/src/lib.rs.
use cadet.Shared.{
  ◌≡◌, refl, sym, ◌∙◌, ap, ok, err, panicked, Result, Option, some, none, Option-cases, inl, inr,
}
use cadet.Store.{Store}
use cadet.Text.{trim}
use cadet.Vocab.ExecutionTarget.{ExecutionTarget}
use cadet.Vocab.WorkflowStage.{WorkflowStage, as_str, from_str, next}
use cadet.Rows.Workflow.{WorkflowStep}
use cadet.Db.{Db, Context}
use cadet.System.{Call, perform}
use cadet.Progress.Enqueue.{enqueue_workflow_step_effect}
use cadet.Runner.{Action}
use cadet.Runner.Next.{
  Json, enqueue_next_step, enqueue_after, enqueue_at, enqueue_call, next_step_id,
}

trim-as_str : (stage : WorkflowStage) → trim (as_str stage) ≡ as_str stage
unfolding trim as_str
trim-as_str WorkflowStage.route = refl
trim-as_str WorkflowStage.plan = refl
trim-as_str WorkflowStage.gather = refl
trim-as_str WorkflowStage.act = refl
trim-as_str WorkflowStage.verify = refl
trim-as_str WorkflowStage.summarize = refl
trim-as_str WorkflowStage.learn = refl

module _ ⦃J : Json⦄ ⦃S : Store⦄ (db : Db) (execution : ExecutionTarget) (step : WorkflowStep)
    (input outcome : J.Value) where
  -- The call is for the stage after this one.
  abbrev Follows : Call → Result WorkflowStage → Type 0
  Follows call parsed =
      (current stage : WorkflowStage) × (parsed ≡ ok current)
      × (next current ≡ some stage)
      × (call ≡ enqueue_call db execution step input outcome current stage)

  sends_at :
      (call : Call) (current : WorkflowStage) (o : Option WorkflowStage)
      → enqueue_at db execution step input outcome current o ≡ Action.send call
      → (stage : WorkflowStage) × (o ≡ some stage)
        × (call ≡ enqueue_call db execution step input outcome current stage)
  sends_at call current none h = cc
  sends_at call current (some stage) h =
      elim (Option-cases (S.find db.workflow_step (next_step_id step stage))) [
        | inl fresh ↦
            let sent : Action.send (enqueue_call db execution step input outcome current stage)
                ≡ Action.send call =
              rw fresh at h in
            (stage, refl, cc)
        | inr (old, present) ↦
            absurd (let idle : Action.idle ≡ Action.send call = rw present at h in cc)
      ]

  sends_after :
      (call : Call) (parsed : Result WorkflowStage)
      → enqueue_after db execution step input outcome parsed ≡ Action.send call
      → Follows call parsed
  sends_after call (ok current) h =
      let (stage, follows, is) = sends_at call current (next current) h in
      (current, stage, refl, follows, is)
  sends_after call (err message) h = cc
  sends_after call panicked h = cc

  sends :
      (call : Call)
      → enqueue_next_step db execution step input outcome ≡ Action.send call
      → Follows call (from_str step.stage)
  unfolding enqueue_next_step
  sends call h = sends_after call (from_str step.stage) h

  -- The call that a runner sends after a step, when it succeeds, stores a ready step of the same run
  -- whose stage is the one after the stage of the step, and which depends on the step.
  pub enqueue_next_step-stores :
      (ctx : Context) (call : Call) (db' : Db)
      → enqueue_next_step db execution step input outcome ≡ Action.send call
      → perform ctx call db ≡ ok db'
      → (current stage : WorkflowStage) × (from_str step.stage ≡ ok current)
        × (next current ≡ some stage)
        × ((row : WorkflowStep) × (S.find db'.workflow_step (trim (next_step_id step stage))
              ≡ some row)
            × (row.stage ≡ as_str stage)
            × (row.status ≡ "ready")
            × (row.run_id ≡ trim step.run_id)
            × (row.depends_on_step_id ≡ some (trim step.step_id)))
  unfolding perform
  enqueue_next_step-stores ctx call db' sent performed =
      let (current, stage, at_stage, follows, is) = sends call sent in
      let effect =
        enqueue_workflow_step_effect ctx _ _ _ _ _ _ _ db
          (ap (λ c. perform ctx c db) (sym is) ∙ performed) in
      (current, stage, at_stage, follows, (_, effect.1, trim-as_str stage, refl, refl, refl))

  -- The step after a step is asked for once: after such a call has succeeded, a runner sends nothing
  -- for the same step on the tables that it left, whatever manifest, input and output it has then.
  -- The ids of the next steps, `<run>_<stage>`, have no white space at their ends.
  pub enqueue_next_step-once :
      ((stage : WorkflowStage) → trim (next_step_id step stage) ≡ next_step_id step stage)
      → (ctx : Context) (call : Call) (db' : Db)
      → enqueue_next_step db execution step input outcome ≡ Action.send call
      → perform ctx call db ≡ ok db'
      → (execution' : ExecutionTarget) (input' outcome' : J.Value)
      → enqueue_next_step db' execution' step input' outcome' ≡ Action.idle
  unfolding enqueue_next_step
  enqueue_next_step-once trimmed ctx call db' sent performed execution' input' outcome' =
      let (current, stage, at_stage, follows, (row, stored, _, _, _, _)) =
        enqueue_next_step-stores ctx call db' sent performed in
      let there : S.find db'.workflow_step (next_step_id step stage) ≡ some row =
        rw (trimmed stage) at stored in
      rw (at_stage, follows, there) refl
