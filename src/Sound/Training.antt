-- ===== src/Sound/Training.antt =====
-- The reducers of spacetimedb/src/lib.rs for trajectories, their scores, and training, and the
-- invariant.
use cadet.Shared.{
  String, ℕ, Bool, Ensures, Ensures-ok, Ensures-bind, or_err-eq-ok, Among, arith, ok, ◌≡◌,
}
use cadet.Store.{Store}
use cadet.Store.Tables.{insert-Wrote, update-Wrote}
use cadet.Text.Choice.{is_one_of-Among, score_sources, training_methods, training_statuses}
use cadet.Rows.Training.{TrajectoryLog}
use cadet.Db.{Db, Context}
use cadet.Reducers.Training.{
  log_trajectory, record_trajectory_score, buffer_high_delight_trajectory, consume_training_buffer,
  record_training_run, update_training_run_status, validate_score_source, validate_training_method,
  validate_training_status, validate_score_f32, out_of_unit,
}
use cadet.Sound.{Sound, InUnit}
use cadet.Sound.Words.{scores-Worded, buffers-Worded, trainings-Worded}

validate_score_source-Among :
    (value : String) {s : String} → validate_score_source value ≡ ok s → Among s score_sources
unfolding validate_score_source
validate_score_source-Among value {s} h = is_one_of-Among s score_sources (ground arith)

validate_training_method-Among :
    (value : String) {s : String} → validate_training_method value ≡ ok s → Among s training_methods
unfolding validate_training_method
validate_training_method-Among value {s} h = is_one_of-Among s training_methods (ground arith)

validate_training_status-Among :
    (value : String) {s : String}
    → validate_training_status value ≡ ok s
    → Among s training_statuses
unfolding validate_training_status
validate_training_status-Among value {s} h = is_one_of-Among s training_statuses (ground arith)

module _ ⦃S : Store⦄ where
  validate_score_f32-InUnit :
      (value : S.f32.Carrier) (name : String) {checked : S.f32.Carrier}
      → validate_score_f32 value name ≡ ok checked
      → InUnit checked
  unfolding validate_score_f32 out_of_unit
  validate_score_f32-InUnit value name e = ground arith

  InUnit-sub : (x : S.f32.Carrier) → InUnit x → InUnit (S.f32.sub S.f32.one x)
  unfolding out_of_unit
  InUnit-sub x h = ground (arith, S.f32.one_lt-sub x, S.f32.sub-lt_zero x)

  InUnit-mul : (x y : S.f32.Carrier) → InUnit x → InUnit y → InUnit (S.f32.mul x y)
  unfolding out_of_unit
  InUnit-mul x y h k = ground (arith, S.f32.one_lt-mul x y, S.f32.mul-lt_zero x y)

module _ ⦃S : Store⦄ {db : Db} (h : Sound db) where
  trajectory_log-Sound :
      {t0 : S.Table TrajectoryLog (λ row. row.trajectory_id)}
      → Sound (record db { trajectory_log = t0 })
  trajectory_log-Sound = record { links = assumption h; words = assumption h }

module _ ⦃S : Store⦄ (ctx : Context) (db : Db) (h : Sound db) where
  pub log_trajectory-Sound :
      (trajectory_id run_id step_id agent_id stage instruction context_toon output
        tool_calls_json : String)
      (success : Bool) (duration_ms : ℕ)
      → Ensures Sound (
          log_trajectory ctx trajectory_id run_id step_id agent_id stage instruction context_toon
            output tool_calls_json success duration_ms db)
  unfolding log_trajectory
  log_trajectory-Sound trajectory_id run_id step_id agent_id stage instruction context_toon output
        tool_calls_json success duration_ms =
      Ensures-bind λ _ _. Ensures-bind λ _ _. Ensures-ok (trajectory_log-Sound h)

  pub record_trajectory_score-Sound :
      (score_id trajectory_id run_id : String)
      (correctness efficiency tool_use_quality adherence composite surprise : S.f32.Carrier)
      (source judge_model judge_reasoning rlvr_signals_json : String)
      → Ensures Sound (
          record_trajectory_score ctx score_id trajectory_id run_id correctness efficiency
            tool_use_quality adherence composite surprise source judge_model judge_reasoning
            rlvr_signals_json db)
  unfolding record_trajectory_score
  record_trajectory_score-Sound score_id trajectory_id run_id correctness efficiency
        tool_use_quality adherence composite surprise source judge_model judge_reasoning
        rlvr_signals_json =
      Ensures-bind λ _ _. Ensures-bind λ _ s. Ensures-bind λ _ a. Ensures-bind λ _ b.
        Ensures-bind λ _ c. Ensures-bind λ _ d. Ensures-bind λ _ e. Ensures-bind λ _ f.
          Ensures-bind λ _ wrote.
            let loss = InUnit-sub _ (validate_score_f32-InUnit _ _ e) in
            Ensures-ok (record {
              links = assumption h;
              words = scores-Worded h.words (insert-Wrote wrote) (
                validate_score_source-Among _ s,
                validate_score_f32-InUnit _ _ a,
                validate_score_f32-InUnit _ _ b,
                validate_score_f32-InUnit _ _ c,
                validate_score_f32-InUnit _ _ d,
                validate_score_f32-InUnit _ _ e,
                loss,
                validate_score_f32-InUnit _ _ f,
                InUnit-mul _ _ loss (validate_score_f32-InUnit _ _ f),
              );
            })

  pub buffer_high_delight_trajectory-Sound :
      (buffer_id trajectory_id score_id : String) (delight : S.f32.Carrier) (task_cluster : String)
      → Ensures Sound (
          buffer_high_delight_trajectory ctx buffer_id trajectory_id score_id delight task_cluster
            db)
  unfolding buffer_high_delight_trajectory
  buffer_high_delight_trajectory-Sound buffer_id trajectory_id score_id delight task_cluster =
      Ensures-bind λ _ _. Ensures-bind λ _ d. Ensures-bind λ _ wrote. Ensures-ok (record {
        links = assumption h;
        words = buffers-Worded h.words (insert-Wrote wrote) (validate_score_f32-InUnit _ _ d);
      })

  pub consume_training_buffer-Sound :
      (buffer_id : String) → Ensures Sound (consume_training_buffer ctx buffer_id db)
  unfolding consume_training_buffer
  consume_training_buffer-Sound buffer_id = Ensures-bind λ entry found. Ensures-bind λ _ wrote.
      Ensures-ok (record {
        links = assumption h;
        words =
            buffers-Worded h.words (update-Wrote wrote)
              (h.words.buffers.at buffer_id entry (or_err-eq-ok _ _ found));
      })

  pub record_training_run-Sound :
      (training_id base_model adapter_path method : String)
      (trajectory_count group_count epochs : ℕ) (final_loss delight_threshold : S.f32.Carrier)
      (duration_seconds : ℕ) (status : String)
      → Ensures Sound (
          record_training_run ctx training_id base_model adapter_path method trajectory_count
            group_count epochs final_loss delight_threshold duration_seconds status db)
  unfolding record_training_run
  record_training_run-Sound training_id base_model adapter_path method trajectory_count group_count
        epochs final_loss delight_threshold duration_seconds status =
      Ensures-bind λ _ _. Ensures-bind λ _ m. Ensures-bind λ _ s. Ensures-bind λ _ wrote.
        Ensures-ok (record {
          links = assumption h;
          words =
              trainings-Worded h.words (insert-Wrote wrote)
                (validate_training_method-Among _ m, validate_training_status-Among _ s);
        })

  pub update_training_run_status-Sound :
      (training_id status : String) (final_loss : S.f32.Carrier) (duration_seconds : ℕ)
      → Ensures Sound
          (update_training_run_status ctx training_id status final_loss duration_seconds db)
  unfolding update_training_run_status
  update_training_run_status-Sound training_id status final_loss duration_seconds =
      Ensures-bind λ _ s. Ensures-bind λ run found. Ensures-bind λ _ wrote. Ensures-ok (record {
        links = assumption h;
        words = trainings-Worded h.words (update-Wrote wrote) (
          (h.words.trainings.at training_id run (or_err-eq-ok _ _ found)).0,
          validate_training_status-Among _ s,
        );
      })
