-- ===== src/Reducers/Training.antt =====
-- The reducers of spacetimedb/src/lib.rs for trajectories, their scores, and training.
use Prim.Native.String.{◌++◌}
use cadet.Shared.{String, ℕ, Bool, true, false, ◌||◌, Result, ok, err, ◌>>=◌, or_err, if◌then◌else◌}
use cadet.Store.{Store}
use cadet.Text.{trim, validate_identifier}
use cadet.Text.Choice.{is_one_of, score_sources, training_methods, training_statuses}
use cadet.Db.{Db, Context, now_micros}

unfoldable pub validate_score_source : String → Result String
validate_score_source value = do
  let trimmed = trim value
  if is_one_of trimmed score_sources then ok trimmed else err ("Invalid score source: " ++ trimmed)

unfoldable pub validate_training_method : String → Result String
validate_training_method value = do
  let trimmed = trim value
  if is_one_of trimmed training_methods
      then ok trimmed
      else err ("Invalid training method: " ++ trimmed)

unfoldable pub validate_training_status : String → Result String
validate_training_status value = do
  let trimmed = trim value
  if is_one_of trimmed training_statuses
      then ok trimmed
      else err ("Invalid training status: " ++ trimmed)

module _ ⦃S : Store⦄ where
  -- `value < 0.0 || value > 1.0`
  unfoldable pub out_of_unit : S.f32.Carrier → Bool
  out_of_unit value = S.f32.lt value S.f32.zero || S.f32.lt S.f32.one value

  unfoldable pub validate_score_f32 : S.f32.Carrier → String → Result S.f32.Carrier
  unfolding out_of_unit
  validate_score_f32 value name =
      if out_of_unit value
      then err (name ++ " must be between 0.0 and 1.0, got " ++ S.f32.display value)
      else ok value

  unfoldable pub log_trajectory :
      Context
      → String
      → String
      → String
      → String
      → String
      → String
      → String
      → String
      → String
      → Bool
      → ℕ
      → Db
      → Result Db
  log_trajectory ctx trajectory_id run_id step_id agent_id stage instruction context_toon output
        tool_calls_json success duration_ms db =
      do
        trajectory_id ← validate_identifier trajectory_id "trajectory_id"
        let now = now_micros ctx
        trajectories ← S.insert db.trajectory_log (record {
          trajectory_id = trajectory_id;
          run_id = run_id;
          step_id = step_id;
          agent_id = agent_id;
          stage = stage;
          instruction = instruction;
          context_toon = context_toon;
          output = output;
          tool_calls_json = tool_calls_json;
          success = success;
          duration_ms = duration_ms;
          created_at_micros = now;
        })
        ok (record db { trajectory_log = trajectories })

  unfoldable pub record_trajectory_score :
      Context
      → String
      → String
      → String
      → S.f32.Carrier
      → S.f32.Carrier
      → S.f32.Carrier
      → S.f32.Carrier
      → S.f32.Carrier
      → S.f32.Carrier
      → String
      → String
      → String
      → String
      → Db
      → Result Db
  record_trajectory_score ctx score_id trajectory_id run_id correctness efficiency tool_use_quality
        adherence composite surprise source judge_model judge_reasoning rlvr_signals_json db =
      do
        score_id ← validate_identifier score_id "score_id"
        source ← validate_score_source source
        correctness ← validate_score_f32 correctness "correctness"
        efficiency ← validate_score_f32 efficiency "efficiency"
        tool_use_quality ← validate_score_f32 tool_use_quality "tool_use_quality"
        adherence ← validate_score_f32 adherence "adherence"
        composite ← validate_score_f32 composite "composite"
        surprise ← validate_score_f32 surprise "surprise"
        let loss = S.f32.sub S.f32.one composite
        let delight = S.f32.mul loss surprise
        let now = now_micros ctx
        scores ← S.insert db.trajectory_score (record {
          score_id = score_id;
          trajectory_id = trajectory_id;
          run_id = run_id;
          correctness = correctness;
          efficiency = efficiency;
          tool_use_quality = tool_use_quality;
          adherence = adherence;
          composite = composite;
          loss = loss;
          surprise = surprise;
          delight = delight;
          source = source;
          judge_model = judge_model;
          judge_reasoning = judge_reasoning;
          rlvr_signals_json = rlvr_signals_json;
          created_at_micros = now;
        })
        ok (record db { trajectory_score = scores })

  unfoldable pub buffer_high_delight_trajectory :
      Context → String → String → String → S.f32.Carrier → String → Db → Result Db
  buffer_high_delight_trajectory ctx buffer_id trajectory_id score_id delight task_cluster db = do
    buffer_id ← validate_identifier buffer_id "buffer_id"
    delight ← validate_score_f32 delight "delight"
    let now = now_micros ctx
    buffers ← S.insert db.training_buffer (record {
      buffer_id = buffer_id;
      trajectory_id = trajectory_id;
      score_id = score_id;
      delight = delight;
      task_cluster = task_cluster;
      consumed = false;
      created_at_micros = now;
    })
    ok (record db { training_buffer = buffers })

  unfoldable pub consume_training_buffer : Context → String → Db → Result Db
  consume_training_buffer ctx buffer_id db = do
    existing ←
        or_err (S.find db.training_buffer buffer_id)
          ("Training buffer entry " ++ buffer_id ++ " not found")
    buffers ← S.update db.training_buffer (record existing { consumed = true })
    ok (record db { training_buffer = buffers })

  unfoldable pub record_training_run :
      Context
      → String
      → String
      → String
      → String
      → ℕ
      → ℕ
      → ℕ
      → S.f32.Carrier
      → S.f32.Carrier
      → ℕ
      → String
      → Db
      → Result Db
  record_training_run ctx training_id base_model adapter_path method trajectory_count group_count
        epochs final_loss delight_threshold duration_seconds status db =
      do
        training_id ← validate_identifier training_id "training_id"
        method ← validate_training_method method
        status ← validate_training_status status
        let now = now_micros ctx
        runs ← S.insert db.training_run (record {
          training_id = training_id;
          base_model = base_model;
          adapter_path = adapter_path;
          method = method;
          trajectory_count = trajectory_count;
          group_count = group_count;
          epochs = epochs;
          final_loss = final_loss;
          delight_threshold = delight_threshold;
          duration_seconds = duration_seconds;
          status = status;
          created_at_micros = now;
        })
        ok (record db { training_run = runs })

  unfoldable pub update_training_run_status :
      Context → String → String → S.f32.Carrier → ℕ → Db → Result Db
  update_training_run_status ctx training_id status final_loss duration_seconds db = do
    status ← validate_training_status status
    existing ←
        or_err (S.find db.training_run training_id) ("Training run " ++ training_id ++ " not found")
    runs ← S.update db.training_run (record existing {
      status = status;
      final_loss = final_loss;
      duration_seconds = duration_seconds;
    })
    ok (record db { training_run = runs })
