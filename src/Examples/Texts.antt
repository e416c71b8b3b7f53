-- ===== src/Examples/Texts.antt =====
-- The text checks on texts.
use cadet.Shared.{◌≡◌, ◌↔◌, refl, ok, err, none}
use cadet.Vocab.WorkflowStage.{WorkflowStage, as_str, next}
use cadet.Reducers.Runs.{run_status_after_step_completion}
use cadet.Progress.Pipeline.{completion_final_iff}
use cadet.Text.{trim, validate_identifier}
use cadet.Text.Trim.{trim-trim}
use cadet.Text.Identifiers.{Holds, validate_identifier-Holds}
use cadet.Vocab.Enum.{IsWord}
use cadet.Vocab.ToolRisk.{tool_risk}
use cadet.Validate.{parse_as}
use cadet.Validate.Words.{parse_as_iff}

trim-trim_example : trim (trim "  a b ") ≡ trim "  a b "
trim-trim_example = trim-trim "  a b "

validate_identifier-Holds_example :
    (validate_identifier " job-1 " "job_id" ≡ ok "job-1") ↔ Holds " job-1 " "job-1"
validate_identifier-Holds_example = validate_identifier-Holds " job-1 " "job_id" "job-1"

-- A dot is no letter of an identifier.
dot_refused :
    validate_identifier "agent.1" "job_id"
    ≡ err "job_id must contain only letters, numbers, '-' or '_'"
unfolding validate_identifier
dot_refused = refl

parse_as_iff_example :
    (parse_as tool_risk " high" "risk" ≡ ok "high")
    ↔ (("high" ≡ trim " high") × IsWord tool_risk "high")
parse_as_iff_example = parse_as_iff tool_risk " high" "risk" "high"

completion_final_iff_example :
    ((run_status_after_step_completion (as_str WorkflowStage.learn)).0 ≡ "completed")
    ↔ (next WorkflowStage.learn ≡ none)
completion_final_iff_example = completion_final_iff WorkflowStage.learn
