-- ===== src/Examples/Prompt.antt =====
-- A prompt, a budget, a table and the gate.
use cadet.Shared.{
  ℕ, zero, suc, ◌+◌, ◌*◌, ◌≤◌, ◌≡◌, refl, String, true, false, leb, if◌then◌else◌, some, none,
  Option, Result, ok, err, panicked, List, [], ◌∷◌, arith,
}
use cadet.Shared.Int.{pos}
use cadet.Float.Hundredths.{hundredths}
use cadet.Float.{Float}
use cadet.Prompt.Decimal.{decimal}
use cadet.Prompt.Toon.{length, needs_quoting, encode_object, encode_table}
use cadet.Prompt.Budget.{byte_len, ContextFragment, fit_to_budget}
use cadet.Prompt.Fits.{append, total, fit_to_budget-append}
use cadet.Prompt.Build.{PromptData, fragments, build_prompt}
use cadet.Prompt.Bound.{AllOf, IsShort, byte_len-build_prompt}
use cadet.Prompt.Lines.{breaks, breaks_all, breaks_rows, breaks-encode_table}
use cadet.Delight.{DelightGate, new, effective_rate}
use cadet.Delight.Gate.{Event, Kept, run_with, strict_rate, run_with-strict}

instance abbrev floats : Float
floats = hundredths

abbrev prompt : PromptData
prompt = record {
  agent_id = "saturn";
  agent_name = "Saturn";
  agent_runtime = "rust-core";
  namespace = "saturn";
  system_prompt = "Be brief.";
  run_id = "run-1";
  goal = "report: all";
  priority = "normal";
  current_stage = "plan";
  requested_by = "operator";
  sender_name = some "Ada";
  sender_channel = none;
  sender_entity_id = none;
  thread_history = record { sender = "Ada"; text = "go, \"now\""; timestamp_micros = pos 12 } ∷ [];
  memory_chunks = [];
  previous_step_output = none;
  recent_trajectories = [];
  active_routes = [];
  tools = record { name = "shell"; category = "run"; requires_approval = true } ∷ [];
  loadable_prompts = "style.md" ∷ [];
  token_budget = 40;
}

prompt-IsShort : AllOf IsShort (fragments prompt)
unfolding fragments cadet.Prompt.Budget.new cadet.Prompt.Toon.encode_nested
    cadet.Prompt.Toon.encode_table cadet.Prompt.Toon.needs_quoting cadet.Prompt.Toon.escape
    cadet.Prompt.Floats.is_f64
prompt-IsShort = (
  omega arith,
  (omega arith, (omega arith, (omega arith, (omega arith, (omega arith, (omega arith, tt)))))),
)

byte_len-build_prompt_example : byte_len (build_prompt prompt) ≤ 4 * 40 + 10
byte_len-build_prompt_example = byte_len-build_prompt prompt (omega arith) prompt-IsShort

abbrev part : ℕ → ContextFragment
part n = record { source = "part"; content = ""; tokens = n }

-- The second part is too large, and the third fits on top of the first.
fit_to_budget-append_example :
    fit_to_budget (append (part 5 ∷ part 9 ∷ []) (part 3 ∷ [])) 10
    ≡ append
        (fit_to_budget (part 5 ∷ part 9 ∷ []) 10)
        (if leb (total (fit_to_budget (part 5 ∷ part 9 ∷ []) 10) + 3) 10 then part 3 ∷ [] else [])
fit_to_budget-append_example =
    fit_to_budget-append 10 (part 3) (part 5 ∷ part 9 ∷ [])
      (omega arith, (omega arith, (omega arith, tt)))

abbrev notes : List (List String)
notes = ("a\nb" ∷ []) ∷ ("c" ∷ []) ∷ []

breaks-encode_table_example :
    breaks (encode_table "notes" ("title" ∷ []) notes)
    ≡ suc (length notes) + (breaks "notes" + breaks_all ("title" ∷ []) + breaks_rows notes)
breaks-encode_table_example = breaks-encode_table "notes" ("title" ∷ []) notes

abbrev events : List Event
events = Event.scored (some 10) ∷ Event.forced (some 90) ∷ Event.scored none ∷ []

run_with-strict_example :
    (after : DelightGate) × (run_with effective_rate events (new (some 3) (some 1) (some 10) 500)
      ≡ ok after)
    × (run_with strict_rate events (new (some 3) (some 1) (some 10) 500) ≡ ok after)
    × Kept 1 after
run_with-strict_example =
    run_with-strict events (some 3) (some 1) (some 10) 500 (omega arith) (omega arith)

-- A second call of `force_accept` can make the difference: with the calls 50 and 100 forced, the count
-- is 150 at the first recomputation, and the threshold is relaxed.
abbrev offered : ℕ → List Event → List Event
offered zero events = events
offered (suc n) events = Event.scored (some 0) ∷ offered n events

abbrev forced_twice : List Event
forced_twice =
    offered 49 (Event.forced (some 90) ∷ offered 49 (Event.forced (some 90) ∷ offered 50 []))

abbrev threshold_of : Result DelightGate → Option ℕ
threshold_of (ok gate) = gate.threshold
threshold_of (err message) = none
threshold_of panicked = none

relaxed :
    threshold_of (run_with effective_rate forced_twice (new (some 0) (some 2) (some 10) 500))
    ≡ some 0
unfolding run_with effective_rate cadet.Delight.force_accept cadet.Delight.buffer_at new
    cadet.Delight.recompute_threshold cadet.Delight.u64_inc cadet.Shared.◌>>=◌
relaxed = refl

not_relaxed :
    threshold_of (run_with strict_rate forced_twice (new (some 0) (some 2) (some 10) 500)) ≡ some 90
unfolding run_with strict_rate cadet.Delight.force_accept cadet.Delight.buffer_at new
    cadet.Delight.recompute_threshold cadet.Delight.u64_inc cadet.Delight.acceptance_rate
    cadet.Shared.◌>>=◌
not_relaxed = refl

needs_quoting_float : needs_quoting "-1.5e10" ≡ true
unfolding needs_quoting cadet.Prompt.Floats.is_f64
needs_quoting_float = refl

needs_quoting_point : needs_quoting "." ≡ false
unfolding needs_quoting cadet.Prompt.Floats.is_f64
needs_quoting_point = refl

encode_object_simple :
    encode_object (("id", "run_01") ∷ ("goal", "say \"hi\"") ∷ [])
    ≡ "id: run_01\ngoal: \"say \\\"hi\\\"\"\n"
unfolding encode_object needs_quoting cadet.Prompt.Floats.is_f64 cadet.Prompt.Toon.escape
encode_object_simple = refl

encode_table_simple :
    encode_table "t" ("a" ∷ "b" ∷ []) (("1" ∷ "x,y" ∷ []) ∷ ("" ∷ "z" ∷ []) ∷ [])
    ≡ "t[2]{a,b}:\n  1,\"x,y\"\n  \"\",z\n"
unfolding encode_table cadet.Prompt.Toon.escape
encode_table_simple = refl

decimal_large : decimal 18_446_744_073_709_551_615 ≡ "18446744073709551615"
decimal_large = refl
