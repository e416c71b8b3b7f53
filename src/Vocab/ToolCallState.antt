-- ===== src/Vocab/ToolCallState.antt =====
-- `ToolCallState` of rust/starbridge-core/src/lib.rs and its texts.
use Prim.Native.String.{◌++◌}
use cadet.Shared.{String, ◌≡◌, refl, Result, ok, err, panicked, ◌≢◌, false, List, [], ◌∷◌}
use cadet.Text.{is_empty}
use cadet.Vocab.Enum.{StringEnum, match_str, as_str-match_str, match_str_calm}

pub data ToolCallState : Type 0 where
  pending running completed failed : ToolCallState

unfoldable pub as_str : ToolCallState → String
as_str pending = "pending"
as_str running = "running"
as_str completed = "completed"
as_str failed = "failed"

abbrev arms : List (String × ToolCallState)
arms =
    ("pending", pending) ∷ ("running", running) ∷ ("completed", completed) ∷ ("failed", failed) ∷ []

unfoldable pub from_str : String → Result ToolCallState
unfolding match_str
from_str value = match_str arms (err ("unsupported tool call state '" ++ value ++ "'")) value

pub from_str-as_str : (v : ToolCallState) → from_str (as_str v) ≡ ok v
unfolding from_str as_str
from_str-as_str pending = refl
from_str-as_str running = refl
from_str-as_str completed = refl
from_str-as_str failed = refl

pub as_str-from_str : (s : String) (v : ToolCallState) → from_str s ≡ ok v → as_str v ≡ s
unfolding from_str as_str
as_str-from_str s v h =
    as_str-match_str as_str arms (refl, (refl, (refl, (refl, tt))))
      ("unsupported tool call state '" ++ s ++ "'") s v h

pub from_str_calm : (s : String) → from_str s ≢ panicked
unfolding from_str
from_str_calm s = match_str_calm arms ("unsupported tool call state '" ++ s ++ "'") s

pub as_str_filled : (v : ToolCallState) → is_empty (as_str v) ≡ false
unfolding as_str
as_str_filled pending = refl
as_str_filled running = refl
as_str_filled completed = refl
as_str_filled failed = refl

unfoldable pub tool_call_state : StringEnum ToolCallState
tool_call_state = record {
  as_str = as_str;
  from_str = from_str;
  from_str-as_str = from_str-as_str;
  as_str-from_str = as_str-from_str;
  from_str_calm = from_str_calm;
  as_str_filled = as_str_filled;
}
