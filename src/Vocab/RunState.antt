-- ===== src/Vocab/RunState.antt =====
-- `RunState` of rust/starbridge-core/src/lib.rs and its texts.
use Prim.Native.String.{◌++◌}
use cadet.Shared.{String, ◌≡◌, refl, Result, ok, err, panicked, ◌≢◌, false, List, [], ◌∷◌}
use cadet.Text.{is_empty}
use cadet.Vocab.Enum.{StringEnum, match_str, as_str-match_str, match_str_calm}

pub data RunState : Type 0 where
  queued running blocked waiting_approval completed failed cancelled : RunState

unfoldable pub as_str : RunState → String
as_str queued = "queued"
as_str running = "running"
as_str blocked = "blocked"
as_str waiting_approval = "awaiting-approval"
as_str completed = "completed"
as_str failed = "failed"
as_str cancelled = "cancelled"

abbrev arms : List (String × RunState)
arms =
    ("queued", queued)
    ∷ ("running", running)
    ∷ ("blocked", blocked)
    ∷ ("awaiting-approval", waiting_approval)
    ∷ ("completed", completed)
    ∷ ("failed", failed)
    ∷ ("cancelled", cancelled)
    ∷ []

unfoldable pub from_str : String → Result RunState
unfolding match_str
from_str value = match_str arms (err ("unsupported run state '" ++ value ++ "'")) value

pub from_str-as_str : (v : RunState) → from_str (as_str v) ≡ ok v
unfolding from_str as_str
from_str-as_str queued = refl
from_str-as_str running = refl
from_str-as_str blocked = refl
from_str-as_str waiting_approval = refl
from_str-as_str completed = refl
from_str-as_str failed = refl
from_str-as_str cancelled = refl

pub as_str-from_str : (s : String) (v : RunState) → from_str s ≡ ok v → as_str v ≡ s
unfolding from_str as_str
as_str-from_str s v h =
    as_str-match_str as_str arms (refl, (refl, (refl, (refl, (refl, (refl, (refl, tt)))))))
      ("unsupported run state '" ++ s ++ "'") s v h

pub from_str_calm : (s : String) → from_str s ≢ panicked
unfolding from_str
from_str_calm s = match_str_calm arms ("unsupported run state '" ++ s ++ "'") s

pub as_str_filled : (v : RunState) → is_empty (as_str v) ≡ false
unfolding as_str
as_str_filled queued = refl
as_str_filled running = refl
as_str_filled blocked = refl
as_str_filled waiting_approval = refl
as_str_filled completed = refl
as_str_filled failed = refl
as_str_filled cancelled = refl

unfoldable pub run_state : StringEnum RunState
run_state = record {
  as_str = as_str;
  from_str = from_str;
  from_str-as_str = from_str-as_str;
  as_str-from_str = as_str-from_str;
  from_str_calm = from_str_calm;
  as_str_filled = as_str_filled;
}
