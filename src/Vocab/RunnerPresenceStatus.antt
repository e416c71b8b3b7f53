-- ===== src/Vocab/RunnerPresenceStatus.antt =====
-- `RunnerPresenceStatus` of rust/starbridge-core/src/lib.rs and its texts.
use Prim.Native.String.{◌++◌}
use cadet.Shared.{String, ◌≡◌, refl, Result, ok, err, panicked, ◌≢◌, false, List, [], ◌∷◌}
use cadet.Text.{is_empty}
use cadet.Vocab.Enum.{StringEnum, match_str, as_str-match_str, match_str_calm}

pub data RunnerPresenceStatus : Type 0 where
  alive running idle stale : RunnerPresenceStatus

unfoldable pub as_str : RunnerPresenceStatus → String
as_str alive = "alive"
as_str running = "running"
as_str idle = "idle"
as_str stale = "stale"

abbrev arms : List (String × RunnerPresenceStatus)
arms = ("alive", alive) ∷ ("running", running) ∷ ("idle", idle) ∷ ("stale", stale) ∷ []

unfoldable pub from_str : String → Result RunnerPresenceStatus
unfolding match_str
from_str value = match_str arms (err ("unsupported RunnerPresenceStatus '" ++ value ++ "'")) value

pub from_str-as_str : (v : RunnerPresenceStatus) → from_str (as_str v) ≡ ok v
unfolding from_str as_str
from_str-as_str alive = refl
from_str-as_str running = refl
from_str-as_str idle = refl
from_str-as_str stale = refl

pub as_str-from_str : (s : String) (v : RunnerPresenceStatus) → from_str s ≡ ok v → as_str v ≡ s
unfolding from_str as_str
as_str-from_str s v h =
    as_str-match_str as_str arms (refl, (refl, (refl, (refl, tt))))
      ("unsupported RunnerPresenceStatus '" ++ s ++ "'") s v h

pub from_str_calm : (s : String) → from_str s ≢ panicked
unfolding from_str
from_str_calm s = match_str_calm arms ("unsupported RunnerPresenceStatus '" ++ s ++ "'") s

pub as_str_filled : (v : RunnerPresenceStatus) → is_empty (as_str v) ≡ false
unfolding as_str
as_str_filled alive = refl
as_str_filled running = refl
as_str_filled idle = refl
as_str_filled stale = refl

unfoldable pub runner_presence_status : StringEnum RunnerPresenceStatus
runner_presence_status = record {
  as_str = as_str;
  from_str = from_str;
  from_str-as_str = from_str-as_str;
  as_str-from_str = as_str-from_str;
  from_str_calm = from_str_calm;
  as_str_filled = as_str_filled;
}
