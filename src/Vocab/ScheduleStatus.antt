-- ===== src/Vocab/ScheduleStatus.antt =====
-- `ScheduleStatus` of rust/starbridge-core/src/lib.rs and its texts.
use Prim.Native.String.{◌++◌}
use cadet.Shared.{String, ◌≡◌, refl, Result, ok, err, panicked, ◌≢◌, false, List, [], ◌∷◌}
use cadet.Text.{is_empty}
use cadet.Vocab.Enum.{StringEnum, match_str, as_str-match_str, match_str_calm}

pub data ScheduleStatus : Type 0 where
  ready claimed : ScheduleStatus

unfoldable pub as_str : ScheduleStatus → String
as_str ready = "ready"
as_str claimed = "claimed"

abbrev arms : List (String × ScheduleStatus)
arms = ("ready", ready) ∷ ("claimed", claimed) ∷ []

unfoldable pub from_str : String → Result ScheduleStatus
unfolding match_str
from_str value = match_str arms (err ("unsupported ScheduleStatus '" ++ value ++ "'")) value

pub from_str-as_str : (v : ScheduleStatus) → from_str (as_str v) ≡ ok v
unfolding from_str as_str
from_str-as_str ready = refl
from_str-as_str claimed = refl

pub as_str-from_str : (s : String) (v : ScheduleStatus) → from_str s ≡ ok v → as_str v ≡ s
unfolding from_str as_str
as_str-from_str s v h =
    as_str-match_str as_str arms (refl, (refl, tt)) ("unsupported ScheduleStatus '" ++ s ++ "'") s v
      h

pub from_str_calm : (s : String) → from_str s ≢ panicked
unfolding from_str
from_str_calm s = match_str_calm arms ("unsupported ScheduleStatus '" ++ s ++ "'") s

pub as_str_filled : (v : ScheduleStatus) → is_empty (as_str v) ≡ false
unfolding as_str
as_str_filled ready = refl
as_str_filled claimed = refl

unfoldable pub schedule_status : StringEnum ScheduleStatus
schedule_status = record {
  as_str = as_str;
  from_str = from_str;
  from_str-as_str = from_str-as_str;
  as_str-from_str = as_str-from_str;
  from_str_calm = from_str_calm;
  as_str_filled = as_str_filled;
}
