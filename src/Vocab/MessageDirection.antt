-- ===== src/Vocab/MessageDirection.antt =====
-- `MessageDirection` of rust/starbridge-core/src/lib.rs and its texts.
use Prim.Native.String.{◌++◌}
use cadet.Shared.{String, ◌≡◌, refl, Result, ok, err, panicked, ◌≢◌, false, List, [], ◌∷◌}
use cadet.Text.{is_empty}
use cadet.Vocab.Enum.{StringEnum, match_str, as_str-match_str, match_str_calm}

pub data MessageDirection : Type 0 where
  inbound outbound system : MessageDirection

unfoldable pub as_str : MessageDirection → String
as_str inbound = "inbound"
as_str outbound = "outbound"
as_str system = "system"

abbrev arms : List (String × MessageDirection)
arms = ("inbound", inbound) ∷ ("outbound", outbound) ∷ ("system", system) ∷ []

unfoldable pub from_str : String → Result MessageDirection
unfolding match_str
from_str value = match_str arms (err ("unsupported MessageDirection '" ++ value ++ "'")) value

pub from_str-as_str : (v : MessageDirection) → from_str (as_str v) ≡ ok v
unfolding from_str as_str
from_str-as_str inbound = refl
from_str-as_str outbound = refl
from_str-as_str system = refl

pub as_str-from_str : (s : String) (v : MessageDirection) → from_str s ≡ ok v → as_str v ≡ s
unfolding from_str as_str
as_str-from_str s v h =
    as_str-match_str as_str arms (refl, (refl, (refl, tt)))
      ("unsupported MessageDirection '" ++ s ++ "'") s v h

pub from_str_calm : (s : String) → from_str s ≢ panicked
unfolding from_str
from_str_calm s = match_str_calm arms ("unsupported MessageDirection '" ++ s ++ "'") s

pub as_str_filled : (v : MessageDirection) → is_empty (as_str v) ≡ false
unfolding as_str
as_str_filled inbound = refl
as_str_filled outbound = refl
as_str_filled system = refl

unfoldable pub message_direction : StringEnum MessageDirection
message_direction = record {
  as_str = as_str;
  from_str = from_str;
  from_str-as_str = from_str-as_str;
  as_str-from_str = as_str-from_str;
  from_str_calm = from_str_calm;
  as_str_filled = as_str_filled;
}
