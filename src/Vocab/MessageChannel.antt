-- ===== src/Vocab/MessageChannel.antt =====
-- `MessageChannel` of rust/starbridge-core/src/lib.rs and its texts.
use Prim.Native.String.{◌++◌}
use cadet.Shared.{String, ◌≡◌, refl, Result, ok, err, panicked, ◌≢◌, false, List, [], ◌∷◌}
use cadet.Text.{is_empty}
use cadet.Vocab.Enum.{StringEnum, match_str, as_str-match_str, match_str_calm}

pub data MessageChannel : Type 0 where
  web slack discord telegram github system : MessageChannel

unfoldable pub as_str : MessageChannel → String
as_str web = "web"
as_str slack = "slack"
as_str discord = "discord"
as_str telegram = "telegram"
as_str github = "github"
as_str system = "system"

abbrev arms : List (String × MessageChannel)
arms =
    ("web", web)
    ∷ ("slack", slack)
    ∷ ("discord", discord)
    ∷ ("telegram", telegram)
    ∷ ("github", github)
    ∷ ("system", system)
    ∷ []

unfoldable pub from_str : String → Result MessageChannel
unfolding match_str
from_str value = match_str arms (err ("unsupported MessageChannel '" ++ value ++ "'")) value

pub from_str-as_str : (v : MessageChannel) → from_str (as_str v) ≡ ok v
unfolding from_str as_str
from_str-as_str web = refl
from_str-as_str slack = refl
from_str-as_str discord = refl
from_str-as_str telegram = refl
from_str-as_str github = refl
from_str-as_str system = refl

pub as_str-from_str : (s : String) (v : MessageChannel) → from_str s ≡ ok v → as_str v ≡ s
unfolding from_str as_str
as_str-from_str s v h =
    as_str-match_str as_str arms (refl, (refl, (refl, (refl, (refl, (refl, tt))))))
      ("unsupported MessageChannel '" ++ s ++ "'") s v h

pub from_str_calm : (s : String) → from_str s ≢ panicked
unfolding from_str
from_str_calm s = match_str_calm arms ("unsupported MessageChannel '" ++ s ++ "'") s

pub as_str_filled : (v : MessageChannel) → is_empty (as_str v) ≡ false
unfolding as_str
as_str_filled web = refl
as_str_filled slack = refl
as_str_filled discord = refl
as_str_filled telegram = refl
as_str_filled github = refl
as_str_filled system = refl

unfoldable pub message_channel : StringEnum MessageChannel
message_channel = record {
  as_str = as_str;
  from_str = from_str;
  from_str-as_str = from_str-as_str;
  as_str-from_str = as_str-from_str;
  from_str_calm = from_str_calm;
  as_str_filled = as_str_filled;
}
