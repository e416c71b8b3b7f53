-- ===== src/Vocab/BrowserMode.antt =====
-- `BrowserMode` of rust/starbridge-core/src/lib.rs and its texts.
use Prim.Native.String.{◌++◌}
use cadet.Shared.{String, ◌≡◌, refl, Result, ok, err, panicked, ◌≢◌, false, List, [], ◌∷◌}
use cadet.Text.{is_empty}
use cadet.Vocab.Enum.{StringEnum, match_str, as_str-match_str, match_str_calm}

pub data BrowserMode : Type 0 where
  read extract navigate form download monitor : BrowserMode

unfoldable pub as_str : BrowserMode → String
as_str read = "read"
as_str extract = "extract"
as_str navigate = "navigate"
as_str form = "form"
as_str download = "download"
as_str monitor = "monitor"

abbrev arms : List (String × BrowserMode)
arms =
    ("read", read)
    ∷ ("extract", extract)
    ∷ ("navigate", navigate)
    ∷ ("form", form)
    ∷ ("download", download)
    ∷ ("monitor", monitor)
    ∷ []

unfoldable pub from_str : String → Result BrowserMode
unfolding match_str
from_str value = match_str arms (err ("unsupported BrowserMode '" ++ value ++ "'")) value

pub from_str-as_str : (v : BrowserMode) → from_str (as_str v) ≡ ok v
unfolding from_str as_str
from_str-as_str read = refl
from_str-as_str extract = refl
from_str-as_str navigate = refl
from_str-as_str form = refl
from_str-as_str download = refl
from_str-as_str monitor = refl

pub as_str-from_str : (s : String) (v : BrowserMode) → from_str s ≡ ok v → as_str v ≡ s
unfolding from_str as_str
as_str-from_str s v h =
    as_str-match_str as_str arms (refl, (refl, (refl, (refl, (refl, (refl, tt))))))
      ("unsupported BrowserMode '" ++ s ++ "'") s v h

pub from_str_calm : (s : String) → from_str s ≢ panicked
unfolding from_str
from_str_calm s = match_str_calm arms ("unsupported BrowserMode '" ++ s ++ "'") s

pub as_str_filled : (v : BrowserMode) → is_empty (as_str v) ≡ false
unfolding as_str
as_str_filled read = refl
as_str_filled extract = refl
as_str_filled navigate = refl
as_str_filled form = refl
as_str_filled download = refl
as_str_filled monitor = refl

unfoldable pub browser_mode : StringEnum BrowserMode
browser_mode = record {
  as_str = as_str;
  from_str = from_str;
  from_str-as_str = from_str-as_str;
  as_str-from_str = as_str-from_str;
  from_str_calm = from_str_calm;
  as_str_filled = as_str_filled;
}
