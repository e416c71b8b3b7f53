-- ===== src/Vocab/ToolRisk.antt =====
-- `ToolRisk` of rust/starbridge-core/src/lib.rs and its texts.
use Prim.Native.String.{◌++◌}
use cadet.Shared.{String, ◌≡◌, refl, Result, ok, err, panicked, ◌≢◌, false, List, [], ◌∷◌}
use cadet.Text.{is_empty}
use cadet.Vocab.Enum.{StringEnum, match_str, as_str-match_str, match_str_calm}

pub data ToolRisk : Type 0 where
  low medium high : ToolRisk

unfoldable pub as_str : ToolRisk → String
as_str low = "low"
as_str medium = "medium"
as_str high = "high"

abbrev arms : List (String × ToolRisk)
arms = ("low", low) ∷ ("medium", medium) ∷ ("high", high) ∷ []

unfoldable pub from_str : String → Result ToolRisk
unfolding match_str
from_str value = match_str arms (err ("unsupported ToolRisk '" ++ value ++ "'")) value

pub from_str-as_str : (v : ToolRisk) → from_str (as_str v) ≡ ok v
unfolding from_str as_str
from_str-as_str low = refl
from_str-as_str medium = refl
from_str-as_str high = refl

pub as_str-from_str : (s : String) (v : ToolRisk) → from_str s ≡ ok v → as_str v ≡ s
unfolding from_str as_str
as_str-from_str s v h =
    as_str-match_str as_str arms (refl, (refl, (refl, tt))) ("unsupported ToolRisk '" ++ s ++ "'") s
      v h

pub from_str_calm : (s : String) → from_str s ≢ panicked
unfolding from_str
from_str_calm s = match_str_calm arms ("unsupported ToolRisk '" ++ s ++ "'") s

pub as_str_filled : (v : ToolRisk) → is_empty (as_str v) ≡ false
unfolding as_str
as_str_filled low = refl
as_str_filled medium = refl
as_str_filled high = refl

unfoldable pub tool_risk : StringEnum ToolRisk
tool_risk = record {
  as_str = as_str;
  from_str = from_str;
  from_str-as_str = from_str-as_str;
  as_str-from_str = as_str-from_str;
  from_str_calm = from_str_calm;
  as_str_filled = as_str_filled;
}
