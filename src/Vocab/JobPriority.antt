-- ===== src/Vocab/JobPriority.antt =====
-- `JobPriority` of rust/starbridge-core/src/lib.rs and its texts.
use Prim.Native.String.{◌++◌}
use cadet.Shared.{String, ◌≡◌, refl, Result, ok, err, panicked, ◌≢◌, false, List, [], ◌∷◌}
use cadet.Text.{is_empty}
use cadet.Vocab.Enum.{StringEnum, match_str, as_str-match_str, match_str_calm}

pub data JobPriority : Type 0 where
  low normal high : JobPriority

unfoldable pub as_str : JobPriority → String
as_str low = "low"
as_str normal = "normal"
as_str high = "high"

abbrev arms : List (String × JobPriority)
arms = ("low", low) ∷ ("normal", normal) ∷ ("high", high) ∷ []

unfoldable pub from_str : String → Result JobPriority
unfolding match_str
from_str value = match_str arms (err ("unsupported JobPriority '" ++ value ++ "'")) value

pub from_str-as_str : (v : JobPriority) → from_str (as_str v) ≡ ok v
unfolding from_str as_str
from_str-as_str low = refl
from_str-as_str normal = refl
from_str-as_str high = refl

pub as_str-from_str : (s : String) (v : JobPriority) → from_str s ≡ ok v → as_str v ≡ s
unfolding from_str as_str
as_str-from_str s v h =
    as_str-match_str as_str arms (refl, (refl, (refl, tt)))
      ("unsupported JobPriority '" ++ s ++ "'") s v h

pub from_str_calm : (s : String) → from_str s ≢ panicked
unfolding from_str
from_str_calm s = match_str_calm arms ("unsupported JobPriority '" ++ s ++ "'") s

pub as_str_filled : (v : JobPriority) → is_empty (as_str v) ≡ false
unfolding as_str
as_str_filled low = refl
as_str_filled normal = refl
as_str_filled high = refl

unfoldable pub job_priority : StringEnum JobPriority
job_priority = record {
  as_str = as_str;
  from_str = from_str;
  from_str-as_str = from_str-as_str;
  as_str-from_str = as_str-from_str;
  from_str_calm = from_str_calm;
  as_str_filled = as_str_filled;
}
