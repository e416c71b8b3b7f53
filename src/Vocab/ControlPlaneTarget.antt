-- ===== src/Vocab/ControlPlaneTarget.antt =====
-- `ControlPlaneTarget` of rust/starbridge-core/src/lib.rs and its texts.
use Prim.Native.String.{◌++◌}
use cadet.Shared.{String, ◌≡◌, refl, Result, ok, err, panicked, ◌≢◌, false, List, [], ◌∷◌}
use cadet.Text.{is_empty}
use cadet.Vocab.Enum.{StringEnum, match_str, as_str-match_str, match_str_calm}

pub data ControlPlaneTarget : Type 0 where
  local cloud : ControlPlaneTarget

unfoldable pub as_str : ControlPlaneTarget → String
as_str local = "local"
as_str cloud = "cloud"

abbrev arms : List (String × ControlPlaneTarget)
arms = ("local", local) ∷ ("cloud", cloud) ∷ []

unfoldable pub from_str : String → Result ControlPlaneTarget
unfolding match_str
from_str value = match_str arms (err ("unsupported ControlPlaneTarget '" ++ value ++ "'")) value

pub from_str-as_str : (v : ControlPlaneTarget) → from_str (as_str v) ≡ ok v
unfolding from_str as_str
from_str-as_str local = refl
from_str-as_str cloud = refl

pub as_str-from_str : (s : String) (v : ControlPlaneTarget) → from_str s ≡ ok v → as_str v ≡ s
unfolding from_str as_str
as_str-from_str s v h =
    as_str-match_str as_str arms (refl, (refl, tt)) ("unsupported ControlPlaneTarget '" ++ s ++ "'")
      s v h

pub from_str_calm : (s : String) → from_str s ≢ panicked
unfolding from_str
from_str_calm s = match_str_calm arms ("unsupported ControlPlaneTarget '" ++ s ++ "'") s

pub as_str_filled : (v : ControlPlaneTarget) → is_empty (as_str v) ≡ false
unfolding as_str
as_str_filled local = refl
as_str_filled cloud = refl

unfoldable pub control_plane_target : StringEnum ControlPlaneTarget
control_plane_target = record {
  as_str = as_str;
  from_str = from_str;
  from_str-as_str = from_str-as_str;
  as_str-from_str = as_str-from_str;
  from_str_calm = from_str_calm;
  as_str_filled = as_str_filled;
}
