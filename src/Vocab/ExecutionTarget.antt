-- ===== src/Vocab/ExecutionTarget.antt =====
-- `ExecutionTarget` of rust/starbridge-core/src/lib.rs and its texts.
use Prim.Native.String.{◌++◌}
use cadet.Shared.{String, ◌≡◌, refl, Result, ok, err, panicked, ◌≢◌, false, List, [], ◌∷◌}
use cadet.Text.{is_empty}
use cadet.Vocab.Enum.{StringEnum, match_str, as_str-match_str, match_str_calm}

pub data ExecutionTarget : Type 0 where
  local_runner vercel_edge container_runner maincloud_runner : ExecutionTarget

unfoldable pub as_str : ExecutionTarget → String
as_str local_runner = "local-runner"
as_str vercel_edge = "vercel-edge"
as_str container_runner = "container-runner"
as_str maincloud_runner = "maincloud-runner"

abbrev arms : List (String × ExecutionTarget)
arms =
    ("local-runner", local_runner)
    ∷ ("vercel-edge", vercel_edge)
    ∷ ("container-runner", container_runner)
    ∷ ("maincloud-runner", maincloud_runner)
    ∷ []

unfoldable pub from_str : String → Result ExecutionTarget
unfolding match_str
from_str value = match_str arms (err ("unsupported execution target '" ++ value ++ "'")) value

pub from_str-as_str : (v : ExecutionTarget) → from_str (as_str v) ≡ ok v
unfolding from_str as_str
from_str-as_str local_runner = refl
from_str-as_str vercel_edge = refl
from_str-as_str container_runner = refl
from_str-as_str maincloud_runner = refl

pub as_str-from_str : (s : String) (v : ExecutionTarget) → from_str s ≡ ok v → as_str v ≡ s
unfolding from_str as_str
as_str-from_str s v h =
    as_str-match_str as_str arms (refl, (refl, (refl, (refl, tt))))
      ("unsupported execution target '" ++ s ++ "'") s v h

pub from_str_calm : (s : String) → from_str s ≢ panicked
unfolding from_str
from_str_calm s = match_str_calm arms ("unsupported execution target '" ++ s ++ "'") s

pub as_str_filled : (v : ExecutionTarget) → is_empty (as_str v) ≡ false
unfolding as_str
as_str_filled local_runner = refl
as_str_filled vercel_edge = refl
as_str_filled container_runner = refl
as_str_filled maincloud_runner = refl

unfoldable pub execution_target : StringEnum ExecutionTarget
execution_target = record {
  as_str = as_str;
  from_str = from_str;
  from_str-as_str = from_str-as_str;
  as_str-from_str = as_str-from_str;
  from_str_calm = from_str_calm;
  as_str_filled = as_str_filled;
}
