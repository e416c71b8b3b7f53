-- ===== src/Vocab/WorkflowStage.antt =====
-- `WorkflowStage` of rust/starbridge-core/src/lib.rs and its texts.
use Prim.Native.String.{◌++◌}
use cadet.Shared.{
  String, ◌≡◌, refl, Result, ok, err, panicked, ◌≢◌, false, List, [], ◌∷◌, Option, none, some,
}
use cadet.Text.{is_empty}
use cadet.Vocab.Enum.{StringEnum, match_str, as_str-match_str, match_str_calm}

pub data WorkflowStage : Type 0 where
  route plan gather act verify summarize learn : WorkflowStage

unfoldable pub as_str : WorkflowStage → String
as_str route = "route"
as_str plan = "plan"
as_str gather = "gather"
as_str act = "act"
as_str verify = "verify"
as_str summarize = "summarize"
as_str learn = "learn"

abbrev arms : List (String × WorkflowStage)
arms =
    ("route", route)
    ∷ ("plan", plan)
    ∷ ("gather", gather)
    ∷ ("act", act)
    ∷ ("verify", verify)
    ∷ ("summarize", summarize)
    ∷ ("learn", learn)
    ∷ []

unfoldable pub from_str : String → Result WorkflowStage
unfolding match_str
from_str value = match_str arms (err ("unsupported workflow stage '" ++ value ++ "'")) value

unfoldable pub next : WorkflowStage → Option WorkflowStage
next route = some plan
next plan = some gather
next gather = some act
next act = some verify
next verify = some summarize
next summarize = some learn
next learn = none

pub from_str-as_str : (v : WorkflowStage) → from_str (as_str v) ≡ ok v
unfolding from_str as_str
from_str-as_str route = refl
from_str-as_str plan = refl
from_str-as_str gather = refl
from_str-as_str act = refl
from_str-as_str verify = refl
from_str-as_str summarize = refl
from_str-as_str learn = refl

pub as_str-from_str : (s : String) (v : WorkflowStage) → from_str s ≡ ok v → as_str v ≡ s
unfolding from_str as_str
as_str-from_str s v h =
    as_str-match_str as_str arms (refl, (refl, (refl, (refl, (refl, (refl, (refl, tt)))))))
      ("unsupported workflow stage '" ++ s ++ "'") s v h

pub from_str_calm : (s : String) → from_str s ≢ panicked
unfolding from_str
from_str_calm s = match_str_calm arms ("unsupported workflow stage '" ++ s ++ "'") s

pub as_str_filled : (v : WorkflowStage) → is_empty (as_str v) ≡ false
unfolding as_str
as_str_filled route = refl
as_str_filled plan = refl
as_str_filled gather = refl
as_str_filled act = refl
as_str_filled verify = refl
as_str_filled summarize = refl
as_str_filled learn = refl

unfoldable pub workflow_stage : StringEnum WorkflowStage
workflow_stage = record {
  as_str = as_str;
  from_str = from_str;
  from_str-as_str = from_str-as_str;
  as_str-from_str = as_str-from_str;
  from_str_calm = from_str_calm;
  as_str_filled = as_str_filled;
}
