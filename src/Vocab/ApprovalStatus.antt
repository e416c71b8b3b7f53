-- ===== src/Vocab/ApprovalStatus.antt =====
-- `ApprovalStatus` of rust/starbridge-core/src/lib.rs and its texts.
use Prim.Native.String.{◌++◌}
use cadet.Shared.{String, ◌≡◌, refl, Result, ok, err, panicked, ◌≢◌, false, List, [], ◌∷◌}
use cadet.Text.{is_empty}
use cadet.Vocab.Enum.{StringEnum, match_str, as_str-match_str, match_str_calm}

pub data ApprovalStatus : Type 0 where
  pending approved rejected expired : ApprovalStatus

unfoldable pub as_str : ApprovalStatus → String
as_str pending = "pending"
as_str approved = "approved"
as_str rejected = "rejected"
as_str expired = "expired"

abbrev arms : List (String × ApprovalStatus)
arms =
    ("pending", pending)
    ∷ ("approved", approved)
    ∷ ("rejected", rejected)
    ∷ ("expired", expired)
    ∷ []

unfoldable pub from_str : String → Result ApprovalStatus
unfolding match_str
from_str value = match_str arms (err ("unsupported ApprovalStatus '" ++ value ++ "'")) value

pub from_str-as_str : (v : ApprovalStatus) → from_str (as_str v) ≡ ok v
unfolding from_str as_str
from_str-as_str pending = refl
from_str-as_str approved = refl
from_str-as_str rejected = refl
from_str-as_str expired = refl

pub as_str-from_str : (s : String) (v : ApprovalStatus) → from_str s ≡ ok v → as_str v ≡ s
unfolding from_str as_str
as_str-from_str s v h =
    as_str-match_str as_str arms (refl, (refl, (refl, (refl, tt))))
      ("unsupported ApprovalStatus '" ++ s ++ "'") s v h

pub from_str_calm : (s : String) → from_str s ≢ panicked
unfolding from_str
from_str_calm s = match_str_calm arms ("unsupported ApprovalStatus '" ++ s ++ "'") s

pub as_str_filled : (v : ApprovalStatus) → is_empty (as_str v) ≡ false
unfolding as_str
as_str_filled pending = refl
as_str_filled approved = refl
as_str_filled rejected = refl
as_str_filled expired = refl

unfoldable pub approval_status : StringEnum ApprovalStatus
approval_status = record {
  as_str = as_str;
  from_str = from_str;
  from_str-as_str = from_str-as_str;
  as_str-from_str = as_str-from_str;
  from_str_calm = from_str_calm;
  as_str_filled = as_str_filled;
}
