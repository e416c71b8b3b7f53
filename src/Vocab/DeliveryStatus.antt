-- ===== src/Vocab/DeliveryStatus.antt =====
-- `DeliveryStatus` of rust/starbridge-core/src/lib.rs and its texts.
use Prim.Native.String.{◌++◌}
use cadet.Shared.{String, ◌≡◌, refl, Result, ok, err, panicked, ◌≢◌, false, List, [], ◌∷◌}
use cadet.Text.{is_empty}
use cadet.Vocab.Enum.{StringEnum, match_str, as_str-match_str, match_str_calm}

pub data DeliveryStatus : Type 0 where
  queued sent failed retrying : DeliveryStatus

unfoldable pub as_str : DeliveryStatus → String
as_str queued = "queued"
as_str sent = "sent"
as_str failed = "failed"
as_str retrying = "retrying"

abbrev arms : List (String × DeliveryStatus)
arms = ("queued", queued) ∷ ("sent", sent) ∷ ("failed", failed) ∷ ("retrying", retrying) ∷ []

unfoldable pub from_str : String → Result DeliveryStatus
unfolding match_str
from_str value = match_str arms (err ("unsupported DeliveryStatus '" ++ value ++ "'")) value

pub from_str-as_str : (v : DeliveryStatus) → from_str (as_str v) ≡ ok v
unfolding from_str as_str
from_str-as_str queued = refl
from_str-as_str sent = refl
from_str-as_str failed = refl
from_str-as_str retrying = refl

pub as_str-from_str : (s : String) (v : DeliveryStatus) → from_str s ≡ ok v → as_str v ≡ s
unfolding from_str as_str
as_str-from_str s v h =
    as_str-match_str as_str arms (refl, (refl, (refl, (refl, tt))))
      ("unsupported DeliveryStatus '" ++ s ++ "'") s v h

pub from_str_calm : (s : String) → from_str s ≢ panicked
unfolding from_str
from_str_calm s = match_str_calm arms ("unsupported DeliveryStatus '" ++ s ++ "'") s

pub as_str_filled : (v : DeliveryStatus) → is_empty (as_str v) ≡ false
unfolding as_str
as_str_filled queued = refl
as_str_filled sent = refl
as_str_filled failed = refl
as_str_filled retrying = refl

unfoldable pub delivery_status : StringEnum DeliveryStatus
delivery_status = record {
  as_str = as_str;
  from_str = from_str;
  from_str-as_str = from_str-as_str;
  as_str-from_str = as_str-from_str;
  from_str_calm = from_str_calm;
  as_str_filled = as_str_filled;
}
