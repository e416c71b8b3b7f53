-- ===== src/Vocab/BrowserArtifactKind.antt =====
-- `BrowserArtifactKind` of rust/starbridge-core/src/lib.rs and its texts.
use Prim.Native.String.{◌++◌}
use cadet.Shared.{String, ◌≡◌, refl, Result, ok, err, panicked, ◌≢◌, false, List, [], ◌∷◌}
use cadet.Text.{is_empty}
use cadet.Vocab.Enum.{StringEnum, match_str, as_str-match_str, match_str_calm}

pub data BrowserArtifactKind : Type 0 where
  screenshot text pdf html trace : BrowserArtifactKind

unfoldable pub as_str : BrowserArtifactKind → String
as_str screenshot = "screenshot"
as_str text = "text"
as_str pdf = "pdf"
as_str html = "html"
as_str trace = "trace"

abbrev arms : List (String × BrowserArtifactKind)
arms =
    ("screenshot", screenshot)
    ∷ ("text", text)
    ∷ ("pdf", pdf)
    ∷ ("html", html)
    ∷ ("trace", trace)
    ∷ []

unfoldable pub from_str : String → Result BrowserArtifactKind
unfolding match_str
from_str value = match_str arms (err ("unsupported BrowserArtifactKind '" ++ value ++ "'")) value

pub from_str-as_str : (v : BrowserArtifactKind) → from_str (as_str v) ≡ ok v
unfolding from_str as_str
from_str-as_str screenshot = refl
from_str-as_str text = refl
from_str-as_str pdf = refl
from_str-as_str html = refl
from_str-as_str trace = refl

pub as_str-from_str : (s : String) (v : BrowserArtifactKind) → from_str s ≡ ok v → as_str v ≡ s
unfolding from_str as_str
as_str-from_str s v h =
    as_str-match_str as_str arms (refl, (refl, (refl, (refl, (refl, tt)))))
      ("unsupported BrowserArtifactKind '" ++ s ++ "'") s v h

pub from_str_calm : (s : String) → from_str s ≢ panicked
unfolding from_str
from_str_calm s = match_str_calm arms ("unsupported BrowserArtifactKind '" ++ s ++ "'") s

pub as_str_filled : (v : BrowserArtifactKind) → is_empty (as_str v) ≡ false
unfolding as_str
as_str_filled screenshot = refl
as_str_filled text = refl
as_str_filled pdf = refl
as_str_filled html = refl
as_str_filled trace = refl

unfoldable pub browser_artifact_kind : StringEnum BrowserArtifactKind
browser_artifact_kind = record {
  as_str = as_str;
  from_str = from_str;
  from_str-as_str = from_str-as_str;
  as_str-from_str = as_str-from_str;
  from_str_calm = from_str_calm;
  as_str_filled = as_str_filled;
}
