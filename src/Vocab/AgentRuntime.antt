-- ===== src/Vocab/AgentRuntime.antt =====
-- `AgentRuntime` of rust/starbridge-core/src/lib.rs and its texts.
use Prim.Native.String.{◌++◌}
use cadet.Shared.{String, ◌≡◌, refl, Result, ok, err, panicked, ◌≢◌, false, List, [], ◌∷◌}
use cadet.Text.{is_empty}
use cadet.Vocab.Enum.{StringEnum, match_str, as_str-match_str, match_str_calm}

pub data AgentRuntime : Type 0 where
  rust_core bun_sidecar edge_function eliza_os : AgentRuntime

unfoldable pub as_str : AgentRuntime → String
as_str rust_core = "rust-core"
as_str bun_sidecar = "bun-sidecar"
as_str edge_function = "edge-function"
as_str eliza_os = "elizaos"

abbrev arms : List (String × AgentRuntime)
arms =
    ("rust-core", rust_core)
    ∷ ("bun-sidecar", bun_sidecar)
    ∷ ("edge-function", edge_function)
    ∷ ("elizaos", eliza_os)
    ∷ []

unfoldable pub from_str : String → Result AgentRuntime
unfolding match_str
from_str value = match_str arms (err ("unsupported AgentRuntime '" ++ value ++ "'")) value

pub from_str-as_str : (v : AgentRuntime) → from_str (as_str v) ≡ ok v
unfolding from_str as_str
from_str-as_str rust_core = refl
from_str-as_str bun_sidecar = refl
from_str-as_str edge_function = refl
from_str-as_str eliza_os = refl

pub as_str-from_str : (s : String) (v : AgentRuntime) → from_str s ≡ ok v → as_str v ≡ s
unfolding from_str as_str
as_str-from_str s v h =
    as_str-match_str as_str arms (refl, (refl, (refl, (refl, tt))))
      ("unsupported AgentRuntime '" ++ s ++ "'") s v h

pub from_str_calm : (s : String) → from_str s ≢ panicked
unfolding from_str
from_str_calm s = match_str_calm arms ("unsupported AgentRuntime '" ++ s ++ "'") s

pub as_str_filled : (v : AgentRuntime) → is_empty (as_str v) ≡ false
unfolding as_str
as_str_filled rust_core = refl
as_str_filled bun_sidecar = refl
as_str_filled edge_function = refl
as_str_filled eliza_os = refl

unfoldable pub agent_runtime : StringEnum AgentRuntime
agent_runtime = record {
  as_str = as_str;
  from_str = from_str;
  from_str-as_str = from_str-as_str;
  as_str-from_str = as_str-from_str;
  from_str_calm = from_str_calm;
  as_str_filled = as_str_filled;
}
