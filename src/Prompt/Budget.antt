-- ===== src/Prompt/Budget.antt =====
-- The token budget of rust/starbridge-core/src/context_engine.rs. A `u32` wraps as in a release build.
use Prim.Native.Char.{code}
use Prim.Native.Nat.{◌/◌}
use Prim.Native.String.{◌++◌}
use cadet.Shared.{ℕ, ◌+◌, ◌%◌, ◌^◌, String, leb, ltb, if◌then◌else◌, List, [], ◌∷◌}

-- The bytes of a character in UTF-8.
abbrev pub utf8_len : ℕ → ℕ
utf8_len c = if ltb c 0x80 then 1 else if ltb c 0x800 then 2 else if ltb c 0x10000 then 3 else 4

-- The sum of a weight over the characters of a text.
abbrev pub weigh : (ℕ → ℕ) → String → ℕ
weigh w String.[] = 0
weigh w (String.◌∷◌ c s) = w (code c) + weigh w s

-- `text.len()`
abbrev pub byte_len : String → ℕ
byte_len s = weigh utf8_len s

unfoldable pub estimate_tokens : String → ℕ
estimate_tokens text = (byte_len text % 2 ^ 32 + 3) % 2 ^ 32 / 4

pub record ContextFragment : Type 0 where
  pub source : String
  pub content : String
  pub tokens : ℕ

-- `ContextFragment::new`
unfoldable pub new : String → String → ContextFragment
new source content = record { source = source; content = content; tokens = estimate_tokens content }

-- The loop of `fit_to_budget`, from a sum that is used.
unfoldable pub fit : ℕ → ℕ → List ContextFragment → List ContextFragment
fit budget used [] = []
fit budget used (frag ∷ fragments) =
    let sum = (used + frag.tokens) % 2 ^ 32 in
    let taken = fit budget sum fragments in
    let left = fit budget used fragments in if leb sum budget then frag ∷ taken else left

unfoldable pub fit_to_budget : List ContextFragment → ℕ → List ContextFragment
unfolding fit
fit_to_budget fragments budget = fit budget 0 fragments

-- The contents, each but the first after a line break.
abbrev pub following : List ContextFragment → String
following [] = ""
following (frag ∷ fragments) = "\n" ++ frag.content ++ following fragments

unfoldable pub assemble : List ContextFragment → String
assemble [] = ""
assemble (frag ∷ fragments) = frag.content ++ following fragments
