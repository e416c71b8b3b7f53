-- ===== src/Text/Choice.antt =====
-- The checks of spacetimedb/src/lib.rs for a text of a fixed list: `match trimmed { "a" | "b" => ... }`.
use cadet.Shared.{
  String, Bool, true, false, ◌||◌, ◌==◌, eq_iff, arith, List, [], ◌∷◌, ◌≡◌, Among, inl, inr,
  Bool-cases,
}

-- Whether a text is a pattern of the match.
abbrev pub is_one_of : String → List String → Bool
is_one_of s [] = false
is_one_of s (word ∷ words) = s == word || is_one_of s words

abbrev pub score_sources : List String
score_sources = "rlvr" ∷ "llm-judge" ∷ "operator-feedback" ∷ []

abbrev pub training_methods : List String
training_methods = "grpo" ∷ "rlvr" ∷ "sft" ∷ []

abbrev pub training_statuses : List String
training_statuses = "running" ∷ "completed" ∷ "failed" ∷ []

abbrev pub sandbox_statuses : List String
sandbox_statuses = "creating" ∷ "running" ∷ "sleeping" ∷ "stopped" ∷ "error" ∷ []

pub is_one_of-Among : (s : String) (words : List String) → is_one_of s words ≡ true → Among s words
is_one_of-Among s [] h = cc
is_one_of-Among s (word ∷ words) h = elim (Bool-cases (s == word)) [
  | inl same ↦ inl ((eq_iff s word).0 same)
  | inr other ↦ inr (is_one_of-Among s words (ground arith))
]
