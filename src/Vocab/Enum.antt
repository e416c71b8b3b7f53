-- ===== src/Vocab/Enum.antt =====
-- The macro `string_enum!` of rust/starbridge-core/src/lib.rs, and the interface that every
-- enumeration of that file fills: `as_str` prints a variant and `from_str` reads it back.
use cadet.Shared.{
  String, ◌≡◌, List, [], ◌∷◌, Result, ok, err, panicked, false, ◌==◌, eq_iff, arith, if◌then◌else◌,
  ◌≢◌,
}
use cadet.Text.{is_empty}

-- `match value { "a" => Ok(a), …, _ => other }`
unfoldable pub match_str : {A : Type 0} → List (String × A) → Result A → String → Result A
match_str [] other value = other
match_str ((word, a) ∷ arms) other value =
    if value == word then ok a else match_str arms other value

-- Each arm reads the word that `as_str` prints.
abbrev pub Agrees : {A : Type 0} → (A → String) → List (String × A) → Type 0
Agrees as_str [] = Unit
Agrees as_str ((word, a) ∷ arms) = (as_str a ≡ word) × Agrees as_str arms

pub as_str-match_str :
    {A : Type 0} (as_str : A → String) (arms : List (String × A))
    → Agrees as_str arms
    → (message : String) (value : String) (a : A) → match_str arms (err message) value ≡ ok a
    → as_str a ≡ value
unfolding match_str
as_str-match_str as_str [] g message value a h = cc
as_str-match_str as_str ((word, b) ∷ arms) g message value a h =
    ground (arith, eq_iff value word, as_str-match_str as_str arms g.1 message value a)

pub match_str_calm :
    {A : Type 0} (arms : List (String × A)) (message value : String)
    → match_str arms (err message) value ≢ panicked
unfolding match_str
match_str_calm [] message value h = cc
match_str_calm ((word, a) ∷ arms) message value h =
    ground (arith, match_str_calm arms message value)

pub record StringEnum (A : Type 0) : Type 0 where
  pub as_str : A → String
  pub from_str : String → Result A
  pub from_str-as_str : (a : A) → from_str (as_str a) ≡ ok a
  pub as_str-from_str : (s : String) (a : A) → from_str s ≡ ok a → as_str a ≡ s
  pub from_str_calm : (s : String) → from_str s ≢ panicked
  pub as_str_filled : (a : A) → is_empty (as_str a) ≡ false

-- `s` is a word of the enumeration.
pub record IsWord {A : Type 0} (e : StringEnum A) (s : String) : Type 0 where
  pub variant : A
  pub spelled : e.as_str variant ≡ s
