-- ===== src/Text.antt =====
-- The text checks of spacetimedb/src/lib.rs, over the characters of a text.
pub mod Trim
pub mod Checks
pub mod Identifiers
pub mod Choice
use Prim.Native.Char.{Char, code}
use Prim.Native.String.{◌++◌}
use cadet.Shared.{
  ℕ, String, Bool, true, false, ◌&&◌, ◌||◌, leb, nat_eq, if◌then◌else◌, Result, ok, err, ◌>>=◌,
  ◌>>◌, refuse_if, not,
}

-- `char::is_whitespace`, the code points with the property White_Space.
unfoldable pub is_whitespace : ℕ → Bool
is_whitespace c =
    (leb 0x9 c && leb c 0xd)
    || nat_eq c 0x20
    || nat_eq c 0x85
    || nat_eq c 0xa0
    || nat_eq c 0x1680
    || (leb 0x2000 c && leb c 0x200a)
    || nat_eq c 0x2028
    || nat_eq c 0x2029
    || nat_eq c 0x202f
    || nat_eq c 0x205f
    || nat_eq c 0x3000

abbrev pub is_empty : String → Bool
is_empty String.[] = true
is_empty (String.◌∷◌ c s) = false

-- `char::is_ascii_alphanumeric`
abbrev is_ascii_alphanumeric : ℕ → Bool
is_ascii_alphanumeric c =
    (leb b'0' c && leb c b'9') || (leb b'A' c && leb c b'Z') || (leb b'a' c && leb c b'z')

-- The characters that an identifier may have.
unfoldable pub is_identifier_char : ℕ → Bool
is_identifier_char c = is_ascii_alphanumeric c || nat_eq c b'-' || nat_eq c b'_'

-- `text.chars().all(p)`
abbrev pub all_chars : (ℕ → Bool) → String → Bool
all_chars p String.[] = true
all_chars p (String.◌∷◌ c s) = p (code c) && all_chars p s

pub trim_start : String → String
trim_start String.[] = ""
trim_start (String.◌∷◌ c s) =
    let rest = trim_start s in if is_whitespace (code c) then rest else String.◌∷◌ c s

pub trim_end : String → String
trim_end String.[] = ""
trim_end (String.◌∷◌ c s) =
    let rest = trim_end s in
    if is_empty rest && is_whitespace (code c) then "" else String.◌∷◌ c rest

-- `str::trim`
unfoldable pub trim : String → String
unfolding trim_start trim_end is_whitespace
trim s = trim_end (trim_start s)

unfoldable pub validate_identifier : String → String → Result String
unfolding trim is_identifier_char ◌>>=◌
validate_identifier value field = do
  let trimmed = trim value
  refuse_if (is_empty trimmed) (field ++ " must not be empty")
  refuse_if (not (all_chars is_identifier_char trimmed))
      (field ++ " must contain only letters, numbers, '-' or '_'")
  ok trimmed

unfoldable pub validate_text : String → String → Result String
unfolding trim
validate_text value field = do
  let trimmed = trim value
  if is_empty trimmed then err (field ++ " must not be empty") else ok trimmed

unfoldable pub normalize_json_blob : String → String → Result String
unfolding trim
normalize_json_blob value field = do
  let trimmed = trim value
  if is_empty trimmed then err (field ++ " must not be empty") else ok trimmed
