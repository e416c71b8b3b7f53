-- ===== src/Prompt/Floats.antt =====
-- Which texts `str::parse::<f64>` reads, by the grammar of the standard library: an optional sign, and
-- `inf`, `infinity` or `nan` in any case, or digits with an optional point and exponent.
use Prim.Native.Char.{code}
use cadet.Shared.{ℕ, ◌+◌, String, Bool, true, false, ◌||◌, ◌&&◌, leb, nat_eq, if◌then◌else◌}

-- What has been read of a number. `whole`, `fraction` and `power` end one.
pub data Reading : Type 0 where
  start whole point fraction exponent exponent_sign power stuck : Reading

abbrev is_digit : ℕ → Bool
is_digit c = leb b'0' c && leb c b'9'

abbrev is_e : ℕ → Bool
is_e c = nat_eq c b'e' || nat_eq c b'E'

abbrev is_sign : ℕ → Bool
is_sign c = nat_eq c b'+' || nat_eq c b'-'

-- `point` is after a point with no digit before it.
abbrev read : Reading → ℕ → Reading
read Reading.start c =
    if is_digit c then Reading.whole else if nat_eq c b'.' then Reading.point else Reading.stuck
read Reading.whole c =
    if is_digit c
    then Reading.whole
    else if nat_eq c b'.'
    then Reading.fraction
    else if is_e c
    then Reading.exponent
    else Reading.stuck
read Reading.point c = if is_digit c then Reading.fraction else Reading.stuck
read Reading.fraction c =
    if is_digit c then Reading.fraction else if is_e c then Reading.exponent else Reading.stuck
read Reading.exponent c =
    if is_digit c then Reading.power else if is_sign c then Reading.exponent_sign else Reading.stuck
read Reading.exponent_sign c = if is_digit c then Reading.power else Reading.stuck
read Reading.power c = if is_digit c then Reading.power else Reading.stuck
read Reading.stuck c = Reading.stuck

abbrev ends : Reading → Bool
ends Reading.whole = true
ends Reading.fraction = true
ends Reading.power = true
ends _ = false

abbrev reads : Reading → String → Bool
reads r String.[] = ends r
reads r (String.◌∷◌ c s) = reads (read r (code c)) s

-- Equality of a text with one in lower case, whatever the case of its letters.
abbrev is_word : String → String → Bool
is_word String.[] String.[] = true
is_word (String.◌∷◌ c s) (String.◌∷◌ d w) =
    (nat_eq (code c) (code d) || nat_eq (code c + 32) (code d)) && is_word s w
is_word _ _ = false

abbrev unsigned : String → Bool
unsigned s = is_word s "inf" || is_word s "infinity" || is_word s "nan" || reads Reading.start s

-- `value.parse::<f64>().is_ok()`
unfoldable pub is_f64 : String → Bool
is_f64 String.[] = false
is_f64 (String.◌∷◌ c s) =
    let rest = unsigned s in
    let whole = unsigned (String.◌∷◌ c s) in if is_sign (code c) then rest else whole
