-- ===== src/Prompt/Toon.antt =====
-- The TOON encoding of rust/starbridge-core/src/context_engine.rs.
use Prim.Native.Char.{code}
use Prim.Native.String.{◌++◌}
use cadet.Shared.{ℕ, suc, String, Bool, false, ◌||◌, ◌==◌, nat_eq, if◌then◌else◌, List, [], ◌∷◌}
use cadet.Text.{is_empty}
use cadet.Prompt.Floats.{is_f64}
use cadet.Prompt.Decimal.{decimal}

-- `value.contains(c)`
abbrev pub contains : ℕ → String → Bool
contains c String.[] = false
contains c (String.◌∷◌ d s) = nat_eq (code d) c || contains c s

-- `value.replace('"', "\\\"")`
unfoldable pub escape : String → String
escape String.[] = ""
escape (String.◌∷◌ c s) =
    let rest = escape s in if nat_eq (code c) 0x22 then "\\\"" ++ rest else String.◌∷◌ c rest

unfoldable pub needs_quoting : String → Bool
needs_quoting value =
    is_empty value
    || contains b':' value
    || contains 0x22 value
    || contains 0x5c value
    || contains 0xa value
    || contains 0x9 value
    || contains b'[' value
    || contains b']' value
    || contains b'{' value
    || contains b'}' value
    || value == "true"
    || value == "false"
    || value == "null"
    || is_f64 value

abbrev pub quoted : String → String
quoted value = "\"" ++ escape value ++ "\""

-- The line of a field: `key: value` or `key: "value"`, after an indentation.
abbrev pub field : String → String → String → String
field indent key value =
    indent ++ key ++ ": " ++ (if needs_quoting value then quoted value else value) ++ "\n"

abbrev pub field_lines : String → List (String × String) → String
field_lines indent [] = ""
field_lines indent ((key, value) ∷ fields) = field indent key value ++ field_lines indent fields

unfoldable pub encode_object : List (String × String) → String
encode_object fields = field_lines "" fields

unfoldable pub encode_nested : String → List (String × String) → String
encode_nested key fields = key ++ ":\n" ++ field_lines "  " fields

-- `parts.join(separator)`
abbrev pub join : String → List String → String
join separator [] = ""
join separator (part ∷ []) = part
join separator (part ∷ (next ∷ parts)) = part ++ separator ++ join separator (next ∷ parts)

abbrev pub needs_cell_quoting : String → Bool
needs_cell_quoting value = contains b',' value || contains 0x22 value || is_empty value

-- A value of a table, which is quoted by rules of its own.
abbrev pub cell : String → String
cell value = if needs_cell_quoting value then quoted value else value

abbrev pub cells : List String → List String
cells [] = []
cells (value ∷ row) = cell value ∷ cells row

abbrev pub row_lines : List (List String) → String
row_lines [] = ""
row_lines (row ∷ rows) = "  " ++ join "," (cells row) ++ "\n" ++ row_lines rows

abbrev pub length {ℓ} : {A : Type ℓ} → List A → ℕ
length [] = 0
length (x ∷ xs) = suc (length xs)

unfoldable pub encode_table : String → List String → List (List String) → String
encode_table key fields rows =
    key ++ "[" ++ decimal (length rows) ++ "]{" ++ join "," fields ++ "}:\n" ++ row_lines rows
