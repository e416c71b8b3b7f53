-- ===== src/Text/Checks.antt =====
-- The texts that the checks of spacetimedb/src/lib.rs accept.
use cadet.Shared.{String, ◌≡◌, true, false, arith, ok, ◌↔◌}
use cadet.Text.{
  is_empty, all_chars, is_identifier_char, trim, validate_identifier, validate_text,
  normalize_json_blob,
}
use cadet.Text.Trim.{trim-trim}

-- A text that the checks store: it has no white space at its ends, and is not empty.
pub record IsTidy (s : String) : Type 0 where
  pub trimmed : trim s ≡ s
  pub filled : is_empty s ≡ false

pub record IsIdentifier (s : String) : Type 0 where
  pub tidy : IsTidy s
  pub chars : all_chars is_identifier_char s ≡ true

pub validate_text-eq-trim :
    (value field : String) {s : String}
    → validate_text value field ≡ ok s
    → (s ≡ trim value) × (is_empty (trim value) ≡ false)
unfolding validate_text
validate_text-eq-trim value field h = ground arith

pub validate_text-IsTidy :
    (value field : String) {s : String} → validate_text value field ≡ ok s → IsTidy s
unfolding validate_text
validate_text-IsTidy value field {s} h = ground (arith, trim-trim value)

pub normalize_json_blob-eq :
    (value field : String) → normalize_json_blob value field ≡ validate_text value field
unfolding normalize_json_blob validate_text
normalize_json_blob-eq value field = ground arith

-- A text is accepted as an identifier exactly if it is one once trimmed, and the trimmed text is
-- what is returned.
pub validate_identifier_iff :
    (value field s : String)
    → (validate_identifier value field ≡ ok s) ↔ ((s ≡ trim value) × IsIdentifier s)
unfolding validate_identifier
validate_identifier_iff value field s =
    (λ h. (ground arith, ground (arith, trim-trim value)), λ h. ground (arith, trim-trim value))

pub validate_text_complete :
    (value field : String)
    → is_empty (trim value) ≡ false
    → validate_text value field ≡ ok (trim value)
unfolding validate_text
validate_text_complete value field h = rw h
