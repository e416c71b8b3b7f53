-- ===== src/Validate/Words.antt =====
-- The check for a word of an enumeration, whichever it is.
use cadet.Shared.{String, ◌≡◌, sym, ap, ◌∙◌, ok, ◌↔◌, ◌>>=◌, >>=-eq-ok}
use cadet.Text.{trim, validate_text}
use cadet.Text.Checks.{validate_text-eq-trim}
use cadet.Vocab.Enum.{StringEnum, IsWord}
use cadet.Validate.{parse_as}

module _ {A : Type 0} (e : StringEnum A) (value field s : String) where
  parse_as_sound : parse_as e value field ≡ ok s → (s ≡ trim value) × IsWord e s
  unfolding parse_as
  parse_as_sound h =
      let (text, checked, h₁) = >>=-eq-ok (validate_text value field) _ h in
      let (a, read, h₂) = >>=-eq-ok (e.from_str text) _ h₁ in
      let printed : e.as_str a ≡ s = cc in
      (
        sym printed ∙ e.as_str-from_str text a read ∙ (validate_text-eq-trim value field checked).0,
        record { variant = a; spelled = printed },
      )

  parse_as_complete : s ≡ trim value → IsWord e s → parse_as e value field ≡ ok s
  unfolding parse_as validate_text ◌>>=◌
  parse_as_complete p w =
      let word : trim value ≡ e.as_str w.variant = sym p ∙ sym w.spelled in
      rw (word, e.as_str_filled w.variant, e.from_str-as_str w.variant) (ap ok w.spelled)

  -- A text is accepted exactly if it is a word of the enumeration once trimmed, and that word is
  -- what is returned.
  pub parse_as_iff : (parse_as e value field ≡ ok s) ↔ ((s ≡ trim value) × IsWord e s)
  parse_as_iff = (parse_as_sound, λ h. parse_as_complete h.0 h.1)
