-- ===== src/Text/Identifiers.antt =====
-- `validate_identifier` of spacetimedb/src/lib.rs, against the identifiers written out.
use Prim.Native.Char.{code}
use Prim.Native.String.{◌++◌}
use text.Mathlib.TextLemmas.{cons-append, nil-append, append-nil}
use cadet.Shared.{
  ℕ, zero, suc, ◌<◌, String, ◌≡◌, refl, sym, ap, ◌∙◌, Bool, true, false, ◌&&◌, ◌||◌, not, nat_eq,
  arith, ok, ◌↔◌, ◌⊎◌, inl, inr, Bool-cases,
}
use cadet.Text.{
  is_whitespace, is_empty, is_identifier_char, all_chars, trim, trim_start, trim_end,
  validate_identifier,
}
use cadet.Text.Checks.{validate_identifier_iff}

-- The characters of an identifier.
abbrev pub alphabet : String
alphabet = "ABCDEFGHIJKLMNOPQRSTUVWXYZabcdefghijklmnopqrstuvwxyz0123456789-_"

abbrev pub Occurs : ℕ → String → Type 0
Occurs c String.[] = ⊥
Occurs c (String.◌∷◌ d s) = (c ≡ code d) ⊎ Occurs c s

abbrev pub Each : (ℕ → Type 0) → String → Type 0
Each P String.[] = Unit
Each P (String.◌∷◌ c s) = P (code c) × Each P s

abbrev pub IsBlank : ℕ → Type 0
IsBlank c = is_whitespace c ≡ true

abbrev pub IsLetter : ℕ → Type 0
IsLetter c = Occurs c alphabet

-- The value is the identifier between white space.
pub record Holds (value identifier : String) : Type 0 where
  pub left : String
  pub right : String
  pub around : value ≡ left ++ (identifier ++ right)
  pub left_blank : Each IsBlank left
  pub right_blank : Each IsBlank right
  pub filled : is_empty identifier ≡ false
  pub letters : Each IsLetter identifier

all_chars-Occurs :
    (p : ℕ → Bool) (c : ℕ) (s : String) → all_chars p s ≡ true → Occurs c s → p c ≡ true
all_chars-Occurs p c String.[] h o = absurd o
all_chars-Occurs p c (String.◌∷◌ d s) h (inl e) = rw e (ground arith)
all_chars-Occurs p c (String.◌∷◌ d s) h (inr o) = all_chars-Occurs p c s (ground arith) o

occurs : ℕ → String → Bool
occurs c String.[] = false
occurs c (String.◌∷◌ d s) = nat_eq c (code d) || occurs c s

Occurs-of_occurs : (c : ℕ) (s : String) → occurs c s ≡ true → Occurs c s
unfolding occurs
Occurs-of_occurs c String.[] h = cc
Occurs-of_occurs c (String.◌∷◌ d s) h = elim (Bool-cases (nat_eq c (code d))) [
  | inl same ↦ inl (ground arith)
  | inr other ↦ inr (Occurs-of_occurs c s (ground arith))
]

-- Below `n`, what passes the test is a letter.
covered : ℕ → Bool
covered zero = true
covered (suc n) =
    let below = covered n in (not (is_identifier_char n) || occurs n alphabet) && below

covered-occurs :
    (n c : ℕ) → covered n ≡ true → c < n → is_identifier_char c ≡ true → occurs c alphabet ≡ true
unfolding covered
covered-occurs zero c h lt passes = absurd (omega arith)
covered-occurs (suc n) c h lt passes = elim (Bool-cases (nat_eq c n)) [
  | inl same ↦
      let e : c ≡ n = ground arith in
      let here : is_identifier_char n ≡ true = rw (← e) passes in rw e (ground arith)
  | inr other ↦ covered-occurs n c (ground arith) (ground arith) passes
]

covered_all : covered 123 ≡ true
unfolding covered is_identifier_char occurs
covered_all = refl

below_all : (c : ℕ) → is_identifier_char c ≡ true → c < 123
unfolding is_identifier_char
below_all c h = ground arith

is_identifier_char_iff : (c : ℕ) → (is_identifier_char c ≡ true) ↔ IsLetter c
unfolding is_identifier_char
is_identifier_char_iff c = (
  λ h. Occurs-of_occurs c alphabet (covered-occurs 123 c covered_all (below_all c h) h),
  all_chars-Occurs is_identifier_char c alphabet refl,
)

all_chars_iff : (s : String) → (all_chars is_identifier_char s ≡ true) ↔ Each IsLetter s
all_chars_iff String.[] = (λ _. tt, λ _. refl)
all_chars_iff (String.◌∷◌ c s) = (
  λ h. ((is_identifier_char_iff (code c)).0 (ground arith), (all_chars_iff s).0 (ground arith)),
  λ h.
      let here = (is_identifier_char_iff (code c)).1 h.0 in
      let rest = (all_chars_iff s).1 h.1 in ground arith,
)

empty_eq : (s : String) → is_empty s ≡ true → s ≡ ""
empty_eq String.[] h = refl
empty_eq (String.◌∷◌ c s) h = cc

trim_start-blank : (l s : String) → Each IsBlank l → trim_start (l ++ s) ≡ trim_start s
unfolding trim_start
trim_start-blank String.[] s h = ap trim_start (nil-append s)
trim_start-blank (String.◌∷◌ c l) s h =
    ap trim_start (cons-append c l s) ∙ rw h.0 (trim_start-blank l s h.1)

trim_end-blank : (r : String) → Each IsBlank r → trim_end r ≡ ""
unfolding trim_end
trim_end-blank String.[] h = refl
trim_end-blank (String.◌∷◌ c r) h = rw (trim_end-blank r h.1, h.0) refl

-- No letter is white space.
letter_bare : (c : ℕ) → IsLetter c → is_whitespace c ≡ false
unfolding is_identifier_char is_whitespace
letter_bare c h = let passes = (is_identifier_char_iff c).1 h in ground arith

trim_end-letters : (s r : String) → Each IsLetter s → Each IsBlank r → trim_end (s ++ r) ≡ s
unfolding trim_end
trim_end-letters String.[] r h b = ap trim_end (nil-append r) ∙ trim_end-blank r b
trim_end-letters (String.◌∷◌ c s) r h b =
    let rest = trim_end-letters s r h.1 b in
    let bare = letter_bare (code c) h.0 in
    ap trim_end (cons-append c s r) ∙ rw (rest, bare) (ground arith)

trim_start-letters :
    (s r : String) → is_empty s ≡ false → Each IsLetter s → trim_start (s ++ r) ≡ s ++ r
unfolding trim_start
trim_start-letters String.[] r filled h = cc
trim_start-letters (String.◌∷◌ c s) r filled h =
    ap trim_start (cons-append c s r) ∙ rw (letter_bare (code c) h.0) (sym (cons-append c s r))

trim-Holds : (value s : String) → Holds value s → trim value ≡ s
unfolding trim
trim-Holds value s h =
    ap trim h.around
    ∙ ap trim_end (
        trim_start-blank h.left (s ++ h.right) h.left_blank
        ∙ trim_start-letters s h.right h.filled h.letters)
    ∙ trim_end-letters s h.right h.letters h.right_blank

start_split : (s : String) → (l : String) × Each IsBlank l × (s ≡ l ++ trim_start s)
unfolding trim_start
start_split String.[] = ("", tt, sym (nil-append ""))
start_split (String.◌∷◌ c s) = elim (Bool-cases (is_whitespace (code c))) [
  | inl white ↦
      let (l, blank, e) = start_split s in
      (
        String.◌∷◌ c l,
        (white, blank),
        rw white (ap (String.◌∷◌ c) e ∙ sym (cons-append c l (trim_start s))),
      )
  | inr bare ↦ ("", tt, rw bare (sym (nil-append (String.◌∷◌ c s))))
]

end_split : (s : String) → (r : String) × Each IsBlank r × (s ≡ trim_end s ++ r)
unfolding trim_end
end_split String.[] = ("", tt, sym (nil-append ""))
end_split (String.◌∷◌ c s) =
    let (r, blank, e) = end_split s in
    elim (Bool-cases (is_empty (trim_end s) && is_whitespace (code c))) [
      | inl gone ↦
          let none_left = empty_eq (trim_end s) (ground arith) in
          let same : s ≡ r = e ∙ ap (λ t. t ++ r) none_left ∙ nil-append r in
          (
            String.◌∷◌ c r,
            (ground arith, blank),
            rw gone (ap (String.◌∷◌ c) same ∙ sym (nil-append (String.◌∷◌ c r))),
          )
      | inr kept ↦ (r, blank, rw kept (ap (String.◌∷◌ c) e ∙ sym (cons-append c (trim_end s) r)))
    ]

trim_split :
    (s : String) → (l r : String) × Each IsBlank l × Each IsBlank r × (s ≡ l ++ (trim s ++ r))
unfolding trim
trim_split s =
    let (l, left_blank, e) = start_split s in
    let (r, right_blank, e') = end_split (trim_start s) in
    (l, r, left_blank, right_blank, e ∙ ap (λ t. l ++ t) e')

-- A value is accepted with this identifier exactly if it is the identifier with white space, or
-- nothing, before it and after it, and the identifier has one character or more, each of them one of
-- the 64 of `alphabet`, which are written out: the letters A to Z and a to z, the digits, `-` and `_`.
pub validate_identifier-Holds :
    (value field identifier : String)
    → (validate_identifier value field ≡ ok identifier) ↔ Holds value identifier
validate_identifier-Holds value field identifier = (
  λ accepted.
      let (is, valid) = (validate_identifier_iff value field identifier).0 accepted in
      let (l, r, left_blank, right_blank, e) = trim_split value in
      record {
        left = l;
        right = r;
        around = e ∙ ap (λ t. l ++ (t ++ r)) (sym is);
        left_blank = left_blank;
        right_blank = right_blank;
        filled = valid.tidy.filled;
        letters = (all_chars_iff identifier).0 valid.chars;
      },
  λ h.
      let is = trim-Holds value identifier h in
      let alone : Holds identifier identifier = record {
        left = "";
        right = "";
        around = sym (nil-append (identifier ++ "") ∙ append-nil identifier);
        left_blank = tt;
        right_blank = tt;
        filled = h.filled;
        letters = h.letters;
      } in
      (validate_identifier_iff value field identifier).1 (
        sym is,
        record {
          tidy = record { trimmed = trim-Holds identifier identifier alone; filled = h.filled };
          chars = (all_chars_iff identifier).1 h.letters;
        },
      ),
)
