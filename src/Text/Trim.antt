-- ===== src/Text/Trim.antt =====
-- `str::trim`.
use Prim.Native.Char.{Char, code}
use cadet.Shared.{String, ◌≡◌, refl, ap, ◌∙◌, false, ◌&&◌, Bool-cases, inl, inr}
use cadet.Text.{is_whitespace, is_empty, trim_start, trim_end, trim}

-- The first character, if there is one, is no white space.
abbrev pub StartsBare : String → Type 0
StartsBare String.[] = Unit
StartsBare (String.◌∷◌ c s) = is_whitespace (code c) ≡ false

-- The last character, if there is one, is no white space.
abbrev pub EndsBare : String → Type 0
EndsBare String.[] = Unit
EndsBare (String.◌∷◌ c String.[]) = is_whitespace (code c) ≡ false
EndsBare (String.◌∷◌ c (String.◌∷◌ d s)) = EndsBare (String.◌∷◌ d s)

trim_start-StartsBare : (s : String) → StartsBare (trim_start s)
unfolding trim_start
trim_start-StartsBare String.[] = tt
trim_start-StartsBare (String.◌∷◌ c s) = elim (Bool-cases (is_whitespace (code c))) [
  | inl white ↦ rw white (trim_start-StartsBare s)
  | inr bare ↦ rw bare bare
]

trim_start-of_StartsBare : (s : String) → StartsBare s → trim_start s ≡ s
unfolding trim_start
trim_start-of_StartsBare String.[] h = refl
trim_start-of_StartsBare (String.◌∷◌ c s) h = rw h

EndsBare-cons :
    (c : Char) (s : String)
    → EndsBare s
    → (is_empty s && is_whitespace (code c)) ≡ false
    → EndsBare (String.◌∷◌ c s)
EndsBare-cons c String.[] h e = e
EndsBare-cons c (String.◌∷◌ d s) h e = h

trim_end-EndsBare : (s : String) → EndsBare (trim_end s)
unfolding trim_end
trim_end-EndsBare String.[] = tt
trim_end-EndsBare (String.◌∷◌ c s) =
    elim (Bool-cases (is_empty (trim_end s) && is_whitespace (code c))) [
      | inl gone ↦ rw gone tt
      | inr kept ↦ rw kept (EndsBare-cons c (trim_end s) (trim_end-EndsBare s) kept)
    ]

trim_end-of_EndsBare : (s : String) → EndsBare s → trim_end s ≡ s
unfolding trim_end
trim_end-of_EndsBare String.[] h = refl
trim_end-of_EndsBare (String.◌∷◌ c String.[]) h = rw h
trim_end-of_EndsBare (String.◌∷◌ c (String.◌∷◌ d s)) h =
    rw (trim_end-of_EndsBare (String.◌∷◌ d s) h)

StartsBare-trim_end : (s : String) → StartsBare s → StartsBare (trim_end s)
unfolding trim_end
StartsBare-trim_end String.[] h = tt
StartsBare-trim_end (String.◌∷◌ c s) h =
    elim (Bool-cases (is_empty (trim_end s) && is_whitespace (code c))) [
      | inl gone ↦ rw gone tt
      | inr kept ↦ rw kept h
    ]

-- A trimmed text has no white space at either end.
pub trim_bare : (s : String) → StartsBare (trim s) × EndsBare (trim s)
unfolding trim
trim_bare s =
    (StartsBare-trim_end (trim_start s) (trim_start-StartsBare s), trim_end-EndsBare (trim_start s))

-- A text with no white space at its ends is left as it is.
pub trim-of_bare : (s : String) → StartsBare s → EndsBare s → trim s ≡ s
unfolding trim
trim-of_bare s h k = ap trim_end (trim_start-of_StartsBare s h) ∙ trim_end-of_EndsBare s k

pub trim-trim : (s : String) → trim (trim s) ≡ trim s
trim-trim s = let bare = trim_bare s in trim-of_bare (trim s) bare.0 bare.1
