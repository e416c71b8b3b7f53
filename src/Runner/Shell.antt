-- ===== src/Runner/Shell.antt =====
-- `shell_escape` of rust/starbridge-runner/src/main.rs, against how a POSIX shell reads a word.
use Prim.Native.Char.{Char, code}
use Prim.Native.String.{◌++◌}
use text.Mathlib.TextEquality.{Char-path}
use text.Mathlib.TextLemmas.{cons-append, nil-append, append_assoc}
use cadet.Shared.{
  ap, ◌∙◌, ℕ, String, ◌≡◌, refl, Bool, true, false, ◌||◌, if◌then◌else◌, nat_eq, Option, none, some,
  Bool-cases, inl, inr, arith,
}

abbrev pub mark : Char
mark = "'"

abbrev pub backslash : Char
backslash = "\\"

abbrev pub space : Char
space = " "

-- `value.replace('\'', "'\\''")`
unfoldable pub quote : String → String
quote String.[] = ""
quote (String.◌∷◌ c s) =
    let rest = quote s in
    if nat_eq (code c) 0x27
    then String.◌∷◌ mark (String.◌∷◌ backslash (String.◌∷◌ mark (String.◌∷◌ mark rest)))
    else String.◌∷◌ c rest

unfoldable pub shell_escape : String → String
unfolding quote
shell_escape value = String.◌∷◌ mark (quote value ++ "'")

-- Outside quotes, between single quotes, and after a backslash.
pub data Mode : Type 0 where
  bare quoted escaped : Mode

-- A character that ends a word, or that the shell reads in another way than as itself.
abbrev pub is_special : ℕ → Bool
is_special c =
    nat_eq c 0x20
    || nat_eq c 0x9
    || nat_eq c 0xa
    || nat_eq c 0x22
    || nat_eq c 0x24
    || nat_eq c 0x26
    || nat_eq c 0x28
    || nat_eq c 0x29
    || nat_eq c 0x2a
    || nat_eq c 0x3b
    || nat_eq c 0x3c
    || nat_eq c 0x3e
    || nat_eq c 0x3f
    || nat_eq c 0x5b
    || nat_eq c 0x60
    || nat_eq c 0x7c

abbrev pub push : Char → Option (String × String) → Option (String × String)
push c none = none
push c (some (word, rest)) = some (String.◌∷◌ c word, rest)

-- The word that a text starts with and what is left behind it, or none if a quote is left open.
unfoldable pub read_word : Mode → String → Option (String × String)
read_word bare String.[] = some ("", "")
read_word quoted String.[] = none
read_word escaped String.[] = none
read_word bare (String.◌∷◌ c s) =
    let within = read_word quoted s in
    let literal = read_word escaped s in
    let plain = read_word bare s in
    if nat_eq (code c) 0x27
    then within
    else if nat_eq (code c) 0x5c
    then literal
    else if is_special (code c)
    then some ("", String.◌∷◌ c s)
    else push c plain
read_word quoted (String.◌∷◌ c s) =
    let after = read_word bare s in
    let within = read_word quoted s in if nat_eq (code c) 0x27 then after else push c within
read_word escaped (String.◌∷◌ c s) = push c (read_word bare s)

is_mark : (c : Char) → nat_eq (code c) 0x27 ≡ true → mark ≡ c
is_mark c h = Char-path mark c (ground arith)

read_word-mark :
    (s : String)
    → read_word quoted
        (String.◌∷◌ mark (String.◌∷◌ backslash (String.◌∷◌ mark (String.◌∷◌ mark s))))
      ≡ push mark (read_word quoted s)
unfolding read_word
read_word-mark s = refl

read_word-other :
    (c : Char) (s : String)
    → nat_eq (code c) 0x27 ≡ false
    → read_word quoted (String.◌∷◌ c s) ≡ push c (read_word quoted s)
unfolding read_word
read_word-other c s h = rw h refl

-- What stands between the quotes is read as the text that was escaped.
read_word-quote :
    (s rest : String)
    → read_word quoted (quote s ++ String.◌∷◌ mark (String.◌∷◌ space rest))
      ≡ some (s, String.◌∷◌ space rest)
unfolding read_word quote
read_word-quote String.[] rest =
    ap (read_word quoted) (nil-append (String.◌∷◌ mark (String.◌∷◌ space rest)))
read_word-quote (String.◌∷◌ c s) rest =
    let tail = String.◌∷◌ mark (String.◌∷◌ space rest) in
    let later = read_word-quote s rest in
    elim (Bool-cases (nat_eq (code c) 0x27)) [
      | inl same ↦
          rw (same, cons-append, cons-append, cons-append, cons-append)
            (read_word-mark (quote s ++ tail)
              ∙ ap (push mark) later
              ∙ ap (λ d. some (String.◌∷◌ d s, String.◌∷◌ space rest)) (is_mark c same))
      | inr other ↦
          rw (other, cons-append) (read_word-other c (quote s ++ tail) other ∙ ap (push c) later)
    ]

-- A shell that reads an escaped text, followed by a space and anything else, takes exactly that text
-- as its word, whatever the text is, and leaves the space and the rest.
pub read_word-shell_escape :
    (s rest : String)
    → read_word bare (shell_escape s ++ String.◌∷◌ space rest) ≡ some (s, String.◌∷◌ space rest)
unfolding shell_escape read_word
read_word-shell_escape s rest =
    rw (cons-append, append_assoc, cons-append, nil-append) (read_word-quote s rest)
