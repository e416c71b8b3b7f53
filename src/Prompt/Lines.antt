-- ===== src/Prompt/Lines.antt =====
-- The line breaks of `encode_table` in rust/starbridge-core/src/context_engine.rs.
use Prim.Native.Char.{code}
use Prim.Native.Nat.{◌/◌}
use Prim.Native.String.{◌++◌}
use cadet.Shared.{
  ℕ, zero, suc, true, false, ◌+◌, ◌%◌, String, ◌≡◌, refl, Bool, ltb, nat_eq, if◌then◌else◌, List,
  [], ◌∷◌, arith, Bool-cases, inl, inr,
}
use cadet.Prompt.Decimal.{digit, digits, decimal}
use cadet.Prompt.Toon.{
  escape, quoted, join, cell, cells, needs_cell_quoting, row_lines, length, encode_table,
}
use cadet.Prompt.Budget.{weigh}
use cadet.Prompt.Fits.{weigh-append}

abbrev break_weight : ℕ → ℕ
break_weight c = if nat_eq c 0xa then 1 else 0

-- How many line breaks a text has.
abbrev pub breaks : String → ℕ
breaks s = weigh break_weight s

abbrev pub breaks_all : List String → ℕ
breaks_all [] = 0
breaks_all (s ∷ texts) = breaks s + breaks_all texts

abbrev pub breaks_rows : List (List String) → ℕ
breaks_rows [] = 0
breaks_rows (row ∷ rows) = breaks_all row + breaks_rows rows

breaks-append : (s t : String) → breaks (s ++ t) ≡ breaks s + breaks t
breaks-append s t = weigh-append break_weight s t

breaks-escape : (s : String) → breaks (escape s) ≡ breaks s
unfolding escape
breaks-escape String.[] = refl
breaks-escape (String.◌∷◌ c s) = elim (Bool-cases (nat_eq (code c) 0x22)) [
  | inl is_quote ↦
      rw is_quote
        (let split = breaks-append "\\\"" (escape s) in let ih = breaks-escape s in ground arith)
  | inr other ↦ rw other (ground (arith, breaks-escape s))
]

breaks-quoted : (s : String) → breaks (quoted s) ≡ breaks s
breaks-quoted s =
    let outer = breaks-append "\"" (escape s ++ "\"") in
    let inner = breaks-append (escape s) "\"" in let same = breaks-escape s in omega arith

breaks-cell : (s : String) → breaks (cell s) ≡ breaks s
breaks-cell s = elim (Bool-cases (needs_cell_quoting s)) [
  | inl quotes ↦ rw quotes (breaks-quoted s)
  | inr plain ↦ rw plain refl
]

breaks-if :
    (b : Bool) (s t : String) → breaks s ≡ 0 → breaks t ≡ 0 → breaks (if b then s else t) ≡ 0
breaks-if true s t h k = h
breaks-if false s t h k = k

breaks-digit : (n : ℕ) → breaks (digit n) ≡ 0
breaks-digit n = breaks-if (nat_eq n 0) "0" _ refl (
    breaks-if (nat_eq n 1) "1" _ refl (
      breaks-if (nat_eq n 2) "2" _ refl (
        breaks-if (nat_eq n 3) "3" _ refl (
          breaks-if (nat_eq n 4) "4" _ refl (
            breaks-if (nat_eq n 5) "5" _ refl (
              breaks-if (nat_eq n 6) "6" _ refl
                (breaks-if (nat_eq n 7) "7" _ refl (breaks-if (nat_eq n 8) "8" "9" refl refl))))))))

breaks-digits : (fuel n : ℕ) → breaks (digits fuel n) ≡ 0
breaks-digits zero n = refl
breaks-digits (suc fuel) n =
    let high = digits fuel (n / 10) in
    elim (Bool-cases (ltb n 10)) [
      | inl last ↦ rw last (breaks-digit n)
      | inr more ↦ rw more (
          let split = breaks-append high (digit (n % 10)) in
          let ih = breaks-digits fuel (n / 10) in let low = breaks-digit (n % 10) in omega arith)
    ]

breaks-join : (parts : List String) → breaks (join "," parts) ≡ breaks_all parts
breaks-join [] = refl
breaks-join (part ∷ []) = omega arith
breaks-join (part ∷ (next ∷ parts)) =
    let rest = join "," (next ∷ parts) in
    let outer = breaks-append part ("," ++ rest) in
    let inner = breaks-append "," rest in let ih = breaks-join (next ∷ parts) in omega arith

breaks-cells : (row : List String) → breaks_all (cells row) ≡ breaks_all row
breaks-cells [] = refl
breaks-cells (s ∷ row) = let same = breaks-cell s in let ih = breaks-cells row in omega arith

breaks-row_lines :
    (rows : List (List String)) → breaks (row_lines rows) ≡ length rows + breaks_rows rows
breaks-row_lines [] = refl
breaks-row_lines (row ∷ rows) =
    let line = join "," (cells row) in
    let rest = row_lines rows in
    let a = breaks-append "  " (line ++ "\n" ++ rest) in
    let b = breaks-append line ("\n" ++ rest) in
    let c = breaks-append "\n" rest in
    let joined = breaks-join (cells row) in
    let same = breaks-cells row in let ih = breaks-row_lines rows in omega arith

-- A table has a line for its head and one for each row, and every line break in the key, in a name of
-- a field or in a value besides: a value is quoted or not, and its line breaks stay as they are.
pub breaks-encode_table :
    (key : String) (fields : List String) (rows : List (List String))
    → breaks (encode_table key fields rows)
      ≡ suc (length rows) + (breaks key + breaks_all fields + breaks_rows rows)
unfolding encode_table
breaks-encode_table key fields rows =
    let count = decimal (length rows) in
    let names = join "," fields in
    let lines = row_lines rows in
    let a = breaks-append key ("[" ++ count ++ "]{" ++ names ++ "}:\n" ++ lines) in
    let b = breaks-append "[" (count ++ "]{" ++ names ++ "}:\n" ++ lines) in
    let c = breaks-append count ("]{" ++ names ++ "}:\n" ++ lines) in
    let d = breaks-append "]{" (names ++ "}:\n" ++ lines) in
    let e = breaks-append names ("}:\n" ++ lines) in
    let f = breaks-append "}:\n" lines in
    let no_break = breaks-digits 20 (length rows) in
    let joined = breaks-join fields in let rest = breaks-row_lines rows in omega arith
