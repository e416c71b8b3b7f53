-- ===== src/Prompt/Decimal.antt =====
-- How `to_string` writes a number: in decimal. 20 digits are enough for 64 bits.
use Prim.Native.Nat.{◌/◌}
use Prim.Native.String.{◌++◌}
use Prim.Native.Char.{code}
use text.Mathlib.TextLemmas.{cons-append, nil-append}
use cadet.Shared.{
  ℕ, zero, suc, ◌+◌, ◌-◌, ◌*◌, ◌%◌, ◌^◌, ◌<◌, String, Bool, true, false, ◌≡◌, refl, ap, ◌∙◌, ltb,
  nat_eq, if◌then◌else◌, Bool-cases, inl, inr, arith,
}
use cadet.Shared.Int.{ℤ, pos, negsuc}

abbrev pub digit : ℕ → String
digit n =
    if nat_eq n 0
    then "0"
    else if nat_eq n 1
    then "1"
    else if nat_eq n 2
    then "2"
    else if nat_eq n 3
    then "3"
    else if nat_eq n 4
    then "4"
    else if nat_eq n 5
    then "5"
    else if nat_eq n 6
    then "6"
    else if nat_eq n 7
    then "7"
    else if nat_eq n 8
    then "8"
    else "9"

abbrev pub digits : ℕ → ℕ → String
digits zero n = ""
digits (suc fuel) n =
    let high = digits fuel (n / 10) in if ltb n 10 then digit n else high ++ digit (n % 10)

-- A `u64`.
abbrev pub decimal : ℕ → String
decimal n = digits 20 n

-- An `i64`.
abbrev pub decimal_ℤ : ℤ → String
decimal_ℤ (pos n) = decimal n
decimal_ℤ (negsuc n) = "-" ++ decimal (suc n)

-- The number that a text of digits stands for, after some that have been read.
abbrev read : ℕ → String → ℕ
read n String.[] = n
read n (String.◌∷◌ c s) = read (n * 10 + (code c - b'0')) s

read-if :
    (m d : ℕ) (b : Bool) (s t : String)
    → (b ≡ true → read m s ≡ m * 10 + d)
    → (b ≡ false → read m t ≡ m * 10 + d)
    → read m (if b then s else t) ≡ m * 10 + d
read-if m d true s t h k = h refl
read-if m d false s t h k = k refl

read-digit : (m d : ℕ) → d < 10 → read m (digit d) ≡ m * 10 + d
read-digit m d h =
    read-if m d (nat_eq d 0) "0" _ (λ e. ground arith)
      (λ n0.
        read-if m d (nat_eq d 1) "1" _ (λ e. ground arith)
          (λ n1.
            read-if m d (nat_eq d 2) "2" _ (λ e. ground arith)
              (λ n2.
                read-if m d (nat_eq d 3) "3" _ (λ e. ground arith)
                  (λ n3.
                    read-if m d (nat_eq d 4) "4" _ (λ e. ground arith)
                      (λ n4.
                        read-if m d (nat_eq d 5) "5" _ (λ e. ground arith)
                          (λ n5.
                            read-if m d (nat_eq d 6) "6" _ (λ e. ground arith)
                              (λ n6.
                                read-if m d (nat_eq d 7) "7" _ (λ e. ground arith)
                                  (λ n7.
                                    read-if m d (nat_eq d 8) "8" "9" (λ e. ground arith)
                                      (λ n8. ground arith)))))))))

read-append : (m : ℕ) (s t : String) → read m (s ++ t) ≡ read (read m s) t
read-append m String.[] t = ap (read m) (nil-append t)
read-append m (String.◌∷◌ c s) t =
    ap (read m) (cons-append c s t) ∙ read-append (m * 10 + (code c - b'0')) s t

-- 10 ^ fuel
abbrev limit : ℕ → ℕ
limit zero = 1
limit (suc fuel) = 10 * limit fuel

read-digits : (fuel n : ℕ) → n < limit fuel → read 0 (digits fuel n) ≡ n
read-digits zero n h = omega arith
read-digits (suc fuel) n h = elim (Bool-cases (ltb n 10)) [
  | inl last ↦
      rw last (let small : n < 10 = ground arith in let same = read-digit 0 n small in omega arith)
  | inr more ↦ rw more (
      let ih = read-digits fuel (n / 10) (omega arith) in
      let split = read-append 0 (digits fuel (n / 10)) (digit (n % 10)) in
      let low = read-digit (read 0 (digits fuel (n / 10))) (n % 10) (omega arith) in omega arith)
]

-- 20 digits are enough: the text of a `u64` reads back as the number.
pub read-decimal : (n : ℕ) → n < 2 ^ 64 → read 0 (decimal n) ≡ n
read-decimal n h = read-digits 20 n (omega arith)
