-- ===== src/Float/Hundredths.antt =====
-- Hundredths from 0 on, and a value that is not a number, for concrete runs: a difference stops at 0,
-- and a product is rounded down.
use Prim.Native.Nat.{◌/◌}
use native.Mathlib.Nat.{mul-le-mul, div-le_of_le-mul}
use cadet.Shared.{
  ℕ, ◌+◌, ◌-◌, nat_eq, if◌then◌else◌, ◌*◌, ◌≤◌, String, Bool, false, ◌≡◌, refl, Option, none, some,
  ltb, leb, arith,
}
use cadet.Float.{Float}

abbrev lt : Option ℕ → Option ℕ → Bool
lt (some x) (some y) = ltb x y
lt _ _ = false

abbrev le : Option ℕ → Option ℕ → Bool
le (some x) (some y) = leb x y
le _ _ = false

abbrev sub : Option ℕ → Option ℕ → Option ℕ
sub (some x) (some y) = some (x - y)
sub _ _ = none

abbrev mul : Option ℕ → Option ℕ → Option ℕ
mul (some x) (some y) = some (x * y / 100)
mul _ _ = none

abbrev add : Option ℕ → Option ℕ → Option ℕ
add (some x) (some y) = some (x + y)
add _ _ = none

abbrev div : Option ℕ → Option ℕ → Option ℕ
div (some x) (some y) = if nat_eq y 0 then none else some (x * 100 / y)
div _ _ = none

abbrev to_nat : Option ℕ → ℕ
to_nat none = 0
to_nat (some x) = x / 100

abbrev display : Option ℕ → String
display none = "NaN"
display (some x) = "hundredths"

pub lt-nan : (x : Option ℕ) → lt x none ≡ false
lt-nan none = refl
lt-nan (some x) = refl

pub one_lt-sub : (x : Option ℕ) → lt (some 100) (sub (some 100) x) ≡ false
one_lt-sub none = refl
one_lt-sub (some x) = ground arith

pub lt_zero : (x : Option ℕ) → lt x (some 0) ≡ false
lt_zero none = refl
lt_zero (some x) = ground arith

pub one_lt-mul :
    (x y : Option ℕ)
    → lt (some 100) x ≡ false
    → lt (some 100) y ≡ false
    → lt (some 100) (mul x y) ≡ false
one_lt-mul none y h k = refl
one_lt-mul (some x) none h k = refl
one_lt-mul (some x) (some y) h k =
    let x_le : x ≤ 100 = ground arith in
    let y_le : y ≤ 100 = ground arith in
    let product : x * y ≤ 100 * 100 = mul-le-mul x_le y_le in
    let quotient : x * y / 100 ≤ 100 = div-le_of_le-mul 100 product in ground arith

abbrev pub hundredths : Float
hundredths = record {
  Carrier = Option ℕ;
  zero = some 0;
  one = some 100;
  nan = none;
  lt = lt;
  le = le;
  sub = sub;
  mul = mul;
  add = add;
  div = div;
  of_nat = λ n. some (n * 100);
  to_nat = to_nat;
  display = display;
  lt-nan = lt-nan;
  nan-lt = λ x. refl;
  one_lt-sub = λ x h. one_lt-sub x;
  sub-lt_zero = λ x h. lt_zero (sub (some 100) x);
  mul-lt_zero = λ x y h k. lt_zero (mul x y);
  one_lt-mul = λ x y h h' k k'. one_lt-mul x y h' k';
}
