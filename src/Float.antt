-- ===== src/Float.antt =====
-- The floating-point numbers of Rust, as an interface: what the sources use of `f32` and `f64`, and
-- what IEEE 754 says of it. A value that is not a number is neither below nor above anything.
pub mod Hundredths
use cadet.Shared.{ℕ, String, Bool, false, ◌≡◌}

pub record Float : Type 1 where
  pub Carrier : Type 0
  pub zero : Carrier
  pub one : Carrier
  pub nan : Carrier
  -- `x < y`, and `x <= y`
  pub lt : Carrier → Carrier → Bool
  pub le : Carrier → Carrier → Bool
  pub sub : Carrier → Carrier → Carrier
  pub mul : Carrier → Carrier → Carrier
  pub add : Carrier → Carrier → Carrier
  pub div : Carrier → Carrier → Carrier
  -- `n as f32`, and `x as usize`, which is 0 for what is not a number.
  pub of_nat : ℕ → Carrier
  pub to_nat : Carrier → ℕ
  -- What `format!("{x}")` writes.
  pub display : Carrier → String
  pub lt-nan : (x : Carrier) → lt x nan ≡ false
  pub nan-lt : (x : Carrier) → lt nan x ≡ false
  -- Rounding is monotone, and 0 and 1 are exact.
  pub one_lt-sub : (x : Carrier) → lt x zero ≡ false → lt one (sub one x) ≡ false
  pub sub-lt_zero : (x : Carrier) → lt one x ≡ false → lt (sub one x) zero ≡ false
  pub mul-lt_zero :
      (x y : Carrier) → lt x zero ≡ false → lt y zero ≡ false → lt (mul x y) zero ≡ false
  pub one_lt-mul :
      (x y : Carrier)
      → lt x zero ≡ false
      → lt one x ≡ false
      → lt y zero ≡ false
      → lt one y ≡ false
      → lt one (mul x y) ≡ false
