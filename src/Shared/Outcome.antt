-- ===== src/Shared/Outcome.antt =====
-- How a reducer ends: with a value, with `Err(message)`, or in a panic of the host.
-- The host runs a reducer as one transaction and discards its writes on an error or a panic, so
-- these two carry no state.
use Prim.Native.String.{String}
use mathlib.Core.Path.{◌≡◌, refl}
use mathlib.Core.Bool.{Bool, true, false}
use mathlib.Core.Option.{Option, none, some}

pub data Result {ℓ} (A : Type ℓ) : Type ℓ where
  ok : A → Result A
  err : String → Result A
  panicked : Result A

-- Rust's `?` on a result.
infixl 5 ◌>>=◌ ◌>>◌
unfoldable pub ◌>>=◌ {ℓ κ} : {A : Type ℓ} {B : Type κ} → Result A → (A → Result B) → Result B
ok a >>= f = f a
err e >>= f = err e
panicked >>= f = panicked

abbrev pub ◌>>◌ {ℓ} : {B : Type ℓ} → Result (Unit {0}) → Result B → Result B
m >> k = m >>= λ _. k

-- `if test { return Err(message) }`
abbrev pub refuse_if : Bool → String → Result (Unit {0})
refuse_if true message = err message
refuse_if false message = ok tt

-- `let Some(a) = o else { return Err(message) }`
abbrev pub or_err {ℓ} : {A : Type ℓ} → Option A → String → Result A
or_err none message = err message
or_err (some a) message = ok a

-- A postcondition of the value, if there is one.
pub record Ensures {ℓ κ} {A : Type ℓ} (Q : A → Type κ) (r : Result A) : Type (ℓ ⊔ κ) where
  pub at : (a : A) → r ≡ ok a → Q a

module _ {ℓ κ} {A : Type ℓ} {Q : A → Type κ} where
  pub Ensures-ok : {a : A} → Q a → Ensures Q (ok a)
  Ensures-ok {a} q = record { at = λ b e. let p : a ≡ b = cc in rw (← p) q }

  pub Ensures-err : {message : String} → Ensures Q (err message)
  Ensures-err = record { at = λ b e. cc }

  pub Ensures-panicked : Ensures Q panicked
  Ensures-panicked = record { at = λ b e. cc }

module _ {ℓ κ μ} {A : Type ℓ} {B : Type κ} {Q : B → Type μ} where
  pub Ensures-bind :
      {r : Result A} {f : A → Result B}
      → ((a : A) → r ≡ ok a → Ensures Q (f a))
      → Ensures Q (r >>= f)
  unfolding ◌>>=◌
  Ensures-bind {r = ok a} h = h a refl
  Ensures-bind {r = err e} h = Ensures-err
  Ensures-bind {r = panicked} h = Ensures-panicked

  -- A first part with a postcondition of its own.
  pub Ensures-nest :
      {r : Result A} {f : A → Result B} → Ensures (λ a. Ensures Q (f a)) r → Ensures Q (r >>= f)
  Ensures-nest h = Ensures-bind h.at

-- A step of a `do` block that ended well was itself well.
pub >>=-eq-ok {ℓ κ} :
    {A : Type ℓ} {B : Type κ} (r : Result A) (f : A → Result B) {b : B}
    → (r >>= f) ≡ ok b
    → (a : A) × (r ≡ ok a) × (f a ≡ ok b)
unfolding ◌>>=◌
>>=-eq-ok (ok a) f h = (a, refl, h)
>>=-eq-ok (err e) f h = cc
>>=-eq-ok panicked f h = cc

pub or_err-eq-ok {ℓ} :
    {A : Type ℓ} (o : Option A) (message : String) {a : A} → or_err o message ≡ ok a → o ≡ some a
or_err-eq-ok none message h = cc
or_err-eq-ok (some a) message h = cc

pub refuse_if-eq-ok :
    (b : Bool) (message : String) {u : Unit {0}} → refuse_if b message ≡ ok u → b ≡ false
refuse_if-eq-ok true message h = cc
refuse_if-eq-ok false message h = refl
