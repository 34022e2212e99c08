-- ===== src/Prelude/Results.antt =====
-- Go's `(value, error)` results; a panic is an error of the model's where the code may panic.
use mathlib.Core.Path.{◌≡◌, refl}
use mathlib.Core.Bool.{Bool, true, false}
use mathlib.Core.Option.{Option, none, some}
use mathlib.Core.Logic.{◌⊎◌, inl, inr}

pub data Result {ℓ κ} (E : Type κ) (A : Type ℓ) : Type (ℓ ⊔ κ) where
  ok : A → Result E A
  err : E → Result E A

module _ {ℓ κ ν} {E : Type κ} {A : Type ℓ} {B : Type ν} where
  infixl 5 ◌>>=◌
  abbrev pub ◌>>=◌ : Result E A → (A → Result E B) → Result E B
  ok a >>= f = f a
  err e >>= f = err e

  -- Inversion of a bind that succeeds.
  pub >>=-eq-ok :
      (first : Result E A) (next : A → Result E B) {y : B}
      → (first >>= next) ≡ ok y
      → (x : A) × (first ≡ ok x) × (next x ≡ ok y)
  >>=-eq-ok (ok x) next done = (x, refl, done)
  >>=-eq-ok (err e) next done = cc

module _ {κ ν} {E : Type κ} {B : Type ν} where
  infixl 5 ◌>>◌
  abbrev pub ◌>>◌ : Result E (Unit {0}) → Result E B → Result E B
  m >> k = m >>= λ _. k

-- `if !b { return e }`
abbrev pub check {κ} : {E : Type κ} → Bool → E → Result E (Unit {0})
check true e = ok tt
check false e = err e

module _ {κ ν} {E : Type κ} {B : Type ν} where
  -- A guarded step that succeeds has passed its guard.
  pub check-eq-ok :
      (b : Bool) (e : E) (r : Result E B) {x : B}
      → (check b e >> r) ≡ ok x
      → (b ≡ true) × (r ≡ ok x)
  check-eq-ok true e r h = (refl, h)
  check-eq-ok false e r h = cc

abbrev pub from_option {ℓ κ} : {E : Type κ} {A : Type ℓ} → E → Option A → Result E A
from_option e none = err e
from_option e (some a) = ok a

pub Result-cases {ℓ κ} :
    {E : Type κ} {A : Type ℓ} (r : Result E A) → ((a : A) × (r ≡ ok a)) ⊎ ((e : E) × (r ≡ err e))
Result-cases (ok a) = inl (a, refl)
Result-cases (err e) = inr (e, refl)
