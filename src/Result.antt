-- ===== src/Result.antt =====
-- Thrown errors as values: the errors that the modelled code constructs, and any other by its text.
use mathlib.Core.Path.{◌≡◌, refl}
use monster_paws.Prelude.{Text, ◌⊎◌, inl, inr}

pub data Error : Type 0 where
  invalid_slug unknown_source : Text → Error
  unknown_tier : Error
  lacks_name_or_species : Text → Text → Error
  -- `animals.get(animalId)!` of an id that is not there: reading a field of `undefined`
  no_such_animal : Error
  no_normalizer : Text → Error
  -- what code outside the model throws
  thrown : Text → Error

pub data Result {ℓ} (A : Type ℓ) : Type ℓ where
  ok : A → Result A
  err : Error → Result A

-- What follows a call that may throw; `do` stands for it.
infixl 5 ◌>>=◌
abbrev pub ◌>>=◌ {ℓ κ} :
    {Value : Type ℓ} {Next : Type κ} → Result Value → (Value → Result Next) → Result Next
err thrown_error >>= continue_with = err thrown_error
ok returned >>= continue_with = continue_with returned

-- To split on a computed result and keep the equation.
pub Result-cases {ℓ} :
    {A : Type ℓ} (r : Result A) → ((a : A) × (r ≡ ok a)) ⊎ ((e : Error) × (r ≡ err e))
Result-cases (ok a) = inl (a, refl)
Result-cases (err e) = inr (e, refl)

pub ok-injective {ℓ} : {A : Type ℓ} {a b : A} → Path (Result A) (ok a) (ok b) → a ≡ b
ok-injective e = cc

pub err-injective {ℓ} : {A : Type ℓ} {x y : Error} → Path (Result A) (err x) (err y) → x ≡ y
err-injective e = cc
