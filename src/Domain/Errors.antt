-- ===== src/Domain/Errors.antt =====
-- The errors that the pipeline raises, and computations that may raise one.
use grosh.Prelude.{◌⊎◌, inl, inr, ◌≡◌, refl, Option, none, some}

pub data Error : Type 0 where
  account_not_found key_error rate_source_chain value_error division_by_zero invalid_operation :
      Error
  runtime_error reprocess_error unique_violation : Error

-- What a function returns, or the exception that it raises.
pub data Result {ℓ} (A : Type ℓ) : Type ℓ where
  raise : Error → Result A
  ok : A → Result A

-- `None` turned into an exception.
abbrev pub or_raise {ℓ} : {A : Type ℓ} → Option A → Error → Result A
or_raise (some value) e = ok value
or_raise none e = raise e

-- One call after another; an exception skips the rest.
infixl 5 ◌>>=◌
abbrev pub ◌>>=◌ {ℓ κ} : {A : Type ℓ} {B : Type κ} → Result A → (A → Result B) → Result B
raise e >>= rest = raise e
ok value >>= rest = rest value

-- A bind that returns had a first part that returned, and a rest that returned the same.
module _ {ℓ κ} {A : Type ℓ} {B : Type κ} where
  pub >>=-eq-ok :
      (first : Result A) (rest : A → Result B) {last : B}
      → (first >>= rest ≡ ok last)
      → (value : A) × (first ≡ ok value) × (rest value ≡ ok last)
  >>=-eq-ok (raise e) rest returned = cc
  >>=-eq-ok (ok value) rest returned = (value, refl, returned)

pub ok-injective {ℓ} : {A : Type ℓ} {a b : A} → ok a ≡ ok b → a ≡ b
ok-injective h = cc

pub Result-cases {ℓ} :
    {A : Type ℓ} (r : Result A) → ((e : Error) × (r ≡ raise e)) ⊎ (value : A) × (r ≡ ok value)
Result-cases (raise e) = inl (e, refl)
Result-cases (ok value) = inr (value, refl)
