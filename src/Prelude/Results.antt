-- ===== src/Prelude/Results.antt =====
-- Results of fallible operations, over any type of errors.
use mathlib.Core.Path.{◌≡◌, refl}
use mathlib.Core.Bool.{Bool, true, false}

pub data Result {ℓ κ} (E : Type κ) (A : Type ℓ) : Type (ℓ ⊔ κ) where
  err : E → Result E A
  ok : A → Result E A

-- `if not test: raise e`
abbrev pub guard {κ} : {E : Type κ} → Bool → E → Result E (Unit {0})
guard false why = err why
guard true why = ok tt

module _ {ℓ κ μ} {E : Type κ} {A : Type ℓ} {B : Type μ} where
  infixl 5 ◌>>=◌
  abbrev pub ◌>>=◌ : Result E A → (A → Result E B) → Result E B
  err why >>= rest = err why
  ok value >>= rest = rest value

  -- What a successful chain of two steps went through.
  pub ok_of_bind :
      (step : Result E A) (rest : A → Result E B) {last : B}
      → (step >>= rest) ≡ ok last
      → (value : A) × (step ≡ ok value) × (rest value ≡ ok last)
  ok_of_bind (err why) rest h = cc
  ok_of_bind (ok value) rest h = (value, refl, h)

infixl 5 ◌>>◌
abbrev pub ◌>>◌ {ℓ κ} : {E : Type κ} {B : Type ℓ} → Result E (Unit {0}) → Result E B → Result E B
first_step >> last_step = first_step >>= λ _. last_step

-- What a successful chain that starts with a guard says of the guard.
pub guard_passed {ℓ κ} :
    {E : Type κ} {B : Type ℓ} (test : Bool) (why : E) {rest : Result E B} {last : B}
    → (guard test why >> rest) ≡ ok last
    → (test ≡ true) × (rest ≡ ok last)
guard_passed true why h = (refl, h)
guard_passed false why h = cc

pub ok_injective {ℓ κ} :
    {E : Type κ} {A : Type ℓ} {x y : A} → ◌≡◌ {A = Result E A} (ok x) (ok y) → x ≡ y
ok_injective h = cc

abbrev pub is_ok {ℓ κ} : {E : Type κ} {A : Type ℓ} → Result E A → Bool
is_ok (ok value) = true
is_ok (err why) = false
