-- ===== src/Common/Results.antt =====
-- `Result<T>` of utils/result.h is an `outcome::result<T, std::error_code>`. A call can also leave
-- by an exception, or run into undefined behaviour: both are values of the model.
use Prim.Native.Nat.{ℕ}
use mathlib.Core.Path.{◌≡◌, refl, subst}

-- The error categories that the program declares; `library` stands for all the others.
pub data Category : Type 0 where
  unhex_category spec_category service_category module_category : Category
  protocol_category conversion_category library : Category

-- A `std::error_code`.
pub record ErrorCode : Type 0 where
  pub category : Category
  pub value : ℕ

pub data Outcome {ℓ} (A : Type ℓ) : Type ℓ where
  ok : A → Outcome A
  err : ErrorCode → Outcome A
  thrown : Outcome A
  fault : Outcome A

-- `OUTCOME_TRY`, and the propagation of exceptions.
infixl 5 ◌>>=◌
unfoldable pub ◌>>=◌ {ℓ κ} : {A : Type ℓ} {B : Type κ} → Outcome A → (A → Outcome B) → Outcome B
ok a >>= f = f a
err e >>= f = err e
thrown >>= f = thrown
fault >>= f = fault

-- A chain succeeds only if its first step does.
pub bind_ok {ℓ κ} :
    {A : Type ℓ} {B : Type κ} (f : A → Outcome B) (first : Outcome A) (b : B)
    → (first >>= f) ≡ ok b
    → (a : A) × (f a ≡ ok b) × (first ≡ ok a)
unfolding ◌>>=◌
bind_ok f fault b e = cc
bind_ok f thrown b e = cc
bind_ok f (err c) b e = cc
bind_ok f (ok x) b e = (x, e, refl)

pub ok-injective {ℓ} : {A : Type ℓ} {a b : A} → ok a ≡ ok b → a ≡ b
ok-injective e = cc

-- A statement about the value of a call, if it returns one.
pub record Ensures {ℓ κ} {A : Type ℓ} (P : A → Type κ) (r : Outcome A) : Type (ℓ ⊔ κ) where
  pub at : (a : A) → r ≡ ok a → P a

pub Ensures-ok {ℓ κ} : {A : Type ℓ} {P : A → Type κ} {a : A} → P a → Ensures P (ok a)
Ensures-ok {P = P} h = record { at = λ b e. subst P (ok-injective e) h }

pub Ensures-bind {ℓ κ ν} :
    {A : Type ℓ} {B : Type κ} {P : B → Type ν} {first : Outcome A} {f : A → Outcome B}
    → ((a : A) → first ≡ ok a → Ensures P (f a))
    → Ensures P (first >>= f)
Ensures-bind {first = first} {f = f} h = record {
  at = λ b e. let (a, more, done) = bind_ok f first b e in (h a done).at b more;
}

-- The call returned, with or without an error.
abbrev pub Returns : {A : Type 0} → Outcome A → Type 0
Returns (ok a) = Unit {0}
Returns (err e) = Unit {0}
Returns thrown = ⊥
Returns fault = ⊥
