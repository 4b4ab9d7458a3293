-- ===== src/Prelude/Outcome.antt =====
-- What a Rust call comes to: a value, or a panic with its cause.
use mathlib.Core.Path.{◌≡◌, refl}
use mathlib.Core.Logic.{◌⊎◌, inl, inr}
use mathlib.Core.Option.{Option, none, some}

-- The panics that the modelled code can raise, one constructor for each call that raises them.
pub data Panic : Type 0 where
  unwrap_none : Panic
  unwrap_err : Panic
  wrong_rounding_mode : Panic
  inaccessible_register : Panic
  out_of_range : Panic
  arithmetic_overflow : Panic
  assertion_failed : Panic
  not_implemented : Panic
  invalid_segment : Panic
  unreachable_code : Panic

pub data Outcome {ℓ} (A : Type ℓ) : Type ℓ where
  ok : A → Outcome A
  panic : Panic → Outcome A

infixl 5 ◌>>=◌ ◌>>◌
abbrev pub ◌>>=◌ {ℓ κ} : {A : Type ℓ} {B : Type κ} → Outcome A → (A → Outcome B) → Outcome B
ok a >>= f = f a
panic p >>= f = panic p

abbrev pub ◌>>◌ {ℓ} : {B : Type ℓ} → Outcome (Unit {0}) → Outcome B → Outcome B
m >> k = m >>= λ _. k

-- `Some(e)` where evaluating `e` may panic.
abbrev pub found {ℓ} : {A : Type ℓ} → Outcome A → Outcome (Option A)
found (ok a) = ok (some a)
found (panic p) = panic p

-- `if let Some(inst) = inst { Some(inst) } else { other }`.
abbrev pub or_else {ℓ} : {A : Type ℓ} → Outcome (Option A) → Outcome (Option A) → Outcome (Option A)
or_else (ok (some a)) other = ok (some a)
or_else (ok none) other = other
or_else (panic p) other = panic p

-- `Option::unwrap`.
abbrev pub unwrap {ℓ} : {A : Type ℓ} → Option A → Outcome A
unwrap (some a) = ok a
unwrap none = panic unwrap_none

-- To split on a computed outcome and keep the equation.
pub Outcome-cases {ℓ} :
    {A : Type ℓ} (m : Outcome A) → ((a : A) × (m ≡ ok a)) ⊎ ((p : Panic) × (m ≡ panic p))
Outcome-cases (ok a) = inl (a, refl)
Outcome-cases (panic p) = inr (p, refl)

-- A chain that ends well: its first step did, and so did the rest on what that step gave.
pub >>=-eq-ok {ℓ κ} :
    {A : Type ℓ} {B : Type κ} {b : B} (first : Outcome A) (rest : A → Outcome B)
    (h : (first >>= rest) ≡ ok b)
    → (a : A) × (first ≡ ok a) × (rest a ≡ ok b)
>>=-eq-ok (panic p) rest h = cc
>>=-eq-ok (ok a) rest h = (a, refl, h)
