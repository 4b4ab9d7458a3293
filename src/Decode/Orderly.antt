-- ===== src/Decode/Orderly.antt =====
-- How the decoder of src/frontend/instruction.rs can end: with a value, or by one of two panics.
pub mod Formats
pub mod Arms
pub mod Parse
use double_jit_vm.Prelude.{Bool, true, false, Option, none, some, if◌then◌else◌}
use double_jit_vm.Prelude.Outcome.{
  Outcome, ok, panic, ◌>>=◌, found, or_else, unwrap, unwrap_none, wrong_rounding_mode,
}

-- No other panic of the model is an end.
pub data IsOrderly {ℓ} {A : Type ℓ} : Outcome A → Type ℓ where
  returns : (a : A) → IsOrderly (ok a)
  no_arm : IsOrderly (panic unwrap_none)
  bad_mode : IsOrderly (panic wrong_rounding_mode)

module _ {ℓ} {A : Type ℓ} where
  pub either_arm :
      (test : Bool) (x y : Outcome A)
      → IsOrderly x
      → IsOrderly y
      → IsOrderly (if test then x else y)
  either_arm true x y hx hy = hx
  either_arm false x y hx hy = hy

  pub found-IsOrderly : (m : Outcome A) → IsOrderly m → IsOrderly (found m)
  found-IsOrderly _ (returns a) = returns (some a)
  found-IsOrderly _ no_arm = no_arm
  found-IsOrderly _ bad_mode = bad_mode

  pub or_else-IsOrderly :
      (m other : Outcome (Option A)) → IsOrderly m → IsOrderly other → IsOrderly (or_else m other)
  or_else-IsOrderly _ other (returns (some a)) h = returns (some a)
  or_else-IsOrderly _ other (returns none) h = h
  or_else-IsOrderly _ other no_arm h = no_arm
  or_else-IsOrderly _ other bad_mode h = bad_mode

  pub unwrap-IsOrderly : (m : Outcome (Option A)) → IsOrderly m → IsOrderly (m >>= unwrap)
  unwrap-IsOrderly _ (returns (some a)) = returns a
  unwrap-IsOrderly _ (returns none) = no_arm
  unwrap-IsOrderly _ no_arm = no_arm
  unwrap-IsOrderly _ bad_mode = bad_mode

  pub step-IsOrderly :
      {B : Type 0} → (m : Outcome B) (k : B → A) → IsOrderly m → IsOrderly (m >>= λ b. ok (k b))
  step-IsOrderly _ k (returns b) = returns (k b)
  step-IsOrderly _ k no_arm = no_arm
  step-IsOrderly _ k bad_mode = bad_mode
