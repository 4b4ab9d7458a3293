-- ===== src/Decode/Typed.antt =====
-- The typing of the instructions that the decoder of src/frontend/instruction.rs returns.
pub mod Operands
pub mod Integer
pub mod Other
pub mod Fields
pub mod Formats
pub mod FloatFormats
pub mod Arms
pub mod Compressed
pub mod Parse
use double_jit_vm.Prelude.{
  ℕ, ◌≡◌, refl, true, false, Bool, Bool-cases, inl, inr, Option, none, some, if◌then◌else◌,
}
use double_jit_vm.Prelude.Outcome.{Outcome, ok, panic, ◌>>=◌, found, or_else, unwrap}
use double_jit_vm.Instr.{Instr, Rv32Instr, Rv64Instr, Rv128Instr}
use double_jit_vm.Instr.Base32.{Rv32I, Rv32E}
use double_jit_vm.Instr.Base64.{Rv64I, Rv64E, Rv128I}
use double_jit_vm.Decode.Config.{Config, rv32i_to_e, rv64i_to_e, rv32, rv64}
use Integer.{IsRv32I, IsRv64I, IsRv128I, IsRv32M, IsRv64M, IsRv32A, IsRv64A}
use Other.{IsRv32F, IsRv32D, IsRv64F, IsRv64D, IsRvb, IsRvPreviledge, IsRvZcsr, IsRvZifencei}

-- An embedded instruction is the copy of one that is typed. No vector instruction is typed.
unfoldable pub IsTyped : Instr → Type 0
unfolding rv32i_to_e rv64i_to_e IsRv32I IsRv64I IsRv128I IsRv32M IsRv64M IsRv32A IsRv64A IsRv32F
    IsRv32D IsRv64F IsRv64D IsRvb IsRvPreviledge IsRvZcsr IsRvZifencei
IsTyped Instr.nop = Unit
IsTyped (Instr.rv32 (Rv32Instr.rv32i i)) = IsRv32I i
IsTyped (Instr.rv32 (Rv32Instr.rv32e e)) = (i : Rv32I) × (rv32i_to_e i ≡ e) × IsRv32I i
IsTyped (Instr.rv32 (Rv32Instr.rv32m i)) = IsRv32M i
IsTyped (Instr.rv32 (Rv32Instr.rv32a i)) = IsRv32A i
IsTyped (Instr.rv32 (Rv32Instr.rv32f i)) = IsRv32F i
IsTyped (Instr.rv32 (Rv32Instr.rv32d i)) = IsRv32D i
IsTyped (Instr.rv32 (Rv32Instr.rvb i)) = IsRvb i
IsTyped (Instr.rv32 (Rv32Instr.rvv _)) = ⊥
IsTyped (Instr.rv32 (Rv32Instr.rvzifencei i)) = IsRvZifencei i
IsTyped (Instr.rv32 (Rv32Instr.rvzcsr i)) = IsRvZcsr i
IsTyped (Instr.rv64 (Rv64Instr.rv64i i)) = IsRv64I i
IsTyped (Instr.rv64 (Rv64Instr.rv64e e)) = (i : Rv64I) × (rv64i_to_e i ≡ e) × IsRv64I i
IsTyped (Instr.rv64 (Rv64Instr.rv64m i)) = IsRv64M i
IsTyped (Instr.rv64 (Rv64Instr.rv64a i)) = IsRv64A i
IsTyped (Instr.rv64 (Rv64Instr.rv64f i)) = IsRv64F i
IsTyped (Instr.rv64 (Rv64Instr.rv64d i)) = IsRv64D i
IsTyped (Instr.rv64 (Rv64Instr.rvb i)) = IsRvb i
IsTyped (Instr.rv64 (Rv64Instr.rv64v _)) = ⊥
IsTyped (Instr.rv64 (Rv64Instr.rvzifencei i)) = IsRvZifencei i
IsTyped (Instr.rv64 (Rv64Instr.rvzcsr i)) = IsRvZcsr i
IsTyped (Instr.rv64 (Rv64Instr.rvpreviledge i)) = IsRvPreviledge i
IsTyped (Instr.rv128 (Rv128Instr.rv128i i)) = IsRv128I i
IsTyped (Instr.rv128 (Rv128Instr.rvv _)) = ⊥
IsTyped (Instr.rv128 (Rv128Instr.rvzifencei i)) = IsRvZifencei i
IsTyped (Instr.rv128 (Rv128Instr.rvzcsr i)) = IsRvZcsr i

-- What is returned, if anything is.
unfoldable pub Returns {ℓ κ} : {A : Type ℓ} → (A → Type κ) → Outcome A → Type κ
Returns P (ok a) = P a
Returns P (panic _) = Unit

-- What is found, if anything is.
unfoldable pub Finds {ℓ κ} : {A : Type ℓ} → (A → Type κ) → Option A → Type κ
Finds P (some a) = P a
Finds P none = Unit

module _ {A : Type 0} (P : A → Type 0) where
  pub either_arm :
      (test : Bool) (x y : Outcome A)
      → Returns P x
      → Returns P y
      → Returns P (if test then x else y)
  either_arm true x y hx hy = hx
  either_arm false x y hx hy = hy

  pub found-Returns : (m : Outcome A) → Returns P m → Returns (Finds P) (found m)
  unfolding Returns Finds
  found-Returns (ok a) h = h
  found-Returns (panic _) h = h

  pub or_else-Returns :
      (m other : Outcome (Option A))
      → Returns (Finds P) m
      → Returns (Finds P) other
      → Returns (Finds P) (or_else m other)
  unfolding Returns Finds
  or_else-Returns (ok (some a)) other h k = h
  or_else-Returns (ok none) other h k = k
  or_else-Returns (panic _) other h k = h

  pub unwrap-Returns : (m : Outcome (Option A)) → Returns (Finds P) m → Returns P (m >>= unwrap)
  unfolding Returns Finds
  unwrap-Returns (ok (some a)) h = h
  unwrap-Returns (ok none) h = h
  unwrap-Returns (panic _) h = h

  pub step-Returns :
      {B : Type 0} (m : Outcome B) (k : B → A)
      → ((b : B) → P (k b))
      → Returns P (m >>= λ b. ok (k b))
  unfolding Returns
  step-Returns (ok b) k h = h b
  step-Returns (panic _) k h = tt

  pub none-Finds : Returns (Finds P) (ok none)
  unfolding Returns Finds
  none-Finds = tt

-- With `IS_E` or without, the wrapper of a base variant keeps its operands.
pub rv32-IsTyped : (cfg : Config) (i : Rv32I) → IsRv32I i → IsTyped (rv32 cfg i)
unfolding rv32 IsTyped
rv32-IsTyped cfg i h = elim (Bool-cases cfg.is_e) [ inl e ↦ rw (e) (i, refl, h) | inr e ↦ rw (e) h ]

pub rv64-IsTyped : (cfg : Config) (i : Rv64I) → IsRv64I i → IsTyped (rv64 cfg i)
unfolding rv64 IsTyped
rv64-IsTyped cfg i h = elim (Bool-cases cfg.is_e) [ inl e ↦ rw (e) (i, refl, h) | inr e ↦ rw (e) h ]
