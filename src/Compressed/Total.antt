-- ===== src/Compressed/Total.antt =====
-- `try_from_compressed` of src/frontend/instruction.rs always returns.
use Prim.Native.Nat.{bit_and}
use double_jit_vm.Prelude.{
  ◌==◌, Bool-cases, inl, inr, ℕ, ◌≡◌, refl, Bool, true, false, Option, if◌then◌else◌, arith,
}
use double_jit_vm.Prelude.Outcome.{Outcome, ok}
use double_jit_vm.Field.Compressed.Laws.{jr_key_lem}
use double_jit_vm.Instr.{Instr}
use double_jit_vm.Compressed.{compressed_arms, try_from_compressed}
use double_jit_vm.Compressed.Quadrants.{c_jr_mv_add_arm}
use double_jit_vm.Decode.Config.{Config}

data IsReturned {ℓ} {A : Type ℓ} : Outcome A → Type ℓ where
  returned : (a : A) → IsReturned (ok a)

either_arm {ℓ} :
    {A : Type ℓ}
    → (test : Bool) (x y : Outcome A) → IsReturned x
    → IsReturned y
    → IsReturned (if test then x else y)
either_arm true x y hx hy = hx
either_arm false x y hx hy = hy

-- One bit tells the two cases apart: the third arm, `unreachable!`, is dead.
c_jr_mv_add_arm-IsReturned : (cfg : Config) (w : ℕ) → IsReturned (c_jr_mv_add_arm cfg w)
unfolding c_jr_mv_add_arm
c_jr_mv_add_arm-IsReturned cfg w =
    let key = jr_key_lem w in
    elim (Bool-cases (bit_and w 0b1_00000_00000_00 == 0)) [
      | inl zero_ ↦ rw (zero_) (returned _)
      | inr one ↦
          let high : (bit_and w 0b1_00000_00000_00 == 4096) ≡ true = ground (arith, key, one) in
          rw (one, high) (returned _)
    ]

compressed_arms-IsReturned : (cfg : Config) (key w : ℕ) → IsReturned (compressed_arms cfg key w)
unfolding compressed_arms
compressed_arms-IsReturned cfg key w =
    search (either_arm, returned, c_jr_mv_add_arm-IsReturned) depth 60 fits 5000

value_of : (m : Outcome (Option Instr)) → IsReturned m → (found : Option Instr) × (m ≡ ok found)
value_of _ (returned a) = (a, refl)

-- The compressed decoder panics on no word: it finds an instruction, or leaves the word to the
-- 32-bit decoder.
pub try_from_compressed-total :
    (cfg : Config) (bit_u32 : ℕ)
    → (found : Option Instr) × (try_from_compressed cfg bit_u32 ≡ ok found)
unfolding try_from_compressed
try_from_compressed-total cfg bit_u32 =
    value_of (try_from_compressed cfg bit_u32) (compressed_arms-IsReturned cfg _ bit_u32)
