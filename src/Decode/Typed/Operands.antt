-- ===== src/Decode/Typed/Operands.antt =====
-- What the operand types of src/frontend/instruction.rs mean, which Rust does not check: the register
-- file and the range of each register, and the width of each number.
use double_jit_vm.Prelude.{ℕ, ◌<◌, ◌^◌}
use double_jit_vm.Instr.Operand.{
  Xx, Reg, Rd, Rs, Rs1, Rs2, Rs3, Shamt, FenceFm, FencePred, FenceSucc, Imm32, CsrAddr, UImm,
}

pub data File : Type 0 where
  integer float : File

-- A register of the file, by a number below 32.
unfoldable pub IsIn : File → Reg → Type 0
IsIn File.integer (Reg.x (Xx.xx n)) = n < 32
IsIn File.float (Reg.f (Xx.xx n)) = n < 32
IsIn _ _ = ⊥

unfoldable pub RdIsIn : File → Rd → Type 0
unfolding IsIn
RdIsIn file (Rd.reg r) = IsIn file r

unfoldable pub RsIsIn : File → Rs → Type 0
unfolding IsIn
RsIsIn file (Rs.reg r) = IsIn file r

unfoldable pub Rs1IsIn : File → Rs1 → Type 0
unfolding IsIn
Rs1IsIn file (Rs1.reg r) = IsIn file r

unfoldable pub Rs2IsIn : File → Rs2 → Type 0
unfolding IsIn
Rs2IsIn file (Rs2.reg r) = IsIn file r

unfoldable pub Rs3IsIn : File → Rs3 → Type 0
unfolding IsIn
Rs3IsIn file (Rs3.reg r) = IsIn file r

-- An immediate is a `u32`, whatever part of it is meant.
unfoldable pub ImmFits : {high_bit low_bit : ℕ} → Imm32 high_bit low_bit → Type 0
ImmFits (Imm32.imm value) = value < 2 ^ 32

-- A shift amount of a 64-bit register.
unfoldable pub ShamtFits : Shamt → Type 0
ShamtFits (Shamt.amount n) = n < 64

unfoldable pub CsrFits : CsrAddr → Type 0
unfolding ImmFits
CsrFits (CsrAddr.addr i) = ImmFits i

-- The immediate of five bits of the control-register instructions.
unfoldable pub UImmFits : UImm → Type 0
UImmFits (UImm.value (Imm32.imm n)) = n < 32

-- The three fields of `FENCE`, of four bits each.
unfoldable pub FenceFits : FenceSucc → FencePred → FenceFm → Type 0
FenceFits (FenceSucc.bits (Xx.xx s)) (FencePred.bits (Xx.xx p)) (FenceFm.bits (Xx.xx m)) =
    (s < 16) × (p < 16) × (m < 16)

-- The operands of an instruction, by its form: the destination and the sources may lie in different
-- files.
unfoldable pub RegTyped : File → File → Rd → Rs1 → Rs2 → Type 0
unfolding RdIsIn Rs1IsIn Rs2IsIn
RegTyped dst src d a b = RdIsIn dst d × Rs1IsIn src a × Rs2IsIn src b

unfoldable pub MoveTyped : File → File → Rd → Rs1 → Type 0
unfolding RdIsIn Rs1IsIn
MoveTyped dst src d a = RdIsIn dst d × Rs1IsIn src a

unfoldable pub FmaTyped : Rd → Rs1 → Rs2 → Rs3 → Type 0
unfolding RdIsIn Rs1IsIn Rs2IsIn Rs3IsIn
FmaTyped d a b c =
    RdIsIn File.float d × Rs1IsIn File.float a × Rs2IsIn File.float b × Rs3IsIn File.float c

-- The forms over integer registers only.
unfoldable pub UnaryTyped : Rd → Rs → Type 0
unfolding RdIsIn RsIsIn
UnaryTyped d a = RdIsIn File.integer d × RsIsIn File.integer a

unfoldable pub PairTyped : Rs1 → Rs2 → Type 0
unfolding Rs1IsIn Rs2IsIn
PairTyped a b = Rs1IsIn File.integer a × Rs2IsIn File.integer b

unfoldable pub ShiftTyped : Rd → Rs1 → Shamt → Type 0
unfolding RdIsIn Rs1IsIn ShamtFits
ShiftTyped d a n = RdIsIn File.integer d × Rs1IsIn File.integer a × ShamtFits n

unfoldable pub FenceTyped : Rd → Rs1 → FenceSucc → FencePred → FenceFm → Type 0
unfolding RdIsIn Rs1IsIn FenceFits
FenceTyped d a s p m = RdIsIn File.integer d × Rs1IsIn File.integer a × FenceFits s p m

unfoldable pub CsrTyped : Rd → Rs1 → CsrAddr → Type 0
unfolding RdIsIn Rs1IsIn CsrFits
CsrTyped d a c = RdIsIn File.integer d × Rs1IsIn File.integer a × CsrFits c

unfoldable pub CsrImmTyped : Rd → UImm → CsrAddr → Type 0
unfolding RdIsIn UImmFits CsrFits
CsrImmTyped d u c = RdIsIn File.integer d × UImmFits u × CsrFits c

module _ {high_bit low_bit : ℕ} where
  unfoldable pub UpperTyped : Rd → Imm32 high_bit low_bit → Type 0
  unfolding RdIsIn ImmFits
  UpperTyped d i = RdIsIn File.integer d × ImmFits i

  unfoldable pub ImmTyped : Rd → Rs1 → Imm32 high_bit low_bit → Type 0
  unfolding RdIsIn Rs1IsIn ImmFits
  ImmTyped d a i = RdIsIn File.integer d × Rs1IsIn File.integer a × ImmFits i

  unfoldable pub StoreTyped : Rs1 → Rs2 → Imm32 high_bit low_bit → Type 0
  unfolding Rs1IsIn Rs2IsIn ImmFits
  StoreTyped a b i = Rs1IsIn File.integer a × Rs2IsIn File.integer b × ImmFits i
