-- ===== src/Instr/Operand.antt =====
-- Registers, immediates and flags: the operand types of src/frontend/instruction.rs.
use double_jit_vm.Prelude.{ℕ, ◌+◌, ◌-◌, ◌%◌, ◌^◌, Bool}
use double_jit_vm.Word.{shl32, shr32, sar32}

-- `Xx<MAX>`: the bound is a parameter that nothing checks.
pub data Xx (max : ℕ) : Type 0 where
  xx : ℕ → Xx max

pub data Reg : Type 0 where
  x f v : Xx 32 → Reg
  pc fcsr : Reg

pub data Rd : Type 0 where
  reg : Reg → Rd

pub data Rs : Type 0 where
  reg : Reg → Rs

pub data Rs1 : Type 0 where
  reg : Reg → Rs1

pub data Rs2 : Type 0 where
  reg : Reg → Rs2

pub data Rs3 : Type 0 where
  reg : Reg → Rs3

pub data Vm : Type 0 where
  flag : Bool → Vm

pub data Aq : Type 0 where
  flag : Bool → Aq

pub data Rl : Type 0 where
  flag : Bool → Rl

pub data Shamt : Type 0 where
  amount : ℕ → Shamt

pub data FenceFm : Type 0 where
  bits : Xx 16 → FenceFm

pub data FencePred : Type 0 where
  bits : Xx 16 → FencePred

pub data FenceSucc : Type 0 where
  bits : Xx 16 → FenceSucc

pub data RoundingMode : Type 0 where
  rne rtz rdn rup rmm dyn : RoundingMode

-- `Imm32<HIGH_BIT, LOW_BIT>` over the `u32` that it wraps.
pub data Imm32 (high_bit low_bit : ℕ) : Type 0 where
  imm : ℕ → Imm32 high_bit low_bit

module _ {high_bit low_bit : ℕ} where
  unfoldable pub underlying : Imm32 high_bit low_bit → ℕ
  underlying (Imm32.imm value) = value

  unfoldable pub valib_bits : Imm32 high_bit low_bit → ℕ
  valib_bits i = high_bit - low_bit + 1

  -- `Imm32::decode`: `<<=` loses the bits above 31.
  unfoldable pub decode : Imm32 high_bit low_bit → ℕ
  unfolding underlying
  decode i = shr32 (shl32 (underlying i) (32 - high_bit - 1)) (32 - high_bit + low_bit - 1)

  -- The `i32` result as its bit pattern.
  unfoldable pub decode_sext : Imm32 high_bit low_bit → ℕ
  decode_sext i = sar32 (shl32 (decode i) (31 - high_bit)) (31 - high_bit)

pub data CsrAddr : Type 0 where
  addr : Imm32 11 0 → CsrAddr

pub data UImm : Type 0 where
  value : Imm32 4 0 → UImm

-- The two `value`s, `as u16` and as it is.
unfoldable pub csr_value : CsrAddr → ℕ
csr_value (CsrAddr.addr i) = decode i % 2 ^ 16

unfoldable pub uimm_value : UImm → ℕ
uimm_value (UImm.value i) = decode i
