-- ===== src/Instr/System.antt =====
-- Bit manipulation, privileged, control-register and fetch-fence instructions of
-- src/frontend/instruction.rs.
use double_jit_vm.Instr.Operand.{Rd, Rs, Rs1, Rs2, Shamt, Imm32, CsrAddr, UImm}

pub data Rvb : Type 0 where
  adduw andn bclr : Rd → Rs1 → Rs2 → Rvb
  bclri : Rd → Rs1 → Imm32 11 0 → Rvb
  bext : Rd → Rs1 → Rs2 → Rvb
  bexti : Rd → Rs1 → Imm32 11 0 → Rvb
  binv : Rd → Rs1 → Rs2 → Rvb
  binvi : Rd → Rs1 → Imm32 11 0 → Rvb
  bset : Rd → Rs1 → Rs2 → Rvb
  bseti : Rd → Rs1 → Imm32 11 0 → Rvb
  clmul clmulh clmulr : Rd → Rs1 → Rs2 → Rvb
  clz clzw cpop cpopw ctz ctzw : Rd → Rs → Rvb
  max maxu min minu orcb orn : Rd → Rs1 → Rs2 → Rvb
  rev8 : Rd → Rs → Rvb
  rol rolw ror : Rd → Rs1 → Rs2 → Rvb
  rori roriw : Rd → Rs1 → Shamt → Rvb
  rorw : Rd → Rs1 → Rs2 → Rvb
  sextb sexth : Rd → Rs → Rvb
  sh1add sh1adduw sh2add sh2adduw sh3add sh3adduw slliuw xnor : Rd → Rs1 → Rs2 → Rvb
  zexth : Rd → Rs → Rvb

pub data RvPreviledge : Type 0 where
  sret mret wfi : RvPreviledge
  sfence_vma sinval_vma : Rs1 → Rs2 → RvPreviledge
  sfence_w_inval sfence_inval_ir : RvPreviledge

pub data RvZcsr : Type 0 where
  csrrw csrrs csrrc : Rd → Rs1 → CsrAddr → RvZcsr
  csrrwi csrrsi csrrci : Rd → UImm → CsrAddr → RvZcsr

pub data RvZifencei : Type 0 where
  fence_i : Rd → Rs1 → Imm32 11 0 → RvZifencei
