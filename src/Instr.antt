-- ===== src/Instr.antt =====
-- The instruction types of src/frontend/instruction.rs. Constructors are the variants, in lower case;
-- a tuple struct over a register or a number is a type with one constructor.
pub mod Operand
pub mod Base32
pub mod Base64
pub mod MulAtomic
pub mod Float
pub mod System
pub mod Vector
use Prim.Native.String.{String}
use double_jit_vm.Prelude.{ℕ, ◌≡◌, refl, ◌==◌, if◌then◌else◌}
use Base32.{Rv32I, Rv32E}
use Base64.{Rv64I, Rv64E, Rv128I}
use MulAtomic.{Rv32M, Rv32A, Rv64M, Rv64A}
use Float.{Rv32F, Rv32D, Rv64F, Rv64D}
use System.{Rvb, RvPreviledge, RvZcsr, RvZifencei}
use Vector.{Rvv}

pub data Rv32Instr : Type 0 where
  rv32i : Rv32I → Rv32Instr
  rv32m : Rv32M → Rv32Instr
  rv32a : Rv32A → Rv32Instr
  rv32f : Rv32F → Rv32Instr
  rv32e : Rv32E → Rv32Instr
  rv32d : Rv32D → Rv32Instr
  rvb : Rvb → Rv32Instr
  rvv : Rvv → Rv32Instr
  rvzifencei : RvZifencei → Rv32Instr
  rvzcsr : RvZcsr → Rv32Instr

pub data Rv64Instr : Type 0 where
  rv64i : Rv64I → Rv64Instr
  rv64m : Rv64M → Rv64Instr
  rv64a : Rv64A → Rv64Instr
  rv64f : Rv64F → Rv64Instr
  rv64e : Rv64E → Rv64Instr
  rv64d : Rv64D → Rv64Instr
  rvb : Rvb → Rv64Instr
  rv64v : Rvv → Rv64Instr
  rvzifencei : RvZifencei → Rv64Instr
  rvzcsr : RvZcsr → Rv64Instr
  rvpreviledge : RvPreviledge → Rv64Instr

pub data Rv128Instr : Type 0 where
  rv128i : Rv128I → Rv128Instr
  rvv : Rvv → Rv128Instr
  rvzifencei : RvZifencei → Rv128Instr
  rvzcsr : RvZcsr → Rv128Instr

pub data Instr : Type 0 where
  rv32 : Rv32Instr → Instr
  rv64 : Rv64Instr → Instr
  rv128 : Rv128Instr → Instr
  nop : Instr

unfoldable pub get_arch : Instr → ℕ
get_arch Instr.nop = 0
get_arch (Instr.rv32 _) = 32
get_arch (Instr.rv64 _) = 64
get_arch (Instr.rv128 _) = 128

-- What `to_string` gives for the three wrappers: their `Display` impls write nothing.
unfoldable pub rv32_to_string : Rv32Instr → String
rv32_to_string _ = ""

unfoldable pub rv64_to_string : Rv64Instr → String
rv64_to_string _ = ""

unfoldable pub rv128_to_string : Rv128Instr → String
rv128_to_string _ = ""

unfoldable pub get_type : Instr → String
unfolding rv32_to_string rv64_to_string rv128_to_string
get_type Instr.nop = "NOP"
get_type (Instr.rv32 i) = rv32_to_string i
get_type (Instr.rv64 i) = rv64_to_string i
get_type (Instr.rv128 i) = rv128_to_string i

-- Only `NOP` has a type that says anything.
get_type_lem : (i : Instr) → get_type i ≡ (if get_arch i == 0 then "NOP" else "")
unfolding get_type get_arch
get_type_lem Instr.nop = refl
get_type_lem (Instr.rv32 i) = refl
get_type_lem (Instr.rv64 i) = refl
get_type_lem (Instr.rv128 i) = refl
