-- ===== src/Elf/Header/Codes.antt =====
-- What the codes of an ELF header stand for: the `match`es of its getters in src/frontend/elf.rs.
use double_jit_vm.Prelude.{ℕ, ◌==◌, if◌then◌else◌}
use double_jit_vm.Elf.Kinds.{Class, Data, Version, OsAbi, FileType, Machine}

-- The four `match`es on a byte of the first part.
unfoldable pub class_of : ℕ → Class
class_of code =
    if code == 0
    then Class.none
    else if code == 1
    then Class.thirty_two
    else if code == 2
    then Class.sixty_four
    else Class.other code

unfoldable pub data_of : ℕ → Data
data_of code =
    if code == 0
    then Data.none
    else if code == 1
    then Data.little_endian
    else if code == 2
    then Data.big_endian
    else Data.other code

unfoldable pub version_of : ℕ → Version
version_of code =
    if code == 0 then Version.none else if code == 1 then Version.current else Version.other code

unfoldable pub os_abi_of : ℕ → OsAbi
os_abi_of code =
    if code == 0x00
    then OsAbi.system_v
    else if code == 0x01
    then OsAbi.hpux
    else if code == 0x02
    then OsAbi.net_bsd
    else if code == 0x03
    then OsAbi.linux
    else if code == 0x04
    then OsAbi.gnu_hurd
    else if code == 0x06
    then OsAbi.solaris
    else if code == 0x07
    then OsAbi.aix
    else if code == 0x08
    then OsAbi.irix
    else if code == 0x09
    then OsAbi.free_bsd
    else if code == 0x0a
    then OsAbi.tru64
    else if code == 0x0b
    then OsAbi.novell_modesto
    else if code == 0x0c
    then OsAbi.open_bsd
    else if code == 0x0d
    then OsAbi.open_vms
    else if code == 0x0e
    then OsAbi.non_stop_kernel
    else if code == 0x0f
    then OsAbi.aros
    else if code == 0x10
    then OsAbi.fenix_os
    else if code == 0x11
    then OsAbi.nuxi_cloud_abi
    else if code == 0x12
    then OsAbi.open_vos
    else OsAbi.other code

-- The `match`es on `type_` and on `machine`; the source repeats each for both widths.
unfoldable pub type_of : ℕ → FileType
type_of code =
    if code == 0
    then FileType.none
    else if code == 1
    then FileType.relocatable
    else if code == 2
    then FileType.executable
    else if code == 3
    then FileType.shared_object
    else if code == 4
    then FileType.core
    else FileType.processor_specific code

unfoldable pub machine_of : ℕ → Machine
machine_of code =
    if code == 0x04
    then Machine.motorola_m68k
    else if code == 0x05
    then Machine.motorola_m88k
    else if code == 0x06
    then Machine.intel_mcu
    else if code == 0x07
    then Machine.intel_80860
    else if code == 0x08
    then Machine.mips
    else if code == 0x09
    then Machine.ibm_system_370
    else if code == 0x0a
    then Machine.mips_rs_3000
    else if code == 0x0e
    then Machine.hp_risc
    else if code == 0x13
    then Machine.intel_80960
    else if code == 0x14
    then Machine.power_pc
    else if code == 0x15
    then Machine.power_pc_64
    else if code == 0x16
    then Machine.s390
    else if code == 0x17
    then Machine.ibm_spu
    else if code == 0x24
    then Machine.nec_v800
    else if code == 0x25
    then Machine.fujitsu_fr20
    else if code == 0x26
    then Machine.trw_rh32
    else if code == 0x27
    then Machine.motorola_rce
    else if code == 0x28
    then Machine.arm_v7
    else if code == 0x29
    then Machine.digital_alpha
    else if code == 0x2a
    then Machine.super_h
    else if code == 0x2b
    then Machine.sparc9
    else if code == 0x2c
    then Machine.siemens_tri_core
    else if code == 0x2d
    then Machine.argonaut_risc
    else if code == 0x2e
    then Machine.hitachi_h8_300
    else if code == 0x2f
    then Machine.hitachi_h8_300h
    else if code == 0x30
    then Machine.hitachi_h8s
    else if code == 0x31
    then Machine.hitachi_h8_500
    else if code == 0x32
    then Machine.ia64
    else if code == 0x33
    then Machine.mips
    else if code == 0x34
    then Machine.motorola_cold_fire
    else if code == 0x35
    then Machine.motorola_m68hc12
    else if code == 0x36
    then Machine.fujitsu_mma
    else if code == 0x37
    then Machine.siemens_pcp
    else if code == 0x38
    then Machine.sony_ncpu
    else if code == 0x39
    then Machine.denso_ndr1
    else if code == 0x3a
    then Machine.motorola_star
    else if code == 0x3b
    then Machine.toyota_me16
    else if code == 0x3c
    then Machine.st100
    else if code == 0x3d
    then Machine.tiny_j
    else if code == 0x3e
    then Machine.amd_x64
    else if code == 0x8c
    then Machine.tms320c6000
    else if code == 0xaf
    then Machine.mcst_elbrus
    else if code == 0xb7
    then Machine.arm_v8
    else if code == 0xf3
    then Machine.riscv
    else if code == 0xf7
    then Machine.bpf
    else if code == 0x101
    then Machine.wdc_65c816
    else Machine.other code
