-- ===== src/Elf/Kinds.antt =====
-- The enums of src/frontend/elf.rs, with their variants in snake case; `Type` is `FileType` here.
use double_jit_vm.Prelude.{ℕ}

pub data Class : Type 0 where
  none thirty_two sixty_four one_twenty_eight : Class
  other : ℕ → Class

pub data Data : Type 0 where
  none little_endian big_endian : Data
  other : ℕ → Data

pub data Version : Type 0 where
  none current : Version
  other : ℕ → Version

pub data OsAbi : Type 0 where
  system_v hpux net_bsd linux gnu_hurd solaris aix irix free_bsd tru64 novell_modesto open_bsd :
      OsAbi
  open_vms non_stop_kernel aros fenix_os nuxi_cloud_abi open_vos : OsAbi
  other : ℕ → OsAbi

pub data FileType : Type 0 where
  none relocatable executable shared_object core : FileType
  processor_specific : ℕ → FileType

pub data Machine : Type 0 where
  none atat sparc x86 motorola_m68k motorola_m88k intel_mcu intel_80860 mips ibm_system_370 :
      Machine
  mips_rs_3000 hp_risc intel_80960 power_pc power_pc_64 s390 ibm_spu nec_v800 fujitsu_fr20 : Machine
  trw_rh32 motorola_rce arm_v7 digital_alpha super_h sparc9 siemens_tri_core argonaut_risc : Machine
  hitachi_h8_300 hitachi_h8_300h hitachi_h8s hitachi_h8_500 ia64 mips_x motorola_cold_fire : Machine
  motorola_m68hc12 fujitsu_mma siemens_pcp sony_ncpu denso_ndr1 motorola_star toyota_me16 : Machine
  st100 tiny_j amd_x64 tms320c6000 mcst_elbrus arm_v8 riscv bpf wdc_65c816 : Machine
  other : ℕ → Machine

pub data SectionHeaderType : Type 0 where
  section_null program_bits symbol_table string_table relocation_addend_table hash_table :
      SectionHeaderType
  dynamic_linking_table note no_bits relocation_table shared_library dynamic_symbol_table :
      SectionHeaderType
  initialize_array termination_array pre_initialize_array group sym_tab_sh_index : SectionHeaderType
  os_specific : ℕ → SectionHeaderType
  processor_specific : ℕ → SectionHeaderType
  user : ℕ → SectionHeaderType

pub data ProgramHeaderType : Type 0 where
  null load dynamic interp note sh_lib phdr tls gnu_relro : ProgramHeaderType
  os_specific : ℕ → ProgramHeaderType
  processor_specific : ℕ → ProgramHeaderType
