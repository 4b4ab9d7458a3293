-- ===== src/Instr/Vector.antt =====
-- The vector instructions that src/frontend/instruction.rs lists; its decoder produces none of them.
use double_jit_vm.Instr.Operand.{Rd, Rs1, Rs2, Rs3, Imm32, Vm}

pub data Rvv : Type 0 where
  vsetivli : Rd → Rs1 → Imm32 20 10 → Rvv
  vsetvli : Rd → Rs1 → Imm32 20 11 → Rvv
  vsetvl : Rd → Rs1 → Rs2 → Rvv
  vlm_v : Rd → Rs1 → Rvv
  vle8_v vle16_v vle32_v vle64_v vle128_v vle256_v vle512_v vle1024_v : Rd → Rs1 → Vm → Rvv
  vsm_v : Rs3 → Rs1 → Rvv
  vse8_v vse16_v vse32_v : Rs3 → Rs1 → Vm → Rvv
  vse64_v vse128_v vse256_v vse512_v vse1024_v vadd_vv vadd_vx vadd_vi vsub_vv : Rd → Rs1 → Rvv
  vsub_vx vrsub_vx vrsub_vi vmul_vv vmul_vx vdiv_vv vdiv_vx vdivu_vv vdivu_vx : Rd → Rs1 → Rvv
  vrem_vv vrem_vx vremu_vv vremu_vx vsll_vv vsll_vx vsll_vi vsrl_vv vsrl_vx : Rd → Rs1 → Rvv
  vsrl_vi vsra_vv vsra_vx vsra_vi vmseq_vv vmseq_vx vmseq_vi vmsne_vv vmsne_vx : Rd → Rs1 → Rvv
  vmsne_vi vmsltu_vv vmsltu_vx vmslt_vv vmslt_vx vmsleu_vv vmsleu_vx vmsleu_vi : Rd → Rs1 → Rvv
  vmsle_vv vmsle_vx vmsle_vi vmsgtu_vx vmsgtu_vi vmsgt_vx vmsgt_vi vminu_vv : Rd → Rs1 → Rvv
  vminu_vx vmin_vv vmin_vx vmaxu_vv vmaxu_vx vmax_vv vmax_vx vwaddu_vv vwaddu_vx : Rd → Rs1 → Rvv
  vwsubu_vv vwsubu_vx vwadd_vv vwadd_vx vwsub_vv vwsub_vx vwaddu_wv vwaddu_wx : Rd → Rs1 → Rvv
  vwsubu_wv vwsubu_wx vwadd_wv vwadd_wx vwsub_wv vwsub_wx vzext_vf8 vsext_vf8 : Rd → Rs1 → Rvv
  vzext_vf4 vsext_vf4 vzext_vf2 vsext_vf2 vadc_vvm vadc_vxm vadc_vim vmadc_vvm : Rd → Rs1 → Rvv
  vmadc_vxm vmadc_vim vmadc_vv vmadc_vx vmadc_vi vsbc_vvm vsbc_vxm vmsbc_vvm : Rd → Rs1 → Rvv
  vmsbc_vxm vmsbc_vv vmsbc_vx vand_vv vand_vi vand_vx vor_vv vor_vx vor_vi : Rd → Rs1 → Rvv
  vxor_vv vxor_vx vxor_vi vnsrl_wv vnsrl_wx vnsrl_wi vnsra_wv vnsra_wx vnsra_wi : Rd → Rs1 → Rvv
  vmulh_vv vmulh_vx vmulhu_vv vmulhu_vx vmulhsu_vv vmulhsu_vx vwmulu_vv vwmulu_vx : Rd → Rs1 → Rvv
  vwmulsu_vv vwmulsu_vx vwmul_vv vwmul_vx vmv_v_v vmv_v_x vmv_v_i vsaddu_vv : Rd → Rs1 → Rvv
  vsaddu_vx vsaddu_vi vsadd_vv vsadd_vx vsadd_vi vssubu_vv vssubu_vx vssub_vv : Rd → Rs1 → Rvv
  vssub_vx vaaddu_vv vaaddu_vx vaadd_vv vaadd_vx vasubu_vv vasubu_vx vasub_vv : Rd → Rs1 → Rvv
  vasub_vx vmv1r_v vmv2r_v vmv4r_v vmv8r_v vfirst_m vmand_mm vmnand_mm : Rd → Rs1 → Rvv
  vmandnot_mm vmxor_mm vmor_mm vmnor_mm vmornot_mm vmxnor_mm vlse8_v vlse16_v : Rd → Rs1 → Rvv
  vlse32_v vlse64_v vlse128_v vlse256_v vlse512_v vlse1024_v vsse8_v vsse16_v : Rd → Rs1 → Rvv
  vsse32_v vsse64_v vsse128_v vsse256_v vsse512_v vsse1024_v vluxei8_v vluxei16_v : Rd → Rs1 → Rvv
  vluxei32_v vluxei64_v vluxei128_v vluxei256_v vluxei512_v vluxei1024_v : Rd → Rs1 → Rvv
  vloxei8_v vloxei16_v vloxei32_v vloxei64_v vloxei128_v vloxei256_v vloxei512_v : Rd → Rs1 → Rvv
  vloxei1024_v vsuxei8_v vsuxei16_v vsuxei32_v vsuxei64_v vsuxei128_v vsuxei256_v : Rd → Rs1 → Rvv
  vsuxei512_v vsuxei1024_v vsoxei8_v vsoxei16_v vsoxei32_v vsoxei64_v vsoxei128_v : Rd → Rs1 → Rvv
  vsoxei256_v vsoxei512_v vsoxei1024_v vl1re8_v vl1re16_v vl1re32_v vl1re64_v : Rd → Rs1 → Rvv
  vl2re8_v vl2re16_v vl2re32_v vl2re64_v vl4re8_v vl4re16_v vl4re32_v vl4re64_v : Rd → Rs1 → Rvv
  vl8re8_v vl8re16_v vl8re32_v vl8re64_v vs1r_v vs2r_v vs4r_v vs8r_v vmacc_vv : Rd → Rs1 → Rvv
  vmacc_vx vnmsac_vv vnmsac_vx vmadd_vv vmadd_vx vnmsub_vv vnmsub_vx vssrl_vv : Rd → Rs1 → Rvv
  vssrl_vx vssrl_vi vssra_vv vssra_vx vssra_vi vsmul_vv vsmul_vx vwmaccu_vv : Rd → Rs1 → Rvv
  vwmaccu_vx vwmacc_vv vwmacc_vx vwmaccsu_vv vwmaccsu_vx vwmaccus_vx vmerge_vvm : Rd → Rs1 → Rvv
  vmerge_vxm vmerge_vim vnclipu_wv vnclipu_wx vnclipu_wi vnclip_wv vnclip_wx : Rd → Rs1 → Rvv
  vnclip_wi vredsum_vs vredand_vs vredor_vs vredxor_vs vredminu_vs vredmin_vs : Rd → Rs1 → Rvv
  vredmaxu_vs vredmax_vs vwredsumu_vs vwredsum_vs vcpop_m vmsbf_m vmsof_m vmsif_m : Rd → Rs1 → Rvv
  viota_m vid_v vmv_x_s vmv_s_x vcompress_vm vslide1up_vx vslideup_vx vslideup_vi : Rd → Rs1 → Rvv
  vslide1down_vx vslidedown_vx vslidedown_vi vrgather_vx vrgather_vv : Rd → Rs1 → Rvv
  vrgatherei16_vv vrgather_vi : Rd → Rs1 → Rvv
