-- ===== src/Pvm/Decoded/Immediate.antt =====
-- The decoded handlers of two registers and an immediate: PVM/instructions_instrmeta.go.
use jam_protocol.Base.{◌^◌, bit_and, bit_or, bit_xor, ◌==◌, if◌then◌else◌}
use jam_protocol.Base.Words.{u32, add64, sub64, mul64, shl64, shr}
use jam_protocol.Pvm.State.{out, exit_continue}
use jam_protocol.Pvm.Alu.{
  sign_extend_4, set_lt_u, set_lt_s, shar_r_32, shar_r_64, rotate_right64, rotate_right32,
}
use jam_protocol.Pvm.Decoded.{MetaHandler, with_reg, put_reg, meta_two_registers_one_immediate}

unfoldable pub meta_add_imm_32 : MetaHandler
meta_add_imm_32 s i = meta_two_registers_one_immediate s i (λ a v. sign_extend_4 (u32 (add64 a v)))

unfoldable pub meta_and_imm : MetaHandler
meta_and_imm s i = meta_two_registers_one_immediate s i (λ a v. bit_and a v)

unfoldable pub meta_xor_imm : MetaHandler
meta_xor_imm s i = meta_two_registers_one_immediate s i (λ a v. bit_xor a v)

unfoldable pub meta_or_imm : MetaHandler
meta_or_imm s i = meta_two_registers_one_immediate s i (λ a v. bit_or a v)

unfoldable pub meta_mul_imm_32 : MetaHandler
meta_mul_imm_32 s i = meta_two_registers_one_immediate s i (λ a v. sign_extend_4 (u32 (mul64 a v)))

unfoldable pub meta_set_lt_u_imm : MetaHandler
meta_set_lt_u_imm s i = meta_two_registers_one_immediate s i (λ a v. set_lt_u a v)

unfoldable pub meta_set_lt_s_imm : MetaHandler
meta_set_lt_s_imm s i = meta_two_registers_one_immediate s i (λ a v. set_lt_s a v)

unfoldable pub meta_shlo_l_imm_32 : MetaHandler
meta_shlo_l_imm_32 s i =
    meta_two_registers_one_immediate s i (λ a v. sign_extend_4 (u32 (shl64 a (bit_and v 31))))

unfoldable pub meta_shlo_r_imm_32 : MetaHandler
meta_shlo_r_imm_32 s i =
    meta_two_registers_one_immediate s i (λ a v. sign_extend_4 (shr (u32 a) (bit_and v 31)))

unfoldable pub meta_shar_r_imm_32 : MetaHandler
meta_shar_r_imm_32 s i = meta_two_registers_one_immediate s i (λ a v. shar_r_32 a (bit_and v 31))

unfoldable pub meta_neg_add_imm_32 : MetaHandler
meta_neg_add_imm_32 s i =
    meta_two_registers_one_immediate s i (λ a v. sign_extend_4 (u32 (sub64 (add64 v (2 ^ 32)) a)))

unfoldable pub meta_set_gt_u_imm : MetaHandler
meta_set_gt_u_imm s i = meta_two_registers_one_immediate s i (λ a v. set_lt_u v a)

unfoldable pub meta_set_gt_s_imm : MetaHandler
meta_set_gt_s_imm s i = meta_two_registers_one_immediate s i (λ a v. set_lt_s v a)

unfoldable pub meta_shlo_l_imm_alt_32 : MetaHandler
meta_shlo_l_imm_alt_32 s i =
    meta_two_registers_one_immediate s i (λ a v. sign_extend_4 (u32 (shl64 v (bit_and a 31))))

unfoldable pub meta_shlo_r_imm_alt_32 : MetaHandler
meta_shlo_r_imm_alt_32 s i =
    meta_two_registers_one_immediate s i (λ a v. sign_extend_4 (shr (u32 v) (bit_and a 31)))

unfoldable pub meta_shar_r_imm_alt_32 : MetaHandler
meta_shar_r_imm_alt_32 s i =
    meta_two_registers_one_immediate s i (λ a v. shar_r_32 v (bit_and a 31))

unfoldable pub meta_cmov_iz_imm : MetaHandler
unfolding with_reg put_reg
meta_cmov_iz_imm s i = with_reg s i.src_0 λ b.
    if b == 0
    then put_reg s i.dst i.imm_0 (λ s'. out s' exit_continue i.pc)
    else out s exit_continue i.pc

unfoldable pub meta_cmov_nz_imm : MetaHandler
unfolding with_reg put_reg
meta_cmov_nz_imm s i = with_reg s i.src_0 λ b.
    if b == 0
    then out s exit_continue i.pc
    else put_reg s i.dst i.imm_0 (λ s'. out s' exit_continue i.pc)

unfoldable pub meta_add_imm_64 : MetaHandler
meta_add_imm_64 s i = meta_two_registers_one_immediate s i (λ a v. add64 a v)

unfoldable pub meta_mul_imm_64 : MetaHandler
meta_mul_imm_64 s i = meta_two_registers_one_immediate s i (λ a v. mul64 a v)

unfoldable pub meta_shlo_l_imm_64 : MetaHandler
meta_shlo_l_imm_64 s i = meta_two_registers_one_immediate s i (λ a v. shl64 a (bit_and v 63))

unfoldable pub meta_shlo_r_imm_64 : MetaHandler
meta_shlo_r_imm_64 s i = meta_two_registers_one_immediate s i (λ a v. shr a (bit_and v 63))

unfoldable pub meta_shar_r_imm_64 : MetaHandler
meta_shar_r_imm_64 s i = meta_two_registers_one_immediate s i (λ a v. shar_r_64 a (bit_and v 63))

unfoldable pub meta_neg_add_imm_64 : MetaHandler
meta_neg_add_imm_64 s i = meta_two_registers_one_immediate s i (λ a v. sub64 v a)

unfoldable pub meta_shlo_l_imm_alt_64 : MetaHandler
meta_shlo_l_imm_alt_64 s i = meta_two_registers_one_immediate s i (λ a v. shl64 v (bit_and a 63))

unfoldable pub meta_shlo_r_imm_alt_64 : MetaHandler
meta_shlo_r_imm_alt_64 s i = meta_two_registers_one_immediate s i (λ a v. shr v (bit_and a 63))

unfoldable pub meta_shar_r_imm_alt_64 : MetaHandler
meta_shar_r_imm_alt_64 s i =
    meta_two_registers_one_immediate s i (λ a v. shar_r_64 v (bit_and a 63))

unfoldable pub meta_rot_r_64_imm : MetaHandler
meta_rot_r_64_imm s i = meta_two_registers_one_immediate s i (λ a v. rotate_right64 a v)

unfoldable pub meta_rot_r_64_imm_alt : MetaHandler
meta_rot_r_64_imm_alt s i =
    meta_two_registers_one_immediate s i (λ a v. rotate_right64 v (bit_and a 63))

unfoldable pub meta_rot_r_32_imm : MetaHandler
meta_rot_r_32_imm s i =
    meta_two_registers_one_immediate s i (λ a v. sign_extend_4 (rotate_right32 (u32 a) v))

unfoldable pub meta_rot_r_32_imm_alt : MetaHandler
meta_rot_r_32_imm_alt s i =
    meta_two_registers_one_immediate s i (λ a v. sign_extend_4 (rotate_right32 (u32 v) a))
