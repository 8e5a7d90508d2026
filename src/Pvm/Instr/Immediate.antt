-- ===== src/Pvm/Instr/Immediate.antt =====
-- Instructions on two registers and an immediate: `a` is the source register, `v` the immediate.
use jam_protocol.Base.{◌%◌, ◌^◌, bit_and, bit_or, bit_xor, ◌==◌, if◌then◌else◌}
use jam_protocol.Base.Words.{u32, add64, sub64, mul64, shl64, shr}
use jam_protocol.Pvm.State.{Handler, reg, out, exit_continue, exit_halt}
use jam_protocol.Pvm.Decode.{decode_two_registers_and_one_immediate}
use jam_protocol.Pvm.Alu.{
  sign_extend_4, set_lt_u, set_lt_s, shar_r_32, shar_r_64, rotate_right64, rotate_right32,
}
use jam_protocol.Pvm.Instr.{on_error, write, two_registers_one_immediate}

unfoldable pub inst_add_imm_32 : Handler
inst_add_imm_32 s pc skip =
    two_registers_one_immediate s pc skip (λ a v. sign_extend_4 (u32 (add64 a v)))

unfoldable pub inst_and_imm : Handler
inst_and_imm s pc skip = two_registers_one_immediate s pc skip (λ a v. bit_and a v)

unfoldable pub inst_xor_imm : Handler
inst_xor_imm s pc skip = two_registers_one_immediate s pc skip (λ a v. bit_xor a v)

unfoldable pub inst_or_imm : Handler
inst_or_imm s pc skip = two_registers_one_immediate s pc skip (λ a v. bit_or a v)

unfoldable pub inst_mul_imm_32 : Handler
inst_mul_imm_32 s pc skip =
    two_registers_one_immediate s pc skip (λ a v. sign_extend_4 (u32 (mul64 a v)))

unfoldable pub inst_set_lt_u_imm : Handler
inst_set_lt_u_imm s pc skip = two_registers_one_immediate s pc skip (λ a v. set_lt_u a v)

unfoldable pub inst_set_lt_s_imm : Handler
inst_set_lt_s_imm s pc skip = two_registers_one_immediate s pc skip (λ a v. set_lt_s a v)

unfoldable pub inst_shlo_l_imm_32 : Handler
inst_shlo_l_imm_32 s pc skip =
    two_registers_one_immediate s pc skip (λ a v. sign_extend_4 (u32 (shl64 a (bit_and v 31))))

unfoldable pub inst_shlo_r_imm_32 : Handler
inst_shlo_r_imm_32 s pc skip =
    two_registers_one_immediate s pc skip (λ a v. sign_extend_4 (shr (u32 a) (bit_and v 31)))

unfoldable pub inst_shar_r_imm_32 : Handler
inst_shar_r_imm_32 s pc skip =
    two_registers_one_immediate s pc skip (λ a v. shar_r_32 a (bit_and v 31))

unfoldable pub inst_neg_add_imm_32 : Handler
inst_neg_add_imm_32 s pc skip =
    two_registers_one_immediate s pc skip (λ a v. sign_extend_4 (u32 (sub64 (add64 v (2 ^ 32)) a)))

unfoldable pub inst_set_gt_u_imm : Handler
inst_set_gt_u_imm s pc skip = two_registers_one_immediate s pc skip (λ a v. set_lt_u v a)

unfoldable pub inst_set_gt_s_imm : Handler
inst_set_gt_s_imm s pc skip = two_registers_one_immediate s pc skip (λ a v. set_lt_s v a)

unfoldable pub inst_shlo_l_imm_alt_32 : Handler
inst_shlo_l_imm_alt_32 s pc skip =
    two_registers_one_immediate s pc skip (λ a v. sign_extend_4 (u32 (shl64 v (bit_and a 31))))

unfoldable pub inst_shlo_r_imm_alt_32 : Handler
inst_shlo_r_imm_alt_32 s pc skip =
    two_registers_one_immediate s pc skip (λ a v. sign_extend_4 (shr (u32 v) (bit_and a 31)))

unfoldable pub inst_shar_r_imm_alt_32 : Handler
inst_shar_r_imm_alt_32 s pc skip =
    two_registers_one_immediate s pc skip (λ a v. shar_r_32 v (bit_and a 31))

unfoldable pub inst_cmov_iz_imm : Handler
inst_cmov_iz_imm s pc skip =
    on_error s pc exit_halt (decode_two_registers_and_one_immediate s.program.code pc skip)
      λ (ra, rb, vx). if reg s rb == 0 then write s pc ra vx else out s exit_continue pc

unfoldable pub inst_cmov_nz_imm : Handler
inst_cmov_nz_imm s pc skip =
    on_error s pc exit_halt (decode_two_registers_and_one_immediate s.program.code pc skip)
      λ (ra, rb, vx). if reg s rb == 0 then out s exit_continue pc else write s pc ra vx

unfoldable pub inst_add_imm_64 : Handler
inst_add_imm_64 s pc skip = two_registers_one_immediate s pc skip (λ a v. add64 a v)

unfoldable pub inst_mul_imm_64 : Handler
inst_mul_imm_64 s pc skip = two_registers_one_immediate s pc skip (λ a v. mul64 a v)

unfoldable pub inst_shlo_l_imm_64 : Handler
inst_shlo_l_imm_64 s pc skip = two_registers_one_immediate s pc skip (λ a v. shl64 a (v % 64))

unfoldable pub inst_shlo_r_imm_64 : Handler
inst_shlo_r_imm_64 s pc skip = two_registers_one_immediate s pc skip (λ a v. shr a (v % 64))

unfoldable pub inst_shar_r_imm_64 : Handler
inst_shar_r_imm_64 s pc skip =
    two_registers_one_immediate s pc skip (λ a v. shar_r_64 a (bit_and v 63))

unfoldable pub inst_neg_add_imm_64 : Handler
inst_neg_add_imm_64 s pc skip = two_registers_one_immediate s pc skip (λ a v. sub64 v a)

unfoldable pub inst_shlo_l_imm_alt_64 : Handler
inst_shlo_l_imm_alt_64 s pc skip =
    two_registers_one_immediate s pc skip (λ a v. shl64 v (bit_and a 63))

unfoldable pub inst_shlo_r_imm_alt_64 : Handler
inst_shlo_r_imm_alt_64 s pc skip =
    two_registers_one_immediate s pc skip (λ a v. shr v (bit_and a 63))

unfoldable pub inst_shar_r_imm_alt_64 : Handler
inst_shar_r_imm_alt_64 s pc skip =
    two_registers_one_immediate s pc skip (λ a v. shar_r_64 v (bit_and a 63))

unfoldable pub inst_rot_r_64_imm : Handler
inst_rot_r_64_imm s pc skip = two_registers_one_immediate s pc skip (λ a v. rotate_right64 a v)

unfoldable pub inst_rot_r_64_imm_alt : Handler
inst_rot_r_64_imm_alt s pc skip =
    two_registers_one_immediate s pc skip (λ a v. rotate_right64 v (a % 64))

unfoldable pub inst_rot_r_32_imm : Handler
inst_rot_r_32_imm s pc skip =
    two_registers_one_immediate s pc skip (λ a v. sign_extend_4 (rotate_right32 (u32 a) v))

unfoldable pub inst_rot_r_32_imm_alt : Handler
inst_rot_r_32_imm_alt s pc skip =
    two_registers_one_immediate s pc skip (λ a v. sign_extend_4 (rotate_right32 (u32 v) a))
