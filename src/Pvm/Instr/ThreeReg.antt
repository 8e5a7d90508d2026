-- ===== src/Pvm/Instr/ThreeReg.antt =====
-- Instructions on three registers: `a` and `b` are the source registers.
use jam_protocol.Base.{◌%◌, bit_and, bit_or, bit_xor, ◌==◌, if◌then◌else◌}
use jam_protocol.Base.Words.{u32, add64, sub64, mul64, shl64, shr, not64}
use jam_protocol.Pvm.State.{Handler, reg, out, exit_continue, exit_halt}
use jam_protocol.Pvm.Decode.{sub32, decode_three_registers}
use jam_protocol.Pvm.Alu.{
  sign_extend_4, div_u_32, div_s_32, rem_u_32, rem_s_32, shar_r_32, div_u_64, div_s_64, rem_u_64,
  rem_s_64, shar_r_64, mul_upper_s_s, mul_upper_u_u, mul_upper_s_u, set_lt_u, set_lt_s,
  rotate_left64, rotate_left32, rotate_right64, rotate_right32, max_s, max_u, min_s, min_u,
}
use jam_protocol.Pvm.Instr.{on_error, write, three_registers}

unfoldable pub inst_add_32 : Handler
inst_add_32 s pc skip = three_registers s pc (λ a b. sign_extend_4 (u32 (add64 a b)))

unfoldable pub inst_sub_32 : Handler
inst_sub_32 s pc skip = three_registers s pc (λ a b. sign_extend_4 (sub32 (u32 a) (u32 b)))

unfoldable pub inst_mul_32 : Handler
inst_mul_32 s pc skip = three_registers s pc (λ a b. sign_extend_4 (u32 (mul64 a b)))

unfoldable pub inst_div_u_32 : Handler
inst_div_u_32 s pc skip = three_registers s pc (λ a b. div_u_32 a b)

unfoldable pub inst_div_s_32 : Handler
inst_div_s_32 s pc skip = three_registers s pc (λ a b. div_s_32 a b)

unfoldable pub inst_rem_u_32 : Handler
inst_rem_u_32 s pc skip = three_registers s pc (λ a b. rem_u_32 a b)

unfoldable pub inst_rem_s_32 : Handler
inst_rem_s_32 s pc skip = three_registers s pc (λ a b. rem_s_32 a b)

unfoldable pub inst_shlo_l_32 : Handler
inst_shlo_l_32 s pc skip = three_registers s pc (λ a b. sign_extend_4 (u32 (shl64 a (b % 32))))

unfoldable pub inst_shlo_r_32 : Handler
inst_shlo_r_32 s pc skip = three_registers s pc (λ a b. sign_extend_4 (shr (u32 a) (b % 32)))

unfoldable pub inst_shar_r_32 : Handler
inst_shar_r_32 s pc skip = three_registers s pc (λ a b. shar_r_32 a (b % 32))

unfoldable pub inst_add_64 : Handler
inst_add_64 s pc skip = three_registers s pc (λ a b. add64 a b)

unfoldable pub inst_sub_64 : Handler
inst_sub_64 s pc skip = three_registers s pc (λ a b. sub64 a b)

unfoldable pub inst_mul_64 : Handler
inst_mul_64 s pc skip = three_registers s pc (λ a b. mul64 a b)

unfoldable pub inst_div_u_64 : Handler
inst_div_u_64 s pc skip = three_registers s pc (λ a b. div_u_64 a b)

unfoldable pub inst_div_s_64 : Handler
inst_div_s_64 s pc skip = three_registers s pc (λ a b. div_s_64 a b)

unfoldable pub inst_rem_u_64 : Handler
inst_rem_u_64 s pc skip = three_registers s pc (λ a b. rem_u_64 a b)

unfoldable pub inst_rem_s_64 : Handler
inst_rem_s_64 s pc skip = three_registers s pc (λ a b. rem_s_64 a b)

unfoldable pub inst_shlo_l_64 : Handler
inst_shlo_l_64 s pc skip = three_registers s pc (λ a b. shl64 a (b % 64))

unfoldable pub inst_shlo_r_64 : Handler
inst_shlo_r_64 s pc skip = three_registers s pc (λ a b. shr a (b % 64))

unfoldable pub inst_shar_r_64 : Handler
inst_shar_r_64 s pc skip = three_registers s pc (λ a b. shar_r_64 a (b % 64))

unfoldable pub inst_and : Handler
inst_and s pc skip = three_registers s pc (λ a b. bit_and a b)

unfoldable pub inst_xor : Handler
inst_xor s pc skip = three_registers s pc (λ a b. bit_xor a b)

unfoldable pub inst_or : Handler
inst_or s pc skip = three_registers s pc (λ a b. bit_or a b)

unfoldable pub inst_mul_upper_s_s : Handler
inst_mul_upper_s_s s pc skip = three_registers s pc (λ a b. mul_upper_s_s a b)

unfoldable pub inst_mul_upper_u_u : Handler
inst_mul_upper_u_u s pc skip = three_registers s pc (λ a b. mul_upper_u_u a b)

unfoldable pub inst_mul_upper_s_u : Handler
inst_mul_upper_s_u s pc skip = three_registers s pc (λ a b. mul_upper_s_u a b)

unfoldable pub inst_set_lt_u : Handler
inst_set_lt_u s pc skip = three_registers s pc (λ a b. set_lt_u a b)

unfoldable pub inst_set_lt_s : Handler
inst_set_lt_s s pc skip = three_registers s pc (λ a b. set_lt_s a b)

unfoldable pub inst_cmov_iz : Handler
inst_cmov_iz s pc skip =
    on_error s pc exit_halt (decode_three_registers s.program.code pc)
      λ (ra, rb, rd). if reg s rb == 0 then write s pc rd (reg s ra) else out s exit_continue pc

unfoldable pub inst_cmov_nz : Handler
inst_cmov_nz s pc skip =
    on_error s pc exit_halt (decode_three_registers s.program.code pc)
      λ (ra, rb, rd). if reg s rb == 0 then out s exit_continue pc else write s pc rd (reg s ra)

unfoldable pub inst_rot_l_64 : Handler
inst_rot_l_64 s pc skip = three_registers s pc (λ a b. rotate_left64 a (b % 64))

unfoldable pub inst_rot_l_32 : Handler
inst_rot_l_32 s pc skip =
    three_registers s pc (λ a b. sign_extend_4 (rotate_left32 (u32 a) (b % 32)))

unfoldable pub inst_rot_r_64 : Handler
inst_rot_r_64 s pc skip = three_registers s pc (λ a b. rotate_right64 a b)

unfoldable pub inst_rot_r_32 : Handler
inst_rot_r_32 s pc skip = three_registers s pc (λ a b. sign_extend_4 (rotate_right32 (u32 a) b))

unfoldable pub inst_and_inv : Handler
inst_and_inv s pc skip = three_registers s pc (λ a b. bit_and a (not64 b))

unfoldable pub inst_or_inv : Handler
inst_or_inv s pc skip = three_registers s pc (λ a b. bit_or a (not64 b))

unfoldable pub inst_xnor : Handler
inst_xnor s pc skip = three_registers s pc (λ a b. not64 (bit_xor a b))

unfoldable pub inst_max : Handler
inst_max s pc skip = three_registers s pc (λ a b. max_s a b)

unfoldable pub inst_max_u : Handler
inst_max_u s pc skip = three_registers s pc (λ a b. max_u a b)

unfoldable pub inst_min : Handler
inst_min s pc skip = three_registers s pc (λ a b. min_s a b)

unfoldable pub inst_min_u : Handler
inst_min_u s pc skip = three_registers s pc (λ a b. min_u a b)
