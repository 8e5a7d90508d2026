-- ===== src/Pvm/Decoded/ThreeReg.antt =====
-- The decoded handlers of three registers: PVM/instructions_instrmeta.go.
use jam_protocol.Base.{◌%◌, bit_and, bit_or, bit_xor, ◌==◌, if◌then◌else◌}
use jam_protocol.Base.Words.{u32, add64, sub64, mul64, shl64, shr, not64}
use jam_protocol.Pvm.State.{out, exit_continue}
use jam_protocol.Pvm.Decode.{sub32}
use jam_protocol.Pvm.Alu.{
  sign_extend_4, div_u_32, div_s_32, rem_u_32, rem_s_32, shar_r_32, div_u_64, div_s_64, rem_u_64,
  rem_s_64, shar_r_64, mul_upper_s_s, mul_upper_u_u, mul_upper_s_u, set_lt_u, set_lt_s,
  rotate_left64, rotate_left32, rotate_right64, rotate_right32, max_s, max_u, min_s, min_u,
}
use jam_protocol.Pvm.Decoded.{MetaHandler, with_reg, put_reg, meta_three_registers}

unfoldable pub meta_add_32 : MetaHandler
meta_add_32 s i = meta_three_registers s i (λ a b. sign_extend_4 (u32 (add64 a b)))

unfoldable pub meta_sub_32 : MetaHandler
meta_sub_32 s i = meta_three_registers s i (λ a b. sign_extend_4 (sub32 (u32 a) (u32 b)))

unfoldable pub meta_mul_32 : MetaHandler
meta_mul_32 s i = meta_three_registers s i (λ a b. sign_extend_4 (u32 (mul64 a b)))

unfoldable pub meta_div_u_32 : MetaHandler
meta_div_u_32 s i = meta_three_registers s i (λ a b. div_u_32 a b)

unfoldable pub meta_div_s_32 : MetaHandler
meta_div_s_32 s i = meta_three_registers s i (λ a b. div_s_32 a b)

unfoldable pub meta_rem_u_32 : MetaHandler
meta_rem_u_32 s i = meta_three_registers s i (λ a b. rem_u_32 a b)

unfoldable pub meta_rem_s_32 : MetaHandler
meta_rem_s_32 s i = meta_three_registers s i (λ a b. rem_s_32 a b)

unfoldable pub meta_shlo_l_32 : MetaHandler
meta_shlo_l_32 s i = meta_three_registers s i (λ a b. sign_extend_4 (u32 (shl64 a (b % 32))))

unfoldable pub meta_shlo_r_32 : MetaHandler
meta_shlo_r_32 s i = meta_three_registers s i (λ a b. sign_extend_4 (shr (u32 a) (b % 32)))

unfoldable pub meta_shar_r_32 : MetaHandler
meta_shar_r_32 s i = meta_three_registers s i (λ a b. shar_r_32 a (b % 32))

unfoldable pub meta_add_64 : MetaHandler
meta_add_64 s i = meta_three_registers s i (λ a b. add64 a b)

unfoldable pub meta_sub_64 : MetaHandler
meta_sub_64 s i = meta_three_registers s i (λ a b. sub64 a b)

unfoldable pub meta_mul_64 : MetaHandler
meta_mul_64 s i = meta_three_registers s i (λ a b. mul64 a b)

unfoldable pub meta_div_u_64 : MetaHandler
meta_div_u_64 s i = meta_three_registers s i (λ a b. div_u_64 a b)

unfoldable pub meta_div_s_64 : MetaHandler
meta_div_s_64 s i = meta_three_registers s i (λ a b. div_s_64 a b)

unfoldable pub meta_rem_u_64 : MetaHandler
meta_rem_u_64 s i = meta_three_registers s i (λ a b. rem_u_64 a b)

unfoldable pub meta_rem_s_64 : MetaHandler
meta_rem_s_64 s i = meta_three_registers s i (λ a b. rem_s_64 a b)

unfoldable pub meta_shlo_l_64 : MetaHandler
meta_shlo_l_64 s i = meta_three_registers s i (λ a b. shl64 a (b % 64))

unfoldable pub meta_shlo_r_64 : MetaHandler
meta_shlo_r_64 s i = meta_three_registers s i (λ a b. shr a (b % 64))

unfoldable pub meta_shar_r_64 : MetaHandler
meta_shar_r_64 s i = meta_three_registers s i (λ a b. shar_r_64 a (b % 64))

unfoldable pub meta_and : MetaHandler
meta_and s i = meta_three_registers s i (λ a b. bit_and a b)

unfoldable pub meta_xor : MetaHandler
meta_xor s i = meta_three_registers s i (λ a b. bit_xor a b)

unfoldable pub meta_or : MetaHandler
meta_or s i = meta_three_registers s i (λ a b. bit_or a b)

unfoldable pub meta_mul_upper_s_s : MetaHandler
meta_mul_upper_s_s s i = meta_three_registers s i (λ a b. mul_upper_s_s a b)

unfoldable pub meta_mul_upper_u_u : MetaHandler
meta_mul_upper_u_u s i = meta_three_registers s i (λ a b. mul_upper_u_u a b)

unfoldable pub meta_mul_upper_s_u : MetaHandler
meta_mul_upper_s_u s i = meta_three_registers s i (λ a b. mul_upper_s_u a b)

unfoldable pub meta_set_lt_u : MetaHandler
meta_set_lt_u s i = meta_three_registers s i (λ a b. set_lt_u a b)

unfoldable pub meta_set_lt_s : MetaHandler
meta_set_lt_s s i = meta_three_registers s i (λ a b. set_lt_s a b)

unfoldable pub meta_cmov_iz : MetaHandler
unfolding with_reg put_reg
meta_cmov_iz s i = with_reg s i.src_1 λ b.
    if b == 0
    then with_reg s i.src_0 (λ a. put_reg s i.dst a (λ s'. out s' exit_continue i.pc))
    else out s exit_continue i.pc

unfoldable pub meta_cmov_nz : MetaHandler
unfolding with_reg put_reg
meta_cmov_nz s i = with_reg s i.src_1 λ b.
    if b == 0
    then out s exit_continue i.pc
    else with_reg s i.src_0 (λ a. put_reg s i.dst a (λ s'. out s' exit_continue i.pc))

unfoldable pub meta_rot_l_64 : MetaHandler
meta_rot_l_64 s i = meta_three_registers s i (λ a b. rotate_left64 a (b % 64))

unfoldable pub meta_rot_l_32 : MetaHandler
meta_rot_l_32 s i = meta_three_registers s i (λ a b. sign_extend_4 (rotate_left32 (u32 a) (b % 32)))

unfoldable pub meta_rot_r_64 : MetaHandler
meta_rot_r_64 s i = meta_three_registers s i (λ a b. rotate_right64 a b)

unfoldable pub meta_rot_r_32 : MetaHandler
meta_rot_r_32 s i = meta_three_registers s i (λ a b. sign_extend_4 (rotate_right32 (u32 a) b))

unfoldable pub meta_and_inv : MetaHandler
meta_and_inv s i = meta_three_registers s i (λ a b. bit_and a (not64 b))

unfoldable pub meta_or_inv : MetaHandler
meta_or_inv s i = meta_three_registers s i (λ a b. bit_or a (not64 b))

unfoldable pub meta_xnor : MetaHandler
meta_xnor s i = meta_three_registers s i (λ a b. not64 (bit_xor a b))

unfoldable pub meta_max : MetaHandler
meta_max s i = meta_three_registers s i (λ a b. max_s a b)

unfoldable pub meta_max_u : MetaHandler
meta_max_u s i = meta_three_registers s i (λ a b. max_u a b)

unfoldable pub meta_min : MetaHandler
meta_min s i = meta_three_registers s i (λ a b. min_s a b)

unfoldable pub meta_min_u : MetaHandler
meta_min_u s i = meta_three_registers s i (λ a b. min_u a b)
