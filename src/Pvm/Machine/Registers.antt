-- ===== src/Pvm/Machine/Registers.antt =====
-- Every row of the table's register instructions keeps the form of the machine.
use jam_protocol.Base.{ℕ, ◌%◌, ◌^◌, ◌≤◌, arith, bit_and, bit_or, bit_xor, ◌==◌}
use jam_protocol.Base.Bits.{bit_and-le, bit_or-lt, bit_xor-lt}
use jam_protocol.Base.Words.{IsU64, u64, not64, shr, unsigned64-lt}
use jam_protocol.Pvm.Alu.{ones_count, leading_zeros, trailing_zeros}
use jam_protocol.Pvm.State.{reg, exit_halt, exit_continue}
use jam_protocol.Pvm.Decode.{decode_two_registers_and_one_immediate, decode_three_registers}
use jam_protocol.Pvm.Instr.TwoReg.{
  inst_count_set_bits_32, inst_count_set_bits_64, inst_leading_zero_bits_32,
  inst_leading_zero_bits_64, inst_move_reg, inst_reverse_bytes, inst_sign_extend_16,
  inst_sign_extend_8, inst_trail_zero_bits_32, inst_trail_zero_bits_64, inst_zero_extend_16,
}
use jam_protocol.Pvm.Instr.Immediate.{
  inst_add_imm_32, inst_add_imm_64, inst_and_imm, inst_cmov_iz_imm, inst_cmov_nz_imm,
  inst_mul_imm_32, inst_mul_imm_64, inst_neg_add_imm_32, inst_neg_add_imm_64, inst_or_imm,
  inst_rot_r_32_imm, inst_rot_r_32_imm_alt, inst_rot_r_64_imm, inst_rot_r_64_imm_alt,
  inst_set_gt_s_imm, inst_set_gt_u_imm, inst_set_lt_s_imm, inst_set_lt_u_imm, inst_shar_r_imm_32,
  inst_shar_r_imm_64, inst_shar_r_imm_alt_32, inst_shar_r_imm_alt_64, inst_shlo_l_imm_32,
  inst_shlo_l_imm_64, inst_shlo_l_imm_alt_32, inst_shlo_l_imm_alt_64, inst_shlo_r_imm_32,
  inst_shlo_r_imm_64, inst_shlo_r_imm_alt_32, inst_shlo_r_imm_alt_64, inst_xor_imm,
}
use jam_protocol.Pvm.Instr.ThreeReg.{
  inst_add_32, inst_add_64, inst_and, inst_and_inv, inst_cmov_iz, inst_cmov_nz, inst_div_s_32,
  inst_div_s_64, inst_div_u_32, inst_div_u_64, inst_max, inst_max_u, inst_min, inst_min_u,
  inst_mul_32, inst_mul_64, inst_mul_upper_s_s, inst_mul_upper_s_u, inst_mul_upper_u_u, inst_or,
  inst_or_inv, inst_rem_s_32, inst_rem_s_64, inst_rem_u_32, inst_rem_u_64, inst_rot_l_32,
  inst_rot_l_64, inst_rot_r_32, inst_rot_r_64, inst_set_lt_s, inst_set_lt_u, inst_shar_r_32,
  inst_shar_r_64, inst_shlo_l_32, inst_shlo_l_64, inst_shlo_r_32, inst_shlo_r_64, inst_sub_32,
  inst_sub_64, inst_xnor, inst_xor,
}
use jam_protocol.Pvm.Instr.Table.{two_register_rows, immediate_rows, three_register_rows}
use jam_protocol.Pvm.Machine.{on_error-Steps, if-Steps, write-Steps, out-Steps, reg-IsU64}
use jam_protocol.Pvm.Machine.Decoded.{Any, Post-Any, LastWord, two_registers_and_one_immediate-Post}
use jam_protocol.Pvm.Machine.Heap.{inst_sbrk-Steps}
use jam_protocol.Pvm.Alu.Rotation.{rotate_left64-IsU64, rotate_right64-IsU64}
use jam_protocol.Pvm.Machine.Words.{
  ones_count-le, leading_zeros-le, trailing_zeros-le, reverse_bytes64-IsU64, div_u_64-IsU64,
  rem_u_64-IsU64, sign_extend_4-IsU64, div_u_32-IsU64, rem_u_32-IsU64, div_s_32-IsU64,
  rem_s_32-IsU64, div_s_64-IsU64, rem_s_64-IsU64, shar_r_32-IsU64, shar_r_64-IsU64,
  mul_upper_u_u-IsU64, mul_upper_s_s-IsU64, mul_upper_s_u-IsU64, set_lt_u-IsU64, set_lt_s-IsU64,
  max_s-IsU64, max_u-IsU64, min_s-IsU64, min_u-IsU64,
}
use jam_protocol.Pvm.Machine.Operands.{
  Keeps, Kept, no_rows, ◌◂◌, two_registers-Keeps, two_registers_one_immediate-Keeps,
  three_registers-Keeps,
}

u64-IsU64 : (x : ℕ) → IsU64 (u64 x)
u64-IsU64 x = omega arith

not64-IsU64 : (x : ℕ) → IsU64 (not64 x)
not64-IsU64 x = omega arith

shr-IsU64 : (a k : ℕ) → IsU64 a → IsU64 (shr a k)
shr-IsU64 a k h = grind arith

bit_and-IsU64 : (a b : ℕ) → IsU64 a → IsU64 (bit_and a b)
bit_and-IsU64 a b h = omega (arith, bit_and-le a b)

bit_or-IsU64 : (a b : ℕ) → IsU64 a → IsU64 b → IsU64 (bit_or a b)
bit_or-IsU64 a b p q = bit_or-lt 64 a b p q

bit_xor-IsU64 : (a b : ℕ) → IsU64 a → IsU64 b → IsU64 (bit_xor a b)
bit_xor-IsU64 a b p q = bit_xor-lt 64 a b p q

ones_count-IsU64 : (w x : ℕ) → w ≤ 64 → IsU64 (ones_count w x)
ones_count-IsU64 w x h = omega (arith, ones_count-le w x)

leading_zeros-IsU64 : (w x : ℕ) → w ≤ 64 → IsU64 (leading_zeros w x)
leading_zeros-IsU64 w x h = omega (arith, leading_zeros-le w x)

trailing_zeros-IsU64 : (w x : ℕ) → w ≤ 64 → IsU64 (trailing_zeros w x)
trailing_zeros-IsU64 w x h = omega (arith, trailing_zeros-le w x)

mod16-IsU64 : (x : ℕ) → IsU64 (x % 2 ^ 16)
mod16-IsU64 x = omega arith

width_32 : 32 ≤ 64
width_32 = omega arith

width_64 : 64 ≤ 64
width_64 = omega arith

ruleset word_results = (
  ones_count-IsU64, leading_zeros-IsU64, trailing_zeros-IsU64, mod16-IsU64, width_32, width_64,
  u64-IsU64, not64-IsU64, shr-IsU64, bit_and-IsU64, bit_or-IsU64, bit_xor-IsU64, unsigned64-lt,
  reverse_bytes64-IsU64, rotate_left64-IsU64, rotate_right64-IsU64, div_u_64-IsU64, rem_u_64-IsU64,
  sign_extend_4-IsU64, div_u_32-IsU64, rem_u_32-IsU64, div_s_32-IsU64, rem_s_32-IsU64,
  div_s_64-IsU64, rem_s_64-IsU64, shar_r_32-IsU64, shar_r_64-IsU64, mul_upper_u_u-IsU64,
  mul_upper_s_s-IsU64, mul_upper_s_u-IsU64, set_lt_u-IsU64, set_lt_s-IsU64, max_s-IsU64,
  max_u-IsU64, min_s-IsU64, min_u-IsU64,
)

inst_cmov_iz_imm-Keeps : Keeps inst_cmov_iz_imm
unfolding inst_cmov_iz_imm
inst_cmov_iz_imm-Keeps s pc skip ok =
    on_error-Steps LastWord s pc exit_halt
      (decode_two_registers_and_one_immediate s.program.code pc skip) _ ok
      (two_registers_and_one_immediate-Post s.program.code pc skip)
      (λ p word.
        if-Steps s (reg s p.1 == 0) _ _ (write-Steps s pc p.0 _ ok word)
          (out-Steps s exit_continue pc ok))

inst_cmov_nz_imm-Keeps : Keeps inst_cmov_nz_imm
unfolding inst_cmov_nz_imm
inst_cmov_nz_imm-Keeps s pc skip ok =
    on_error-Steps LastWord s pc exit_halt
      (decode_two_registers_and_one_immediate s.program.code pc skip) _ ok
      (two_registers_and_one_immediate-Post s.program.code pc skip)
      (λ p word.
        if-Steps s (reg s p.1 == 0) _ _ (out-Steps s exit_continue pc ok)
          (write-Steps s pc p.0 _ ok word))

inst_cmov_iz-Keeps : Keeps inst_cmov_iz
unfolding inst_cmov_iz
inst_cmov_iz-Keeps s pc skip ok =
    on_error-Steps Any s pc exit_halt (decode_three_registers s.program.code pc) _ ok (Post-Any _)
      (λ p _.
        if-Steps s (reg s p.1 == 0) _ _ (write-Steps s pc p.2 _ ok (reg-IsU64 s p.0 ok))
          (out-Steps s exit_continue pc ok))

inst_cmov_nz-Keeps : Keeps inst_cmov_nz
unfolding inst_cmov_nz
inst_cmov_nz-Keeps s pc skip ok =
    on_error-Steps Any s pc exit_halt (decode_three_registers s.program.code pc) _ ok (Post-Any _)
      (λ p _.
        if-Steps s (reg s p.1 == 0) _ _ (out-Steps s exit_continue pc ok)
          (write-Steps s pc p.2 _ ok (reg-IsU64 s p.0 ok)))

pub two_register_rows-Keeps : Kept two_register_rows
unfolding two_register_rows inst_count_set_bits_32 inst_count_set_bits_64 inst_leading_zero_bits_32
    inst_leading_zero_bits_64 inst_move_reg inst_reverse_bytes inst_sign_extend_16
    inst_sign_extend_8 inst_trail_zero_bits_32 inst_trail_zero_bits_64 inst_zero_extend_16
two_register_rows-Keeps =
    two_registers-Keeps _ (λ a p. search word_results)
    ◂ inst_sbrk-Steps
    ◂ two_registers-Keeps _ (λ a p. search word_results)
    ◂ two_registers-Keeps _ (λ a p. search word_results)
    ◂ two_registers-Keeps _ (λ a p. search word_results)
    ◂ two_registers-Keeps _ (λ a p. search word_results)
    ◂ two_registers-Keeps _ (λ a p. search word_results)
    ◂ two_registers-Keeps _ (λ a p. search word_results)
    ◂ two_registers-Keeps _ (λ a p. search word_results)
    ◂ two_registers-Keeps _ (λ a p. search word_results)
    ◂ two_registers-Keeps _ (λ a p. search word_results)
    ◂ two_registers-Keeps _ (λ a p. search word_results)
    ◂ no_rows

pub immediate_rows-Keeps : Kept immediate_rows
unfolding immediate_rows inst_add_imm_32 inst_add_imm_64 inst_and_imm inst_mul_imm_32
    inst_mul_imm_64 inst_neg_add_imm_32 inst_neg_add_imm_64 inst_or_imm inst_rot_r_32_imm
    inst_rot_r_32_imm_alt inst_rot_r_64_imm inst_rot_r_64_imm_alt inst_set_gt_s_imm
    inst_set_gt_u_imm inst_set_lt_s_imm inst_set_lt_u_imm inst_shar_r_imm_32 inst_shar_r_imm_64
    inst_shar_r_imm_alt_32 inst_shar_r_imm_alt_64 inst_shlo_l_imm_32 inst_shlo_l_imm_64
    inst_shlo_l_imm_alt_32 inst_shlo_l_imm_alt_64 inst_shlo_r_imm_32 inst_shlo_r_imm_64
    inst_shlo_r_imm_alt_32 inst_shlo_r_imm_alt_64 inst_xor_imm
immediate_rows-Keeps =
    two_registers_one_immediate-Keeps _ (λ a v p q. search word_results)
    ◂ two_registers_one_immediate-Keeps _ (λ a v p q. search word_results)
    ◂ two_registers_one_immediate-Keeps _ (λ a v p q. search word_results)
    ◂ two_registers_one_immediate-Keeps _ (λ a v p q. search word_results)
    ◂ two_registers_one_immediate-Keeps _ (λ a v p q. search word_results)
    ◂ two_registers_one_immediate-Keeps _ (λ a v p q. search word_results)
    ◂ two_registers_one_immediate-Keeps _ (λ a v p q. search word_results)
    ◂ two_registers_one_immediate-Keeps _ (λ a v p q. search word_results)
    ◂ two_registers_one_immediate-Keeps _ (λ a v p q. search word_results)
    ◂ two_registers_one_immediate-Keeps _ (λ a v p q. search word_results)
    ◂ two_registers_one_immediate-Keeps _ (λ a v p q. search word_results)
    ◂ two_registers_one_immediate-Keeps _ (λ a v p q. search word_results)
    ◂ two_registers_one_immediate-Keeps _ (λ a v p q. search word_results)
    ◂ two_registers_one_immediate-Keeps _ (λ a v p q. search word_results)
    ◂ two_registers_one_immediate-Keeps _ (λ a v p q. search word_results)
    ◂ two_registers_one_immediate-Keeps _ (λ a v p q. search word_results)
    ◂ inst_cmov_iz_imm-Keeps
    ◂ inst_cmov_nz_imm-Keeps
    ◂ two_registers_one_immediate-Keeps _ (λ a v p q. search word_results)
    ◂ two_registers_one_immediate-Keeps _ (λ a v p q. search word_results)
    ◂ two_registers_one_immediate-Keeps _ (λ a v p q. search word_results)
    ◂ two_registers_one_immediate-Keeps _ (λ a v p q. search word_results)
    ◂ two_registers_one_immediate-Keeps _ (λ a v p q. search word_results)
    ◂ two_registers_one_immediate-Keeps _ (λ a v p q. search word_results)
    ◂ two_registers_one_immediate-Keeps _ (λ a v p q. search word_results)
    ◂ two_registers_one_immediate-Keeps _ (λ a v p q. search word_results)
    ◂ two_registers_one_immediate-Keeps _ (λ a v p q. search word_results)
    ◂ two_registers_one_immediate-Keeps _ (λ a v p q. search word_results)
    ◂ two_registers_one_immediate-Keeps _ (λ a v p q. search word_results)
    ◂ two_registers_one_immediate-Keeps _ (λ a v p q. search word_results)
    ◂ two_registers_one_immediate-Keeps _ (λ a v p q. search word_results)
    ◂ no_rows

pub three_register_rows-Keeps : Kept three_register_rows
unfolding three_register_rows inst_add_32 inst_add_64 inst_and inst_and_inv inst_div_s_32
    inst_div_s_64 inst_div_u_32 inst_div_u_64 inst_max inst_max_u inst_min inst_min_u inst_mul_32
    inst_mul_64 inst_mul_upper_s_s inst_mul_upper_s_u inst_mul_upper_u_u inst_or inst_or_inv
    inst_rem_s_32 inst_rem_s_64 inst_rem_u_32 inst_rem_u_64 inst_rot_l_32 inst_rot_l_64
    inst_rot_r_32 inst_rot_r_64 inst_set_lt_s inst_set_lt_u inst_shar_r_32 inst_shar_r_64
    inst_shlo_l_32 inst_shlo_l_64 inst_shlo_r_32 inst_shlo_r_64 inst_sub_32 inst_sub_64 inst_xnor
    inst_xor
three_register_rows-Keeps =
    three_registers-Keeps _ (λ a b p q. search word_results)
    ◂ three_registers-Keeps _ (λ a b p q. search word_results)
    ◂ three_registers-Keeps _ (λ a b p q. search word_results)
    ◂ three_registers-Keeps _ (λ a b p q. search word_results)
    ◂ three_registers-Keeps _ (λ a b p q. search word_results)
    ◂ three_registers-Keeps _ (λ a b p q. search word_results)
    ◂ three_registers-Keeps _ (λ a b p q. search word_results)
    ◂ three_registers-Keeps _ (λ a b p q. search word_results)
    ◂ three_registers-Keeps _ (λ a b p q. search word_results)
    ◂ three_registers-Keeps _ (λ a b p q. search word_results)
    ◂ three_registers-Keeps _ (λ a b p q. search word_results)
    ◂ three_registers-Keeps _ (λ a b p q. search word_results)
    ◂ three_registers-Keeps _ (λ a b p q. search word_results)
    ◂ three_registers-Keeps _ (λ a b p q. search word_results)
    ◂ three_registers-Keeps _ (λ a b p q. search word_results)
    ◂ three_registers-Keeps _ (λ a b p q. search word_results)
    ◂ three_registers-Keeps _ (λ a b p q. search word_results)
    ◂ three_registers-Keeps _ (λ a b p q. search word_results)
    ◂ three_registers-Keeps _ (λ a b p q. search word_results)
    ◂ three_registers-Keeps _ (λ a b p q. search word_results)
    ◂ three_registers-Keeps _ (λ a b p q. search word_results)
    ◂ three_registers-Keeps _ (λ a b p q. search word_results)
    ◂ three_registers-Keeps _ (λ a b p q. search word_results)
    ◂ three_registers-Keeps _ (λ a b p q. search word_results)
    ◂ three_registers-Keeps _ (λ a b p q. search word_results)
    ◂ three_registers-Keeps _ (λ a b p q. search word_results)
    ◂ three_registers-Keeps _ (λ a b p q. search word_results)
    ◂ three_registers-Keeps _ (λ a b p q. search word_results)
    ◂ inst_cmov_iz-Keeps
    ◂ inst_cmov_nz-Keeps
    ◂ three_registers-Keeps _ (λ a b p q. search word_results)
    ◂ three_registers-Keeps _ (λ a b p q. search word_results)
    ◂ three_registers-Keeps _ (λ a b p q. search word_results)
    ◂ three_registers-Keeps _ (λ a b p q. search word_results)
    ◂ three_registers-Keeps _ (λ a b p q. search word_results)
    ◂ three_registers-Keeps _ (λ a b p q. search word_results)
    ◂ three_registers-Keeps _ (λ a b p q. search word_results)
    ◂ three_registers-Keeps _ (λ a b p q. search word_results)
    ◂ three_registers-Keeps _ (λ a b p q. search word_results)
    ◂ three_registers-Keeps _ (λ a b p q. search word_results)
    ◂ three_registers-Keeps _ (λ a b p q. search word_results)
    ◂ no_rows
