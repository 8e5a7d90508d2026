-- ===== src/Pvm/Decoded/Agree/Registers.antt =====
-- The decoded register instructions agree with the direct ones.
use jam_protocol.Base.{ℕ, ◌%◌, ◌≡◌, refl, ap, ◌∙◌, lt→ltb, bit_and}
use jam_protocol.Pvm.State.{reg}
use jam_protocol.Pvm.Control.{two_reg, two_reg_one_imm, three_reg, category}
use jam_protocol.Pvm.Instr.{
  two_registers, two_registers_one_immediate, three_registers, write, on_error,
}
use jam_protocol.Base.Bits.{bit_and_mask}
use jam_protocol.Base.Words.{shl64, shr}
use jam_protocol.Pvm.Alu.{rotate_right64}
use jam_protocol.Pvm.Instr.Table.{two_register_rows, immediate_rows, three_register_rows}
use jam_protocol.Pvm.Decoded.Table.{
  meta_two_register_rows, meta_immediate_rows, meta_three_register_rows,
}
use jam_protocol.Pvm.Instr.TwoReg.{
  inst_count_set_bits_32, inst_count_set_bits_64, inst_leading_zero_bits_32,
  inst_leading_zero_bits_64, inst_move_reg, inst_reverse_bytes, inst_sbrk, inst_sign_extend_16,
  inst_sign_extend_8, inst_trail_zero_bits_32, inst_trail_zero_bits_64, inst_zero_extend_16, sbrk,
}
use jam_protocol.Pvm.Decoded.TwoReg.{
  meta_count_set_bits_32, meta_count_set_bits_64, meta_leading_zero_bits_32,
  meta_leading_zero_bits_64, meta_move_reg, meta_reverse_bytes, meta_sbrk, meta_sign_extend_16,
  meta_sign_extend_8, meta_trail_zero_bits_32, meta_trail_zero_bits_64, meta_zero_extend_16,
}
use jam_protocol.Pvm.Instr.Immediate.{
  inst_add_imm_32, inst_add_imm_64, inst_and_imm, inst_cmov_iz_imm, inst_cmov_nz_imm,
  inst_mul_imm_32, inst_mul_imm_64, inst_neg_add_imm_32, inst_neg_add_imm_64, inst_or_imm,
  inst_rot_r_32_imm, inst_rot_r_32_imm_alt, inst_rot_r_64_imm, inst_rot_r_64_imm_alt,
  inst_set_gt_s_imm, inst_set_gt_u_imm, inst_set_lt_s_imm, inst_set_lt_u_imm, inst_shar_r_imm_32,
  inst_shar_r_imm_64, inst_shar_r_imm_alt_32, inst_shar_r_imm_alt_64, inst_shlo_l_imm_32,
  inst_shlo_l_imm_64, inst_shlo_l_imm_alt_32, inst_shlo_l_imm_alt_64, inst_shlo_r_imm_32,
  inst_shlo_r_imm_64, inst_shlo_r_imm_alt_32, inst_shlo_r_imm_alt_64, inst_xor_imm,
}
use jam_protocol.Pvm.Decoded.Immediate.{
  meta_add_imm_32, meta_add_imm_64, meta_and_imm, meta_cmov_iz_imm, meta_cmov_nz_imm,
  meta_mul_imm_32, meta_mul_imm_64, meta_neg_add_imm_32, meta_neg_add_imm_64, meta_or_imm,
  meta_rot_r_32_imm, meta_rot_r_32_imm_alt, meta_rot_r_64_imm, meta_rot_r_64_imm_alt,
  meta_set_gt_s_imm, meta_set_gt_u_imm, meta_set_lt_s_imm, meta_set_lt_u_imm, meta_shar_r_imm_32,
  meta_shar_r_imm_64, meta_shar_r_imm_alt_32, meta_shar_r_imm_alt_64, meta_shlo_l_imm_32,
  meta_shlo_l_imm_64, meta_shlo_l_imm_alt_32, meta_shlo_l_imm_alt_64, meta_shlo_r_imm_32,
  meta_shlo_r_imm_64, meta_shlo_r_imm_alt_32, meta_shlo_r_imm_alt_64, meta_xor_imm,
}
use jam_protocol.Pvm.Instr.ThreeReg.{
  inst_add_32, inst_add_64, inst_and, inst_and_inv, inst_cmov_iz, inst_cmov_nz, inst_div_s_32,
  inst_div_s_64, inst_div_u_32, inst_div_u_64, inst_max, inst_max_u, inst_min, inst_min_u,
  inst_mul_32, inst_mul_64, inst_mul_upper_s_s, inst_mul_upper_s_u, inst_mul_upper_u_u, inst_or,
  inst_or_inv, inst_rem_s_32, inst_rem_s_64, inst_rem_u_32, inst_rem_u_64, inst_rot_l_32,
  inst_rot_l_64, inst_rot_r_32, inst_rot_r_64, inst_set_lt_s, inst_set_lt_u, inst_shar_r_32,
  inst_shar_r_64, inst_shlo_l_32, inst_shlo_l_64, inst_shlo_r_32, inst_shlo_r_64, inst_sub_32,
  inst_sub_64, inst_xnor, inst_xor,
}
use jam_protocol.Pvm.Decoded.ThreeReg.{
  meta_add_32, meta_add_64, meta_and, meta_and_inv, meta_cmov_iz, meta_cmov_nz, meta_div_s_32,
  meta_div_s_64, meta_div_u_32, meta_div_u_64, meta_max, meta_max_u, meta_min, meta_min_u,
  meta_mul_32, meta_mul_64, meta_mul_upper_s_s, meta_mul_upper_s_u, meta_mul_upper_u_u, meta_or,
  meta_or_inv, meta_rem_s_32, meta_rem_s_64, meta_rem_u_32, meta_rem_u_64, meta_rot_l_32,
  meta_rot_l_64, meta_rot_r_32, meta_rot_r_64, meta_set_lt_s, meta_set_lt_u, meta_shar_r_32,
  meta_shar_r_64, meta_shlo_l_32, meta_shlo_l_64, meta_shlo_r_32, meta_shlo_r_64, meta_sub_32,
  meta_sub_64, meta_xnor, meta_xor,
}
use jam_protocol.Pvm.Decoded.{
  takes_operands, fill_operands, meta_two_registers, meta_two_registers_one_immediate,
  meta_three_registers,
}
use jam_protocol.Pvm.Decoded.Agree.{Agrees, Alike, no_more, ◌≈◌}
use jam_protocol.Pvm.Decoded.Agree.Filled.{of_category, run_filled, on_ok-done}
use jam_protocol.Pvm.Decoded.Agree.Operands.{
  of_done, two_registers-Regs, two_registers_and_one_immediate-Regs, three_registers-Regs,
}

two_reg-Agrees :
    (op : ℕ) (f : ℕ → ℕ)
    → category op ≡ two_reg
    → Agrees op (λ s pc skip. two_registers s pc f) (λ s i. meta_two_registers s i f)
unfolding fill_operands takes_operands two_registers meta_two_registers
two_reg-Agrees op f is_c s pc skip i =
    let ((rd, ra), e) = of_category s pc op skip two_reg is_c i in
    let regs = of_done _ _ (rd, ra) (two_registers-Regs s.program.code pc) e in
    run_filled _ s pc op skip two_reg _ is_c refl i (on_ok-done _ _ _ _ e)
    ∙ rw (e, lt→ltb rd 13 regs.0, lt→ltb ra 13 regs.1) refl

two_reg_one_imm-Agrees :
    (op : ℕ) (f g : ℕ → ℕ → ℕ)
    → category op ≡ two_reg_one_imm
    → ((a v : ℕ) → g a v ≡ f a v)
    → Agrees op
        (λ s pc skip. two_registers_one_immediate s pc skip f)
        (λ s i. meta_two_registers_one_immediate s i g)
unfolding fill_operands takes_operands two_registers_one_immediate meta_two_registers_one_immediate
two_reg_one_imm-Agrees op f g is_c same s pc skip i =
    let ((ra, rb, vx), e) = of_category s pc op skip two_reg_one_imm is_c i in
    let regs =
      of_done _ _ (ra, rb, vx) (two_registers_and_one_immediate-Regs s.program.code pc skip) e in
    run_filled _ s pc op skip two_reg_one_imm _ is_c refl i (on_ok-done _ _ _ _ e)
    ∙ rw (e, lt→ltb ra 13 regs.0, lt→ltb rb 13 regs.1, same (reg s rb) vx) refl

three_reg-Agrees :
    (op : ℕ) (f : ℕ → ℕ → ℕ)
    → category op ≡ three_reg
    → Agrees op (λ s pc skip. three_registers s pc f) (λ s i. meta_three_registers s i f)
unfolding fill_operands takes_operands three_registers meta_three_registers
three_reg-Agrees op f is_c s pc skip i =
    let ((ra, rb, rd), e) = of_category s pc op skip three_reg is_c i in
    let regs = of_done _ _ (ra, rb, rd) (three_registers-Regs s.program.code pc) e in
    run_filled _ s pc op skip three_reg _ is_c refl i (on_ok-done _ _ _ _ e)
    ∙ rw (e, lt→ltb ra 13 regs.0, lt→ltb rb 13 regs.1, lt→ltb rd 13 regs.2) refl

sbrk-Agrees : Agrees 101 inst_sbrk meta_sbrk
unfolding category fill_operands takes_operands inst_sbrk meta_sbrk sbrk on_error
sbrk-Agrees s pc skip i =
    let ((rd, ra), e) = i.decodes in
    let regs = of_done _ _ (rd, ra) (two_registers-Regs s.program.code pc) e in
    run_filled _ s pc 101 skip two_reg _ refl refl i (on_ok-done _ _ _ _ e)
    ∙ rw (e, lt→ltb rd 13 regs.0, lt→ltb ra 13 regs.1) refl

cmov_iz_imm-Agrees : Agrees 147 inst_cmov_iz_imm meta_cmov_iz_imm
unfolding category fill_operands takes_operands inst_cmov_iz_imm meta_cmov_iz_imm write on_error
cmov_iz_imm-Agrees s pc skip i =
    let ((ra, rb, vx), e) = i.decodes in
    let regs =
      of_done _ _ (ra, rb, vx) (two_registers_and_one_immediate-Regs s.program.code pc skip) e in
    run_filled _ s pc 147 skip two_reg_one_imm _ refl refl i (on_ok-done _ _ _ _ e)
    ∙ rw (e, lt→ltb ra 13 regs.0, lt→ltb rb 13 regs.1) refl

cmov_nz_imm-Agrees : Agrees 148 inst_cmov_nz_imm meta_cmov_nz_imm
unfolding category fill_operands takes_operands inst_cmov_nz_imm meta_cmov_nz_imm write on_error
cmov_nz_imm-Agrees s pc skip i =
    let ((ra, rb, vx), e) = i.decodes in
    let regs =
      of_done _ _ (ra, rb, vx) (two_registers_and_one_immediate-Regs s.program.code pc skip) e in
    run_filled _ s pc 148 skip two_reg_one_imm _ refl refl i (on_ok-done _ _ _ _ e)
    ∙ rw (e, lt→ltb ra 13 regs.0, lt→ltb rb 13 regs.1) refl

cmov_iz-Agrees : Agrees 218 inst_cmov_iz meta_cmov_iz
unfolding category fill_operands takes_operands inst_cmov_iz meta_cmov_iz write on_error
cmov_iz-Agrees s pc skip i =
    let ((ra, rb, rd), e) = i.decodes in
    let regs = of_done _ _ (ra, rb, rd) (three_registers-Regs s.program.code pc) e in
    run_filled _ s pc 218 skip three_reg _ refl refl i (on_ok-done _ _ _ _ e)
    ∙ rw (e, lt→ltb ra 13 regs.0, lt→ltb rb 13 regs.1, lt→ltb rd 13 regs.2) refl

cmov_nz-Agrees : Agrees 219 inst_cmov_nz meta_cmov_nz
unfolding category fill_operands takes_operands inst_cmov_nz meta_cmov_nz write on_error
cmov_nz-Agrees s pc skip i =
    let ((ra, rb, rd), e) = i.decodes in
    let regs = of_done _ _ (ra, rb, rd) (three_registers-Regs s.program.code pc) e in
    run_filled _ s pc 219 skip three_reg _ refl refl i (on_ok-done _ _ _ _ e)
    ∙ rw (e, lt→ltb ra 13 regs.0, lt→ltb rb 13 regs.1, lt→ltb rd 13 regs.2) refl

mask_63 : (x : ℕ) → bit_and x 63 ≡ x % 64
mask_63 x = bit_and_mask 6 x

pub two_register_rows-Alike : Alike two_register_rows meta_two_register_rows
unfolding category two_register_rows meta_two_register_rows inst_move_reg meta_move_reg
    inst_count_set_bits_64 meta_count_set_bits_64 inst_count_set_bits_32 meta_count_set_bits_32
    inst_leading_zero_bits_64 meta_leading_zero_bits_64 inst_leading_zero_bits_32
    meta_leading_zero_bits_32 inst_trail_zero_bits_64 meta_trail_zero_bits_64
    inst_trail_zero_bits_32 meta_trail_zero_bits_32 inst_sign_extend_8 meta_sign_extend_8
    inst_sign_extend_16 meta_sign_extend_16 inst_zero_extend_16 meta_zero_extend_16
    inst_reverse_bytes meta_reverse_bytes
two_register_rows-Alike =
    two_reg-Agrees _ _ refl
    ≈ sbrk-Agrees
    ≈ two_reg-Agrees _ _ refl
    ≈ two_reg-Agrees _ _ refl
    ≈ two_reg-Agrees _ _ refl
    ≈ two_reg-Agrees _ _ refl
    ≈ two_reg-Agrees _ _ refl
    ≈ two_reg-Agrees _ _ refl
    ≈ two_reg-Agrees _ _ refl
    ≈ two_reg-Agrees _ _ refl
    ≈ two_reg-Agrees _ _ refl
    ≈ two_reg-Agrees _ _ refl
    ≈ no_more

pub immediate_rows-Alike : Alike immediate_rows meta_immediate_rows
unfolding category immediate_rows meta_immediate_rows inst_add_imm_32 meta_add_imm_32 inst_and_imm
    meta_and_imm inst_xor_imm meta_xor_imm inst_or_imm meta_or_imm inst_mul_imm_32 meta_mul_imm_32
    inst_set_lt_u_imm meta_set_lt_u_imm inst_set_lt_s_imm meta_set_lt_s_imm inst_shlo_l_imm_32
    meta_shlo_l_imm_32 inst_shlo_r_imm_32 meta_shlo_r_imm_32 inst_shar_r_imm_32 meta_shar_r_imm_32
    inst_neg_add_imm_32 meta_neg_add_imm_32 inst_set_gt_u_imm meta_set_gt_u_imm inst_set_gt_s_imm
    meta_set_gt_s_imm inst_shlo_l_imm_alt_32 meta_shlo_l_imm_alt_32 inst_shlo_r_imm_alt_32
    meta_shlo_r_imm_alt_32 inst_shar_r_imm_alt_32 meta_shar_r_imm_alt_32 inst_add_imm_64
    meta_add_imm_64 inst_mul_imm_64 meta_mul_imm_64 inst_shlo_l_imm_64 meta_shlo_l_imm_64
    inst_shlo_r_imm_64 meta_shlo_r_imm_64 inst_shar_r_imm_64 meta_shar_r_imm_64 inst_neg_add_imm_64
    meta_neg_add_imm_64 inst_shlo_l_imm_alt_64 meta_shlo_l_imm_alt_64 inst_shlo_r_imm_alt_64
    meta_shlo_r_imm_alt_64 inst_shar_r_imm_alt_64 meta_shar_r_imm_alt_64 inst_rot_r_64_imm
    meta_rot_r_64_imm inst_rot_r_64_imm_alt meta_rot_r_64_imm_alt inst_rot_r_32_imm
    meta_rot_r_32_imm inst_rot_r_32_imm_alt meta_rot_r_32_imm_alt
immediate_rows-Alike =
    two_reg_one_imm-Agrees _ _ _ refl (λ a v. refl)
    ≈ two_reg_one_imm-Agrees _ _ _ refl (λ a v. refl)
    ≈ two_reg_one_imm-Agrees _ _ _ refl (λ a v. refl)
    ≈ two_reg_one_imm-Agrees _ _ _ refl (λ a v. refl)
    ≈ two_reg_one_imm-Agrees _ _ _ refl (λ a v. refl)
    ≈ two_reg_one_imm-Agrees _ _ _ refl (λ a v. refl)
    ≈ two_reg_one_imm-Agrees _ _ _ refl (λ a v. refl)
    ≈ two_reg_one_imm-Agrees _ _ _ refl (λ a v. refl)
    ≈ two_reg_one_imm-Agrees _ _ _ refl (λ a v. refl)
    ≈ two_reg_one_imm-Agrees _ _ _ refl (λ a v. refl)
    ≈ two_reg_one_imm-Agrees _ _ _ refl (λ a v. refl)
    ≈ two_reg_one_imm-Agrees _ _ _ refl (λ a v. refl)
    ≈ two_reg_one_imm-Agrees _ _ _ refl (λ a v. refl)
    ≈ two_reg_one_imm-Agrees _ _ _ refl (λ a v. refl)
    ≈ two_reg_one_imm-Agrees _ _ _ refl (λ a v. refl)
    ≈ two_reg_one_imm-Agrees _ _ _ refl (λ a v. refl)
    ≈ cmov_iz_imm-Agrees
    ≈ cmov_nz_imm-Agrees
    ≈ two_reg_one_imm-Agrees _ _ _ refl (λ a v. refl)
    ≈ two_reg_one_imm-Agrees _ _ _ refl (λ a v. refl)
    ≈ two_reg_one_imm-Agrees _ _ _ refl (λ a v. ap (shl64 a) (mask_63 v))
    ≈ two_reg_one_imm-Agrees _ _ _ refl (λ a v. ap (shr a) (mask_63 v))
    ≈ two_reg_one_imm-Agrees _ _ _ refl (λ a v. refl)
    ≈ two_reg_one_imm-Agrees _ _ _ refl (λ a v. refl)
    ≈ two_reg_one_imm-Agrees _ _ _ refl (λ a v. refl)
    ≈ two_reg_one_imm-Agrees _ _ _ refl (λ a v. refl)
    ≈ two_reg_one_imm-Agrees _ _ _ refl (λ a v. refl)
    ≈ two_reg_one_imm-Agrees _ _ _ refl (λ a v. refl)
    ≈ two_reg_one_imm-Agrees _ _ _ refl (λ a v. ap (rotate_right64 v) (mask_63 a))
    ≈ two_reg_one_imm-Agrees _ _ _ refl (λ a v. refl)
    ≈ two_reg_one_imm-Agrees _ _ _ refl (λ a v. refl)
    ≈ no_more

pub three_register_rows-Alike : Alike three_register_rows meta_three_register_rows
unfolding category three_register_rows meta_three_register_rows inst_add_32 meta_add_32 inst_sub_32
    meta_sub_32 inst_mul_32 meta_mul_32 inst_div_u_32 meta_div_u_32 inst_div_s_32 meta_div_s_32
    inst_rem_u_32 meta_rem_u_32 inst_rem_s_32 meta_rem_s_32 inst_shlo_l_32 meta_shlo_l_32
    inst_shlo_r_32 meta_shlo_r_32 inst_shar_r_32 meta_shar_r_32 inst_add_64 meta_add_64 inst_sub_64
    meta_sub_64 inst_mul_64 meta_mul_64 inst_div_u_64 meta_div_u_64 inst_div_s_64 meta_div_s_64
    inst_rem_u_64 meta_rem_u_64 inst_rem_s_64 meta_rem_s_64 inst_shlo_l_64 meta_shlo_l_64
    inst_shlo_r_64 meta_shlo_r_64 inst_shar_r_64 meta_shar_r_64 inst_and meta_and inst_xor meta_xor
    inst_or meta_or inst_mul_upper_s_s meta_mul_upper_s_s inst_mul_upper_u_u meta_mul_upper_u_u
    inst_mul_upper_s_u meta_mul_upper_s_u inst_set_lt_u meta_set_lt_u inst_set_lt_s meta_set_lt_s
    inst_rot_l_64 meta_rot_l_64 inst_rot_l_32 meta_rot_l_32 inst_rot_r_64 meta_rot_r_64
    inst_rot_r_32 meta_rot_r_32 inst_and_inv meta_and_inv inst_or_inv meta_or_inv inst_xnor
    meta_xnor inst_max meta_max inst_max_u meta_max_u inst_min meta_min inst_min_u meta_min_u
three_register_rows-Alike =
    three_reg-Agrees _ _ refl
    ≈ three_reg-Agrees _ _ refl
    ≈ three_reg-Agrees _ _ refl
    ≈ three_reg-Agrees _ _ refl
    ≈ three_reg-Agrees _ _ refl
    ≈ three_reg-Agrees _ _ refl
    ≈ three_reg-Agrees _ _ refl
    ≈ three_reg-Agrees _ _ refl
    ≈ three_reg-Agrees _ _ refl
    ≈ three_reg-Agrees _ _ refl
    ≈ three_reg-Agrees _ _ refl
    ≈ three_reg-Agrees _ _ refl
    ≈ three_reg-Agrees _ _ refl
    ≈ three_reg-Agrees _ _ refl
    ≈ three_reg-Agrees _ _ refl
    ≈ three_reg-Agrees _ _ refl
    ≈ three_reg-Agrees _ _ refl
    ≈ three_reg-Agrees _ _ refl
    ≈ three_reg-Agrees _ _ refl
    ≈ three_reg-Agrees _ _ refl
    ≈ three_reg-Agrees _ _ refl
    ≈ three_reg-Agrees _ _ refl
    ≈ three_reg-Agrees _ _ refl
    ≈ three_reg-Agrees _ _ refl
    ≈ three_reg-Agrees _ _ refl
    ≈ three_reg-Agrees _ _ refl
    ≈ three_reg-Agrees _ _ refl
    ≈ three_reg-Agrees _ _ refl
    ≈ cmov_iz-Agrees
    ≈ cmov_nz-Agrees
    ≈ three_reg-Agrees _ _ refl
    ≈ three_reg-Agrees _ _ refl
    ≈ three_reg-Agrees _ _ refl
    ≈ three_reg-Agrees _ _ refl
    ≈ three_reg-Agrees _ _ refl
    ≈ three_reg-Agrees _ _ refl
    ≈ three_reg-Agrees _ _ refl
    ≈ three_reg-Agrees _ _ refl
    ≈ three_reg-Agrees _ _ refl
    ≈ three_reg-Agrees _ _ refl
    ≈ three_reg-Agrees _ _ refl
    ≈ no_more
