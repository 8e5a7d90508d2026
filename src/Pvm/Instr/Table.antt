-- ===== src/Pvm/Instr/Table.antt =====
-- `execInstructions`: the handler of each opcode.
use jam_protocol.Base.{ℕ, Option, none, some, List, [], ◌∷◌, ◌==◌, if◌then◌else◌}
use jam_protocol.Pvm.State.{Handler}
use jam_protocol.Pvm.Instr.Basic.{
  inst_branch, inst_ecalli, inst_fallthrough, inst_immediate_branch, inst_jump, inst_jump_ind,
  inst_load_imm, inst_load_imm_64, inst_load_imm_jump_ind, inst_trap,
}
use jam_protocol.Pvm.Instr.Access.{
  inst_load_i16, inst_load_i32, inst_load_i8, inst_load_ind_i16, inst_load_ind_i32,
  inst_load_ind_i8, inst_load_ind_u16, inst_load_ind_u32, inst_load_ind_u64, inst_load_ind_u8,
  inst_load_u16, inst_load_u32, inst_load_u64, inst_load_u8, inst_store_imm_ind_u16,
  inst_store_imm_ind_u32, inst_store_imm_ind_u64, inst_store_imm_ind_u8, inst_store_imm_u16,
  inst_store_imm_u32, inst_store_imm_u64, inst_store_imm_u8, inst_store_ind_u16, inst_store_ind_u32,
  inst_store_ind_u64, inst_store_ind_u8, inst_store_u16, inst_store_u32, inst_store_u64,
  inst_store_u8,
}
use jam_protocol.Pvm.Instr.TwoReg.{
  inst_count_set_bits_32, inst_count_set_bits_64, inst_leading_zero_bits_32,
  inst_leading_zero_bits_64, inst_move_reg, inst_reverse_bytes, inst_sbrk, inst_sign_extend_16,
  inst_sign_extend_8, inst_trail_zero_bits_32, inst_trail_zero_bits_64, inst_zero_extend_16,
}
use jam_protocol.Pvm.Instr.Immediate.{
  inst_add_imm_32, inst_add_imm_64, inst_and_imm, inst_cmov_iz_imm, inst_cmov_nz_imm,
  inst_mul_imm_32, inst_mul_imm_64, inst_neg_add_imm_32, inst_neg_add_imm_64, inst_or_imm,
  inst_rot_r_32_imm, inst_rot_r_32_imm_alt, inst_rot_r_64_imm, inst_rot_r_64_imm_alt,
  inst_set_gt_s_imm, inst_set_gt_u_imm, inst_set_lt_s_imm, inst_set_lt_u_imm, inst_shar_r_imm_32,
  inst_shar_r_imm_64, inst_shar_r_imm_alt_32, inst_shar_r_imm_alt_64, inst_shlo_l_imm_32,
  inst_shlo_l_imm_64, inst_shlo_l_imm_alt_32, inst_shlo_l_imm_alt_64, inst_shlo_r_imm_32,
  inst_shlo_r_imm_64, inst_shlo_r_imm_alt_32, inst_shlo_r_imm_alt_64, inst_xor_imm,
}
use jam_protocol.Pvm.Instr.ThreeReg.{
  inst_add_32, inst_add_64, inst_and, inst_and_inv, inst_cmov_iz, inst_cmov_nz, inst_div_s_32,
  inst_div_s_64, inst_div_u_32, inst_div_u_64, inst_max, inst_max_u, inst_min, inst_min_u,
  inst_mul_32, inst_mul_64, inst_mul_upper_s_s, inst_mul_upper_s_u, inst_mul_upper_u_u, inst_or,
  inst_or_inv, inst_rem_s_32, inst_rem_s_64, inst_rem_u_32, inst_rem_u_64, inst_rot_l_32,
  inst_rot_l_64, inst_rot_r_32, inst_rot_r_64, inst_set_lt_s, inst_set_lt_u, inst_shar_r_32,
  inst_shar_r_64, inst_shlo_l_32, inst_shlo_l_64, inst_shlo_r_32, inst_shlo_r_64, inst_sub_32,
  inst_sub_64, inst_xnor, inst_xor,
}

-- The rows by the parts of the table.
unfoldable pub control_rows : List (ℕ × Handler)
control_rows =
    (0, inst_trap)
    ∷ (1, inst_fallthrough)
    ∷ (10, inst_ecalli)
    ∷ (20, inst_load_imm_64)
    ∷ (40, inst_jump)
    ∷ (50, inst_jump_ind)
    ∷ (51, inst_load_imm)
    ∷ (80, inst_immediate_branch)
    ∷ (81, inst_immediate_branch)
    ∷ (82, inst_immediate_branch)
    ∷ (83, inst_immediate_branch)
    ∷ (84, inst_immediate_branch)
    ∷ (85, inst_immediate_branch)
    ∷ (86, inst_immediate_branch)
    ∷ (87, inst_immediate_branch)
    ∷ (88, inst_immediate_branch)
    ∷ (89, inst_immediate_branch)
    ∷ (90, inst_immediate_branch)
    ∷ (170, inst_branch)
    ∷ (171, inst_branch)
    ∷ (172, inst_branch)
    ∷ (173, inst_branch)
    ∷ (174, inst_branch)
    ∷ (175, inst_branch)
    ∷ (180, inst_load_imm_jump_ind)
    ∷ []

unfoldable pub access_rows : List (ℕ × Handler)
access_rows =
    (30, inst_store_imm_u8)
    ∷ (31, inst_store_imm_u16)
    ∷ (32, inst_store_imm_u32)
    ∷ (33, inst_store_imm_u64)
    ∷ (52, inst_load_u8)
    ∷ (53, inst_load_i8)
    ∷ (54, inst_load_u16)
    ∷ (55, inst_load_i16)
    ∷ (56, inst_load_u32)
    ∷ (57, inst_load_i32)
    ∷ (58, inst_load_u64)
    ∷ (59, inst_store_u8)
    ∷ (60, inst_store_u16)
    ∷ (61, inst_store_u32)
    ∷ (62, inst_store_u64)
    ∷ (70, inst_store_imm_ind_u8)
    ∷ (71, inst_store_imm_ind_u16)
    ∷ (72, inst_store_imm_ind_u32)
    ∷ (73, inst_store_imm_ind_u64)
    ∷ (120, inst_store_ind_u8)
    ∷ (121, inst_store_ind_u16)
    ∷ (122, inst_store_ind_u32)
    ∷ (123, inst_store_ind_u64)
    ∷ (124, inst_load_ind_u8)
    ∷ (125, inst_load_ind_i8)
    ∷ (126, inst_load_ind_u16)
    ∷ (127, inst_load_ind_i16)
    ∷ (128, inst_load_ind_u32)
    ∷ (129, inst_load_ind_i32)
    ∷ (130, inst_load_ind_u64)
    ∷ []

unfoldable pub two_register_rows : List (ℕ × Handler)
two_register_rows =
    (100, inst_move_reg)
    ∷ (101, inst_sbrk)
    ∷ (102, inst_count_set_bits_64)
    ∷ (103, inst_count_set_bits_32)
    ∷ (104, inst_leading_zero_bits_64)
    ∷ (105, inst_leading_zero_bits_32)
    ∷ (106, inst_trail_zero_bits_64)
    ∷ (107, inst_trail_zero_bits_32)
    ∷ (108, inst_sign_extend_8)
    ∷ (109, inst_sign_extend_16)
    ∷ (110, inst_zero_extend_16)
    ∷ (111, inst_reverse_bytes)
    ∷ []

unfoldable pub immediate_rows : List (ℕ × Handler)
immediate_rows =
    (131, inst_add_imm_32)
    ∷ (132, inst_and_imm)
    ∷ (133, inst_xor_imm)
    ∷ (134, inst_or_imm)
    ∷ (135, inst_mul_imm_32)
    ∷ (136, inst_set_lt_u_imm)
    ∷ (137, inst_set_lt_s_imm)
    ∷ (138, inst_shlo_l_imm_32)
    ∷ (139, inst_shlo_r_imm_32)
    ∷ (140, inst_shar_r_imm_32)
    ∷ (141, inst_neg_add_imm_32)
    ∷ (142, inst_set_gt_u_imm)
    ∷ (143, inst_set_gt_s_imm)
    ∷ (144, inst_shlo_l_imm_alt_32)
    ∷ (145, inst_shlo_r_imm_alt_32)
    ∷ (146, inst_shar_r_imm_alt_32)
    ∷ (147, inst_cmov_iz_imm)
    ∷ (148, inst_cmov_nz_imm)
    ∷ (149, inst_add_imm_64)
    ∷ (150, inst_mul_imm_64)
    ∷ (151, inst_shlo_l_imm_64)
    ∷ (152, inst_shlo_r_imm_64)
    ∷ (153, inst_shar_r_imm_64)
    ∷ (154, inst_neg_add_imm_64)
    ∷ (155, inst_shlo_l_imm_alt_64)
    ∷ (156, inst_shlo_r_imm_alt_64)
    ∷ (157, inst_shar_r_imm_alt_64)
    ∷ (158, inst_rot_r_64_imm)
    ∷ (159, inst_rot_r_64_imm_alt)
    ∷ (160, inst_rot_r_32_imm)
    ∷ (161, inst_rot_r_32_imm_alt)
    ∷ []

unfoldable pub three_register_rows : List (ℕ × Handler)
three_register_rows =
    (190, inst_add_32)
    ∷ (191, inst_sub_32)
    ∷ (192, inst_mul_32)
    ∷ (193, inst_div_u_32)
    ∷ (194, inst_div_s_32)
    ∷ (195, inst_rem_u_32)
    ∷ (196, inst_rem_s_32)
    ∷ (197, inst_shlo_l_32)
    ∷ (198, inst_shlo_r_32)
    ∷ (199, inst_shar_r_32)
    ∷ (200, inst_add_64)
    ∷ (201, inst_sub_64)
    ∷ (202, inst_mul_64)
    ∷ (203, inst_div_u_64)
    ∷ (204, inst_div_s_64)
    ∷ (205, inst_rem_u_64)
    ∷ (206, inst_rem_s_64)
    ∷ (207, inst_shlo_l_64)
    ∷ (208, inst_shlo_r_64)
    ∷ (209, inst_shar_r_64)
    ∷ (210, inst_and)
    ∷ (211, inst_xor)
    ∷ (212, inst_or)
    ∷ (213, inst_mul_upper_s_s)
    ∷ (214, inst_mul_upper_u_u)
    ∷ (215, inst_mul_upper_s_u)
    ∷ (216, inst_set_lt_u)
    ∷ (217, inst_set_lt_s)
    ∷ (218, inst_cmov_iz)
    ∷ (219, inst_cmov_nz)
    ∷ (220, inst_rot_l_64)
    ∷ (221, inst_rot_l_32)
    ∷ (222, inst_rot_r_64)
    ∷ (223, inst_rot_r_32)
    ∷ (224, inst_and_inv)
    ∷ (225, inst_or_inv)
    ∷ (226, inst_xnor)
    ∷ (227, inst_max)
    ∷ (228, inst_max_u)
    ∷ (229, inst_min)
    ∷ (230, inst_min_u)
    ∷ []

unfoldable pub find_handler : ℕ → List (ℕ × Handler) → Option Handler
find_handler op [] = none
find_handler op ((k, h) ∷ rows) = if k == op then some h else find_handler op rows

unfoldable pub or_else : Option Handler → Option Handler → Option Handler
or_else none other = other
or_else (some h) other = some h

-- `none` is an entry that the table leaves nil.
unfoldable pub exec_instructions : ℕ → Option Handler
unfolding find_handler or_else
exec_instructions op = or_else (find_handler op control_rows) (
    or_else (find_handler op access_rows) (
      or_else (find_handler op two_register_rows)
        (or_else (find_handler op immediate_rows) (find_handler op three_register_rows))))
