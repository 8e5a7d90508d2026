-- ===== src/Pvm/Decoded/Table.antt =====
-- `instrMetaExecForOpcode`: the decoded handler of each opcode, by the parts of the direct table.
use jam_protocol.Base.{ℕ, Option, none, some, List, [], ◌∷◌, ◌==◌, if◌then◌else◌}
use jam_protocol.Pvm.Decoded.{MetaHandler}
use jam_protocol.Pvm.Decoded.Basic.{
  meta_branch, meta_ecalli, meta_fallthrough, meta_immediate_branch, meta_jump, meta_jump_ind,
  meta_load_imm, meta_load_imm_64, meta_load_imm_jump_ind, meta_trap,
}
use jam_protocol.Pvm.Decoded.Access.{
  meta_load_i16, meta_load_i32, meta_load_i8, meta_load_ind_i16, meta_load_ind_i32,
  meta_load_ind_i8, meta_load_ind_u16, meta_load_ind_u32, meta_load_ind_u64, meta_load_ind_u8,
  meta_load_u16, meta_load_u32, meta_load_u64, meta_load_u8, meta_store_imm_ind_u16,
  meta_store_imm_ind_u32, meta_store_imm_ind_u64, meta_store_imm_ind_u8, meta_store_imm_u16,
  meta_store_imm_u32, meta_store_imm_u64, meta_store_imm_u8, meta_store_ind_u16, meta_store_ind_u32,
  meta_store_ind_u64, meta_store_ind_u8, meta_store_u16, meta_store_u32, meta_store_u64,
  meta_store_u8,
}
use jam_protocol.Pvm.Decoded.TwoReg.{
  meta_count_set_bits_32, meta_count_set_bits_64, meta_leading_zero_bits_32,
  meta_leading_zero_bits_64, meta_move_reg, meta_reverse_bytes, meta_sbrk, meta_sign_extend_16,
  meta_sign_extend_8, meta_trail_zero_bits_32, meta_trail_zero_bits_64, meta_zero_extend_16,
}
use jam_protocol.Pvm.Decoded.Immediate.{
  meta_add_imm_32, meta_add_imm_64, meta_and_imm, meta_cmov_iz_imm, meta_cmov_nz_imm,
  meta_mul_imm_32, meta_mul_imm_64, meta_neg_add_imm_32, meta_neg_add_imm_64, meta_or_imm,
  meta_rot_r_32_imm, meta_rot_r_32_imm_alt, meta_rot_r_64_imm, meta_rot_r_64_imm_alt,
  meta_set_gt_s_imm, meta_set_gt_u_imm, meta_set_lt_s_imm, meta_set_lt_u_imm, meta_shar_r_imm_32,
  meta_shar_r_imm_64, meta_shar_r_imm_alt_32, meta_shar_r_imm_alt_64, meta_shlo_l_imm_32,
  meta_shlo_l_imm_64, meta_shlo_l_imm_alt_32, meta_shlo_l_imm_alt_64, meta_shlo_r_imm_32,
  meta_shlo_r_imm_64, meta_shlo_r_imm_alt_32, meta_shlo_r_imm_alt_64, meta_xor_imm,
}
use jam_protocol.Pvm.Decoded.ThreeReg.{
  meta_add_32, meta_add_64, meta_and, meta_and_inv, meta_cmov_iz, meta_cmov_nz, meta_div_s_32,
  meta_div_s_64, meta_div_u_32, meta_div_u_64, meta_max, meta_max_u, meta_min, meta_min_u,
  meta_mul_32, meta_mul_64, meta_mul_upper_s_s, meta_mul_upper_s_u, meta_mul_upper_u_u, meta_or,
  meta_or_inv, meta_rem_s_32, meta_rem_s_64, meta_rem_u_32, meta_rem_u_64, meta_rot_l_32,
  meta_rot_l_64, meta_rot_r_32, meta_rot_r_64, meta_set_lt_s, meta_set_lt_u, meta_shar_r_32,
  meta_shar_r_64, meta_shlo_l_32, meta_shlo_l_64, meta_shlo_r_32, meta_shlo_r_64, meta_sub_32,
  meta_sub_64, meta_xnor, meta_xor,
}

unfoldable pub meta_control_rows : List (ℕ × MetaHandler)
meta_control_rows =
    (0, meta_trap)
    ∷ (1, meta_fallthrough)
    ∷ (10, meta_ecalli)
    ∷ (20, meta_load_imm_64)
    ∷ (40, meta_jump)
    ∷ (50, meta_jump_ind)
    ∷ (51, meta_load_imm)
    ∷ (80, meta_immediate_branch)
    ∷ (81, meta_immediate_branch)
    ∷ (82, meta_immediate_branch)
    ∷ (83, meta_immediate_branch)
    ∷ (84, meta_immediate_branch)
    ∷ (85, meta_immediate_branch)
    ∷ (86, meta_immediate_branch)
    ∷ (87, meta_immediate_branch)
    ∷ (88, meta_immediate_branch)
    ∷ (89, meta_immediate_branch)
    ∷ (90, meta_immediate_branch)
    ∷ (170, meta_branch)
    ∷ (171, meta_branch)
    ∷ (172, meta_branch)
    ∷ (173, meta_branch)
    ∷ (174, meta_branch)
    ∷ (175, meta_branch)
    ∷ (180, meta_load_imm_jump_ind)
    ∷ []

unfoldable pub meta_access_rows : List (ℕ × MetaHandler)
meta_access_rows =
    (30, meta_store_imm_u8)
    ∷ (31, meta_store_imm_u16)
    ∷ (32, meta_store_imm_u32)
    ∷ (33, meta_store_imm_u64)
    ∷ (52, meta_load_u8)
    ∷ (53, meta_load_i8)
    ∷ (54, meta_load_u16)
    ∷ (55, meta_load_i16)
    ∷ (56, meta_load_u32)
    ∷ (57, meta_load_i32)
    ∷ (58, meta_load_u64)
    ∷ (59, meta_store_u8)
    ∷ (60, meta_store_u16)
    ∷ (61, meta_store_u32)
    ∷ (62, meta_store_u64)
    ∷ (70, meta_store_imm_ind_u8)
    ∷ (71, meta_store_imm_ind_u16)
    ∷ (72, meta_store_imm_ind_u32)
    ∷ (73, meta_store_imm_ind_u64)
    ∷ (120, meta_store_ind_u8)
    ∷ (121, meta_store_ind_u16)
    ∷ (122, meta_store_ind_u32)
    ∷ (123, meta_store_ind_u64)
    ∷ (124, meta_load_ind_u8)
    ∷ (125, meta_load_ind_i8)
    ∷ (126, meta_load_ind_u16)
    ∷ (127, meta_load_ind_i16)
    ∷ (128, meta_load_ind_u32)
    ∷ (129, meta_load_ind_i32)
    ∷ (130, meta_load_ind_u64)
    ∷ []

unfoldable pub meta_two_register_rows : List (ℕ × MetaHandler)
meta_two_register_rows =
    (100, meta_move_reg)
    ∷ (101, meta_sbrk)
    ∷ (102, meta_count_set_bits_64)
    ∷ (103, meta_count_set_bits_32)
    ∷ (104, meta_leading_zero_bits_64)
    ∷ (105, meta_leading_zero_bits_32)
    ∷ (106, meta_trail_zero_bits_64)
    ∷ (107, meta_trail_zero_bits_32)
    ∷ (108, meta_sign_extend_8)
    ∷ (109, meta_sign_extend_16)
    ∷ (110, meta_zero_extend_16)
    ∷ (111, meta_reverse_bytes)
    ∷ []

unfoldable pub meta_immediate_rows : List (ℕ × MetaHandler)
meta_immediate_rows =
    (131, meta_add_imm_32)
    ∷ (132, meta_and_imm)
    ∷ (133, meta_xor_imm)
    ∷ (134, meta_or_imm)
    ∷ (135, meta_mul_imm_32)
    ∷ (136, meta_set_lt_u_imm)
    ∷ (137, meta_set_lt_s_imm)
    ∷ (138, meta_shlo_l_imm_32)
    ∷ (139, meta_shlo_r_imm_32)
    ∷ (140, meta_shar_r_imm_32)
    ∷ (141, meta_neg_add_imm_32)
    ∷ (142, meta_set_gt_u_imm)
    ∷ (143, meta_set_gt_s_imm)
    ∷ (144, meta_shlo_l_imm_alt_32)
    ∷ (145, meta_shlo_r_imm_alt_32)
    ∷ (146, meta_shar_r_imm_alt_32)
    ∷ (147, meta_cmov_iz_imm)
    ∷ (148, meta_cmov_nz_imm)
    ∷ (149, meta_add_imm_64)
    ∷ (150, meta_mul_imm_64)
    ∷ (151, meta_shlo_l_imm_64)
    ∷ (152, meta_shlo_r_imm_64)
    ∷ (153, meta_shar_r_imm_64)
    ∷ (154, meta_neg_add_imm_64)
    ∷ (155, meta_shlo_l_imm_alt_64)
    ∷ (156, meta_shlo_r_imm_alt_64)
    ∷ (157, meta_shar_r_imm_alt_64)
    ∷ (158, meta_rot_r_64_imm)
    ∷ (159, meta_rot_r_64_imm_alt)
    ∷ (160, meta_rot_r_32_imm)
    ∷ (161, meta_rot_r_32_imm_alt)
    ∷ []

unfoldable pub meta_three_register_rows : List (ℕ × MetaHandler)
meta_three_register_rows =
    (190, meta_add_32)
    ∷ (191, meta_sub_32)
    ∷ (192, meta_mul_32)
    ∷ (193, meta_div_u_32)
    ∷ (194, meta_div_s_32)
    ∷ (195, meta_rem_u_32)
    ∷ (196, meta_rem_s_32)
    ∷ (197, meta_shlo_l_32)
    ∷ (198, meta_shlo_r_32)
    ∷ (199, meta_shar_r_32)
    ∷ (200, meta_add_64)
    ∷ (201, meta_sub_64)
    ∷ (202, meta_mul_64)
    ∷ (203, meta_div_u_64)
    ∷ (204, meta_div_s_64)
    ∷ (205, meta_rem_u_64)
    ∷ (206, meta_rem_s_64)
    ∷ (207, meta_shlo_l_64)
    ∷ (208, meta_shlo_r_64)
    ∷ (209, meta_shar_r_64)
    ∷ (210, meta_and)
    ∷ (211, meta_xor)
    ∷ (212, meta_or)
    ∷ (213, meta_mul_upper_s_s)
    ∷ (214, meta_mul_upper_u_u)
    ∷ (215, meta_mul_upper_s_u)
    ∷ (216, meta_set_lt_u)
    ∷ (217, meta_set_lt_s)
    ∷ (218, meta_cmov_iz)
    ∷ (219, meta_cmov_nz)
    ∷ (220, meta_rot_l_64)
    ∷ (221, meta_rot_l_32)
    ∷ (222, meta_rot_r_64)
    ∷ (223, meta_rot_r_32)
    ∷ (224, meta_and_inv)
    ∷ (225, meta_or_inv)
    ∷ (226, meta_xnor)
    ∷ (227, meta_max)
    ∷ (228, meta_max_u)
    ∷ (229, meta_min)
    ∷ (230, meta_min_u)
    ∷ []

unfoldable pub find_meta : ℕ → List (ℕ × MetaHandler) → Option MetaHandler
find_meta op [] = none
find_meta op ((k, h) ∷ rows) = if k == op then some h else find_meta op rows

unfoldable pub or_meta : Option MetaHandler → Option MetaHandler → Option MetaHandler
or_meta none other = other
or_meta (some h) other = some h

-- The default case is the trap.
unfoldable pub trap_if_none : Option MetaHandler → MetaHandler
trap_if_none none = meta_trap
trap_if_none (some h) = h

unfoldable pub meta_rows : ℕ → Option MetaHandler
unfolding find_meta or_meta
meta_rows op = or_meta (find_meta op meta_control_rows) (
    or_meta (find_meta op meta_access_rows) (
      or_meta (find_meta op meta_two_register_rows)
        (or_meta (find_meta op meta_immediate_rows) (find_meta op meta_three_register_rows))))

unfoldable pub instr_meta_exec_for_opcode : ℕ → MetaHandler
unfolding trap_if_none meta_rows
instr_meta_exec_for_opcode op = trap_if_none (meta_rows op)
