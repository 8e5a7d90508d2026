-- ===== src/Pvm/Decoded/Basic.antt =====
-- The decoded handlers of jumps, branches and immediates: PVM/instructions_instrmeta.go.
use jam_protocol.Base.{true, some, bit_or, ◌==◌, if◌then◌else◌}
use jam_protocol.Base.Words.{u32, add64}
use jam_protocol.Pvm.State.{out, exit_continue, exit_panic, exit_host_call}
use jam_protocol.Pvm.Control.{branch, djump}
use jam_protocol.Pvm.Instr.Basic.{
  jumped, jumped_dynamic, immediate_condition, branch_condition, branch_when,
}
use jam_protocol.Pvm.Decoded.{MetaHandler, with_reg, put_reg}

unfoldable pub meta_trap : MetaHandler
meta_trap s i = out s exit_panic i.pc

unfoldable pub meta_fallthrough : MetaHandler
meta_fallthrough s i = out s exit_continue i.pc

unfoldable pub meta_ecalli : MetaHandler
meta_ecalli s i = out s (bit_or exit_host_call i.imm_0) i.pc

unfoldable pub meta_load_imm_64 : MetaHandler
unfolding put_reg
meta_load_imm_64 s i = put_reg s i.dst i.imm_0 λ s'. out s' exit_continue i.pc

unfoldable pub meta_jump : MetaHandler
meta_jump s i = jumped s i.pc (branch i.pc (u32 i.imm_0) true s.program.bitmask s.program.code)

unfoldable pub meta_jump_ind : MetaHandler
unfolding with_reg
meta_jump_ind s i = with_reg s i.src_0 λ a.
    jumped_dynamic s i.pc
      (djump i.pc (u32 (add64 a i.imm_0)) s.program.jump_table s.program.bitmask)

unfoldable pub meta_load_imm : MetaHandler
unfolding put_reg
meta_load_imm s i = put_reg s i.dst i.imm_0 λ s'. out s' exit_continue i.pc

unfoldable pub meta_immediate_branch : MetaHandler
unfolding with_reg put_reg
meta_immediate_branch s i =
    if i.opcode == 80
    then put_reg s i.src_0 i.imm_0 (λ s'. branch_when s' i.pc (u32 i.imm_1) (some true))
    else with_reg s i.src_0
        (λ a. branch_when s i.pc (u32 i.imm_1) (immediate_condition i.opcode a i.imm_0))

unfoldable pub meta_branch : MetaHandler
unfolding with_reg
meta_branch s i =
    with_reg s i.src_0
      λ a. with_reg s i.src_1 λ b. branch_when s i.pc (u32 i.imm_0) (branch_condition i.opcode a b)

-- The register is written after the jump is worked out, and also if it panics.
unfoldable pub meta_load_imm_jump_ind : MetaHandler
unfolding with_reg put_reg
meta_load_imm_jump_ind s i = with_reg s i.src_0 λ b. put_reg s i.dst i.imm_0 λ s'.
    jumped_dynamic s' i.pc
      (djump i.pc (u32 (add64 b i.imm_1)) s.program.jump_table s.program.bitmask)
