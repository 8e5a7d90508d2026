-- ===== src/Pvm/Instr/Basic.antt =====
-- Instructions without operands, with an immediate, an offset, or a register and an immediate; the
-- jumps and branches.
use jam_protocol.Base.{
  ℕ, ◌+◌, ◌%◌, Bool, true, not, Option, none, some, min, bit_or, ltb, leb, ◌==◌, if◌then◌else◌,
}
use jam_protocol.Base.Int.{ltb_ℤ}
use jam_protocol.Base.Words.{u32, add64, signed64}
use jam_protocol.Pvm.State.{
  Go, done, error, crash, ◌>>=◌, Interp, Out, Handler, index, slice, reg, set_reg, out,
  exit_continue, exit_halt, exit_panic, exit_host_call,
}
use jam_protocol.Codec.{deserialize_fixed_length}
use jam_protocol.Pvm.Decode.{
  read_signed, decode_one_offset, decode_one_register_and_one_immediate,
  decode_one_register_one_immediate_and_one_offset, decode_two_registers_and_one_offset,
  decode_two_registers_and_two_immediates,
}
use jam_protocol.Pvm.Control.{branch, djump}
use jam_protocol.Pvm.Instr.{on_error, write}

unfoldable pub inst_trap : Handler
inst_trap s pc skip = out s exit_panic pc

unfoldable pub inst_fallthrough : Handler
inst_fallthrough s pc skip = out s exit_continue pc

-- The call number is or-ed into the exit reason as SignExtend returns it, 64 bits wide.
unfoldable pub inst_ecalli : Handler
inst_ecalli s pc skip =
    on_error s pc exit_panic (read_signed s.program.code (u32 (pc + 1)) (min 4 skip))
      λ nu. out s (bit_or exit_host_call nu) pc

-- An error of the decoder is only logged, and cannot be met: the slice has 8 bytes.
unfoldable pub inst_load_imm_64 : Handler
inst_load_imm_64 s pc skip =
    on_error s pc exit_continue
      (do
        b ← index s.program.code (u32 (pc + 1))
        bytes ← slice s.program.code (u32 (pc + 2)) (u32 (pc + 10))
        done (b, deserialize_fixed_length 64 bytes 8))
      λ (b, value). write s pc (min 12 (b % 16)) (elim value [ some v ↦ v | none ↦ 0 ])

-- `if reason != ExitContinue { return reason, pc }; return reason, newPC`
unfoldable pub jumped : Interp → ℕ → Go (ℕ × ℕ) → Option Out
jumped s pc (done (reason, pc')) =
    if reason == exit_continue then out s reason pc' else out s reason pc
jumped s pc error = none
jumped s pc crash = none

-- The `switch` after a dynamic jump.
unfoldable pub jumped_dynamic : Interp → ℕ → Go (ℕ × ℕ) → Option Out
jumped_dynamic s pc (done (reason, pc')) =
    if reason == exit_panic
    then out s reason pc
    else if reason == exit_halt
    then out s reason pc
    else out s reason pc'
jumped_dynamic s pc error = none
jumped_dynamic s pc crash = none

unfoldable pub inst_jump : Handler
inst_jump s pc skip =
    on_error s pc exit_panic (decode_one_offset s.program.code pc skip)
      λ vx. jumped s pc (branch pc vx true s.program.bitmask s.program.code)

unfoldable pub inst_jump_ind : Handler
inst_jump_ind s pc skip =
    on_error s pc exit_halt (decode_one_register_and_one_immediate s.program.code pc skip)
      λ (ra, vx).
        jumped_dynamic s pc
          (djump pc (u32 (add64 (reg s ra) vx)) s.program.jump_table s.program.bitmask)

unfoldable pub inst_load_imm : Handler
inst_load_imm s pc skip =
    on_error s pc exit_halt (decode_one_register_and_one_immediate s.program.code pc skip)
      λ (ra, vx). write s pc ra vx

-- The condition of opcodes 81 to 90 on a register and an immediate; `none` is the default case.
unfoldable pub immediate_condition : ℕ → ℕ → ℕ → Option Bool
immediate_condition op a v =
    if op == 81
    then some (a == v)
    else if op == 82
    then some (not (a == v))
    else if op == 83
    then some (ltb a v)
    else if op == 84
    then some (leb a v)
    else if op == 85
    then some (leb v a)
    else if op == 86
    then some (ltb v a)
    else if op == 87
    then some (ltb_ℤ (signed64 a) (signed64 v))
    else if op == 88
    then some (not (ltb_ℤ (signed64 v) (signed64 a)))
    else if op == 89
    then some (not (ltb_ℤ (signed64 a) (signed64 v)))
    else if op == 90
    then some (ltb_ℤ (signed64 v) (signed64 a))
    else none

unfoldable pub branch_when : Interp → ℕ → ℕ → Option Bool → Option Out
branch_when s pc target none = out s exit_panic pc
branch_when s pc target (some taken) =
    jumped s pc (branch pc target taken s.program.bitmask s.program.code)

unfoldable pub inst_immediate_branch : Handler
inst_immediate_branch s pc skip =
    on_error s pc exit_halt
      (decode_one_register_one_immediate_and_one_offset s.program.code pc skip)
      λ (ra, vx, vy). on_error s pc exit_halt (index s.program.code pc) λ op.
        if op == 80
        then branch_when (set_reg s ra vx) pc vy (some true)
        else branch_when s pc vy (immediate_condition op (reg s ra) vx)

-- The condition of opcodes 170 to 175 on two registers.
unfoldable pub branch_condition : ℕ → ℕ → ℕ → Option Bool
branch_condition op a b =
    if op == 170
    then some (a == b)
    else if op == 171
    then some (not (a == b))
    else if op == 172
    then some (ltb a b)
    else if op == 173
    then some (ltb_ℤ (signed64 a) (signed64 b))
    else if op == 174
    then some (leb b a)
    else if op == 175
    then some (not (ltb_ℤ (signed64 a) (signed64 b)))
    else none

unfoldable pub inst_branch : Handler
inst_branch s pc skip =
    on_error s pc exit_halt (decode_two_registers_and_one_offset s.program.code pc skip)
      λ (ra, rb, vx).
        on_error s pc exit_halt (index s.program.code pc)
          λ op. branch_when s pc vx (branch_condition op (reg s ra) (reg s rb))

-- The register is written even if the jump panics.
unfoldable pub inst_load_imm_jump_ind : Handler
inst_load_imm_jump_ind s pc skip =
    on_error s pc exit_panic (decode_two_registers_and_two_immediates s.program.code pc skip)
      λ (ra, rb, vx, vy).
        jumped_dynamic (set_reg s ra vx) pc
          (djump pc (u32 (add64 (reg s rb) vy)) s.program.jump_table s.program.bitmask)
