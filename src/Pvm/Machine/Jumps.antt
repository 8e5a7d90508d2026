-- ===== src/Pvm/Machine/Jumps.antt =====
-- Every row of the table's control instructions keeps the form of the machine.
use jam_protocol.Base.{ℕ, ◌+◌, arith, List, Option, none, some, Bool, true, min, ◌==◌}
use jam_protocol.Base.Words.{IsU64, u32}
use jam_protocol.Codec.{deserialize_fixed_length}
use jam_protocol.Pvm.State.{
  Go, done, error, crash, Interp, Out, IsMachine, index, slice, reg, set_reg, exit_continue,
  exit_halt, exit_panic,
}
use jam_protocol.Pvm.Decode.{
  lift_option, read_signed, decode_one_offset, decode_one_register_and_one_immediate,
  decode_one_register_one_immediate_and_one_offset, decode_two_registers_and_one_offset,
  decode_two_registers_and_two_immediates,
}
use jam_protocol.Pvm.Instr.Basic.{
  jumped, jumped_dynamic, branch_when, immediate_condition, inst_branch, inst_ecalli,
  inst_fallthrough, inst_immediate_branch, inst_jump, inst_jump_ind, inst_load_imm,
  inst_load_imm_64, inst_load_imm_jump_ind, inst_trap,
}
use jam_protocol.Pvm.Instr.Table.{control_rows}
use jam_protocol.Pvm.Machine.{
  Post, Post-bind, Steps, on_error-Steps, out-Steps, write-Steps, if-Steps, set_reg-IsMachine,
}
use jam_protocol.Pvm.Machine.Decoded.{
  Any, Post-Any, deserialize-IsU64, SecondWord, MiddleWord, ThirdWord,
  one_register_and_one_immediate-Post, one_immediate_and_one_offset-Post,
  two_registers_and_two_immediates-Post,
}
use jam_protocol.Pvm.Machine.Operands.{Keeps, Kept, no_rows, ◌◂◌}

jumped-Steps : (s : Interp) (pc : ℕ) (g : Go (ℕ × ℕ)) → IsMachine s → Steps s (jumped s pc g)
unfolding jumped
jumped-Steps s pc (done (reason, pc')) ok =
    if-Steps s (reason == exit_continue) _ _ (out-Steps s reason pc' ok) (out-Steps s reason pc ok)
jumped-Steps s pc error ok = tt
jumped-Steps s pc crash ok = tt

jumped_dynamic-Steps :
    (s : Interp) (pc : ℕ) (g : Go (ℕ × ℕ)) → IsMachine s → Steps s (jumped_dynamic s pc g)
unfolding jumped_dynamic
jumped_dynamic-Steps s pc (done (reason, pc')) ok =
    if-Steps s (reason == exit_panic) _ _ (out-Steps s reason pc ok)
      (if-Steps s (reason == exit_halt) _ _ (out-Steps s reason pc ok) (out-Steps s reason pc' ok))
jumped_dynamic-Steps s pc error ok = tt
jumped_dynamic-Steps s pc crash ok = tt

branch_when-Steps :
    (s : Interp) (pc target : ℕ) (taken : Option Bool)
    → IsMachine s
    → Steps s (branch_when s pc target taken)
unfolding branch_when
branch_when-Steps s pc target none ok = out-Steps s exit_panic pc ok
branch_when-Steps s pc target (some taken) ok = jumped-Steps s pc _ ok

-- A step of the machine whose register has been written is one of the machine before.
after_set_reg : (s : Interp) (r v : ℕ) (o : Option Out) → Steps (set_reg s r v) o → Steps s o
after_set_reg s r v none h = tt
after_set_reg s r v (some o) h = record { program = h.program; gas = h.gas; machine = h.machine }

inst_trap-Keeps : Keeps inst_trap
unfolding inst_trap
inst_trap-Keeps s pc skip ok = out-Steps s exit_panic pc ok

inst_fallthrough-Keeps : Keeps inst_fallthrough
unfolding inst_fallthrough
inst_fallthrough-Keeps s pc skip ok = out-Steps s exit_continue pc ok

inst_ecalli-Keeps : Keeps inst_ecalli
unfolding inst_ecalli
inst_ecalli-Keeps s pc skip ok =
    on_error-Steps Any s pc exit_panic (read_signed s.program.code (u32 (pc + 1)) (min 4 skip)) _ ok
      (Post-Any _) (λ nu _. out-Steps s _ pc ok)

abbrev WordIfAny : ℕ × Option ℕ → Type 0
WordIfAny (b, none) = Unit
WordIfAny (b, some v) = IsU64 v

immediate_64-Post : (b : ℕ) (bytes : List ℕ) → WordIfAny (b, deserialize_fixed_length 64 bytes 8)
unfolding lift_option
immediate_64-Post b bytes = go _ (deserialize-IsU64 bytes 8)
  where
    go : (r : Option ℕ) → Post IsU64 (lift_option r) → WordIfAny (b, r)
    go none h = tt
    go (some v) h = h

or_zero-IsU64 : (p : ℕ × Option ℕ) → WordIfAny p → IsU64 (elim p.1 [ some v ↦ v | none ↦ 0 ])
or_zero-IsU64 (b, none) h = omega arith
or_zero-IsU64 (b, some v) h = h

inst_load_imm_64-Keeps : Keeps inst_load_imm_64
unfolding inst_load_imm_64
inst_load_imm_64-Keeps s pc skip ok =
    on_error-Steps WordIfAny s pc exit_continue _ _ ok
      (Post-bind Any WordIfAny (index s.program.code (u32 (pc + 1))) _ (Post-Any _) λ b _.
        Post-bind Any WordIfAny (slice s.program.code (u32 (pc + 2)) (u32 (pc + 10))) _ (Post-Any _)
          (λ bytes _. immediate_64-Post b bytes))
      (λ p h. write-Steps s pc _ _ ok (or_zero-IsU64 p h))

inst_jump-Keeps : Keeps inst_jump
unfolding inst_jump
inst_jump-Keeps s pc skip ok =
    on_error-Steps Any s pc exit_panic (decode_one_offset s.program.code pc skip) _ ok (Post-Any _)
      (λ vx _. jumped-Steps s pc _ ok)

inst_jump_ind-Keeps : Keeps inst_jump_ind
unfolding inst_jump_ind
inst_jump_ind-Keeps s pc skip ok =
    on_error-Steps Any s pc exit_halt (decode_one_register_and_one_immediate s.program.code pc skip)
      _ ok (Post-Any _) (λ p _. jumped_dynamic-Steps s pc _ ok)

inst_load_imm-Keeps : Keeps inst_load_imm
unfolding inst_load_imm
inst_load_imm-Keeps s pc skip ok =
    on_error-Steps SecondWord s pc exit_halt
      (decode_one_register_and_one_immediate s.program.code pc skip) _ ok
      (one_register_and_one_immediate-Post s.program.code pc skip)
      (λ p word. write-Steps s pc p.0 _ ok word)

inst_immediate_branch-Keeps : Keeps inst_immediate_branch
unfolding inst_immediate_branch
inst_immediate_branch-Keeps s pc skip ok =
    on_error-Steps MiddleWord s pc exit_halt
      (decode_one_register_one_immediate_and_one_offset s.program.code pc skip) _ ok
      (one_immediate_and_one_offset-Post s.program.code pc skip)
      (λ p word.
        on_error-Steps Any s pc exit_halt (index s.program.code pc) _ ok (Post-Any _) λ op _.
          if-Steps s (op == 80) _ _
            (after_set_reg s p.0 p.1 _ (
              branch_when-Steps (set_reg s p.0 p.1) pc p.2 (some true)
                (set_reg-IsMachine s p.0 p.1 ok word)))
            (branch_when-Steps s pc p.2 (immediate_condition op (reg s p.0) p.1) ok))

inst_branch-Keeps : Keeps inst_branch
unfolding inst_branch
inst_branch-Keeps s pc skip ok =
    on_error-Steps Any s pc exit_halt (decode_two_registers_and_one_offset s.program.code pc skip) _
      ok (Post-Any _)
      λ p _.
        on_error-Steps Any s pc exit_halt (index s.program.code pc) _ ok (Post-Any _)
          (λ op _. branch_when-Steps s pc p.2 _ ok)

inst_load_imm_jump_ind-Keeps : Keeps inst_load_imm_jump_ind
unfolding inst_load_imm_jump_ind
inst_load_imm_jump_ind-Keeps s pc skip ok =
    on_error-Steps ThirdWord s pc exit_panic
      (decode_two_registers_and_two_immediates s.program.code pc skip) _ ok
      (two_registers_and_two_immediates-Post s.program.code pc skip)
      λ p word.
        after_set_reg s p.0 p.2 _
          (jumped_dynamic-Steps (set_reg s p.0 p.2) pc _ (set_reg-IsMachine s p.0 p.2 ok word))

pub control_rows-Keeps : Kept control_rows
unfolding control_rows
control_rows-Keeps =
    inst_trap-Keeps ◂ inst_fallthrough-Keeps ◂ inst_ecalli-Keeps ◂ inst_load_imm_64-Keeps
    ◂ inst_jump-Keeps ◂ inst_jump_ind-Keeps ◂ inst_load_imm-Keeps ◂ inst_immediate_branch-Keeps
    ◂ inst_immediate_branch-Keeps ◂ inst_immediate_branch-Keeps ◂ inst_immediate_branch-Keeps
    ◂ inst_immediate_branch-Keeps ◂ inst_immediate_branch-Keeps ◂ inst_immediate_branch-Keeps
    ◂ inst_immediate_branch-Keeps ◂ inst_immediate_branch-Keeps ◂ inst_immediate_branch-Keeps
    ◂ inst_immediate_branch-Keeps ◂ inst_branch-Keeps ◂ inst_branch-Keeps ◂ inst_branch-Keeps
    ◂ inst_branch-Keeps ◂ inst_branch-Keeps ◂ inst_branch-Keeps ◂ inst_load_imm_jump_ind-Keeps
    ◂ no_rows
