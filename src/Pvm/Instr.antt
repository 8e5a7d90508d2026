-- ===== src/Pvm/Instr.antt =====
-- The instruction handlers of PVM/instructions.go. Each handler decodes its operands, and is written
-- over the combinators below, which say what happens to the state.
pub mod Basic
pub mod Access
pub mod TwoReg
pub mod Immediate
pub mod ThreeReg
pub mod Table
pub mod Complete
use jam_protocol.Base.{ℕ, ◌%◌, Option, none, some, Bool, ◌==◌, if◌then◌else◌}
use jam_protocol.Pvm.State.{
  Go, done, error, crash, ◌>>=◌, Interp, Out, Memory, reg, set_reg, out, exit_continue, exit_halt,
}
use jam_protocol.Pvm.Decode.{
  decode_two_registers, decode_two_registers_and_one_immediate, decode_three_registers,
}

-- `if err != nil { return reason, pc }`
unfoldable pub on_error {ℓ} : {A : Type ℓ} → Interp → ℕ → ℕ → Go A → (A → Option Out) → Option Out
on_error s pc reason (done a) k = k a
on_error s pc reason error k = out s reason pc
on_error s pc reason crash k = none

-- A register takes a value, and the machine continues.
unfoldable pub write : Interp → ℕ → ℕ → ℕ → Option Out
write s pc r v = out (set_reg s r v) exit_continue pc

-- The end of a store.
unfoldable pub stored : Interp → ℕ → Memory × ℕ → Option Out
stored s pc (m, reason) = out (record s { memory = m }) reason pc

-- The end of a load into a register, whose value `f` adjusts.
unfoldable pub loaded : Interp → ℕ → ℕ → (ℕ → ℕ) → ℕ × ℕ → Option Out
unfolding write
loaded s pc r f (v, reason) =
    if reason == exit_continue then write s pc r (f v) else out s reason pc

unfoldable pub two_registers : Interp → ℕ → (ℕ → ℕ) → Option Out
unfolding on_error write
two_registers s pc f =
    on_error s pc exit_halt (decode_two_registers s.program.code pc)
      λ (rd, ra). write s pc rd (f (reg s ra))

unfoldable pub two_registers_one_immediate : Interp → ℕ → ℕ → (ℕ → ℕ → ℕ) → Option Out
unfolding on_error write
two_registers_one_immediate s pc skip f =
    on_error s pc exit_halt (decode_two_registers_and_one_immediate s.program.code pc skip)
      λ (ra, rb, vx). write s pc ra (f (reg s rb) vx)

unfoldable pub three_registers : Interp → ℕ → (ℕ → ℕ → ℕ) → Option Out
unfolding on_error write
three_registers s pc f =
    on_error s pc exit_halt (decode_three_registers s.program.code pc)
      λ (ra, rb, rd). write s pc rd (f (reg s ra) (reg s rb))
