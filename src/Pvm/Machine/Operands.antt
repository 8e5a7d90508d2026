-- ===== src/Pvm/Machine/Operands.antt =====
-- The handlers' combinators keep the form of the machine when the function they apply keeps words.
use jam_protocol.Base.{ℕ, List, [], ◌∷◌}
use jam_protocol.Base.Words.{IsU64}
use jam_protocol.Pvm.State.{Interp, Handler, IsMachine, exit_halt}
use jam_protocol.Pvm.Decode.{
  decode_two_registers, decode_two_registers_and_one_immediate, decode_three_registers,
}
use jam_protocol.Pvm.Instr.{two_registers, two_registers_one_immediate, three_registers}
use jam_protocol.Pvm.Machine.{Steps, write-Steps, on_error-Steps, reg-IsU64}
use jam_protocol.Pvm.Machine.Decoded.{Any, Post-Any, LastWord, two_registers_and_one_immediate-Post}

-- The handler keeps the program, the gas and the form of the machine.
abbrev pub Keeps : Handler → Type 0
Keeps h = (s : Interp) (pc skip : ℕ) → IsMachine s → Steps s (h s pc skip)

-- Every handler of the rows keeps them.
infixr 4 ◌◂◌
pub data Kept : List (ℕ × Handler) → Type 0 where
  no_rows : Kept []
  ◌◂◌ :
      {op : ℕ} {h : Handler} {rows : List (ℕ × Handler)}
      → Keeps h
      → Kept rows
      → Kept ((op, h) ∷ rows)

pub two_registers-Keeps :
    (f : ℕ → ℕ) → ((a : ℕ) → IsU64 a → IsU64 (f a)) → Keeps (λ s pc skip. two_registers s pc f)
unfolding two_registers
two_registers-Keeps f h s pc skip ok =
    on_error-Steps Any s pc exit_halt (decode_two_registers s.program.code pc) _ ok (Post-Any _)
      (λ p _. write-Steps s pc p.0 _ ok (h _ (reg-IsU64 s p.1 ok)))

pub two_registers_one_immediate-Keeps :
    (f : ℕ → ℕ → ℕ)
    → ((a v : ℕ) → IsU64 a → IsU64 v → IsU64 (f a v))
    → Keeps (λ s pc skip. two_registers_one_immediate s pc skip f)
unfolding two_registers_one_immediate
two_registers_one_immediate-Keeps f h s pc skip ok =
    on_error-Steps LastWord s pc exit_halt
      (decode_two_registers_and_one_immediate s.program.code pc skip) _ ok
      (two_registers_and_one_immediate-Post s.program.code pc skip)
      (λ p word. write-Steps s pc p.0 _ ok (h _ _ (reg-IsU64 s p.1 ok) word))

pub three_registers-Keeps :
    (f : ℕ → ℕ → ℕ)
    → ((a b : ℕ) → IsU64 a → IsU64 b → IsU64 (f a b))
    → Keeps (λ s pc skip. three_registers s pc f)
unfolding three_registers
three_registers-Keeps f h s pc skip ok =
    on_error-Steps Any s pc exit_halt (decode_three_registers s.program.code pc) _ ok (Post-Any _)
      (λ p _. write-Steps s pc p.2 _ ok (h _ _ (reg-IsU64 s p.0 ok) (reg-IsU64 s p.1 ok)))
