-- ===== src/Pvm/Step.antt =====
-- The step of the machine and its loop: `SingleStepStateTransition` and `SingleStepInvoke` of
-- PVM/invocation.go.
pub mod Invariant
pub mod Termination
use jam_protocol.Base.{ℕ, zero, suc, ◌+◌, ◌%◌, ◌^◌, Option, none, some, leb, ◌==◌, if◌then◌else◌}
use jam_protocol.Base.Int.{ℤ, pos, negsuc, ◌+ℤ◌, ltb_ℤ}
use jam_protocol.Base.Words.{u32}
use jam_protocol.Pvm.State.{
  Go, done, error, crash, Interp, Out, Handler, ReasonType, continue, halt, panic, out_of_gas,
  page_fault, host_call, unknown, reason_type, out, exit_panic, exit_oog,
}
use jam_protocol.Pvm.Control.{is_opcode, skip}
use jam_protocol.Pvm.Instr.Table.{exec_instructions}

-- One unit of gas is taken.
abbrev pub charged : Interp → Interp
charged s = record s { gas = s.gas +ℤ negsuc 0 }

-- The next program counter where no jump was taken.
unfoldable pub next_pc : ℕ → ℕ → ℕ → ℕ
next_pc pc length pc' = if pc == pc' then u32 (pc' + length + 1) else pc'

-- The program counter after the `switch` on the reason of the instruction.
unfoldable pub settled_pc : ReasonType → ℕ → ℕ → ℕ → ℕ
unfolding next_pc
settled_pc panic pc length pc' = 0
settled_pc halt pc length pc' = 0
settled_pc host_call pc length pc' = pc'
settled_pc _ pc length pc' = next_pc pc length pc'

unfoldable pub settle : ℕ → ℕ → Option Out → Option Out
unfolding settled_pc reason_type
settle pc length none = none
settle pc length (some o) =
    some (record o { pc = settled_pc (reason_type o.reason) pc length o.pc })

-- The handler runs, with the skip length of the instruction.
unfoldable pub execute : Interp → ℕ → Option Handler → Option Out
unfolding settle skip
execute s pc none = out s exit_panic pc
execute s pc (some h) = let length = skip s.program.bitmask pc in settle pc length (h s pc length)

-- `none` is a run-time panic of Go.
unfoldable pub single_step_state_transition : Interp → ℕ → Option Out
unfolding execute is_opcode exec_instructions
single_step_state_transition s pc =
    if leb s.program.code.len pc then out s exit_panic pc else elim (is_opcode s.program.code pc) [
      | done op ↦
          (if ltb_ℤ s.gas (pos 1)
            then out s exit_oog pc
            else execute (charged s) pc (exec_instructions op))
      | error ↦ none
      | crash ↦ none
    ]

-- How a run on fuel ends.
pub data Run : Type 0 where
  ended : Out → Run
  crashed unfinished : Run

-- The `switch` of the loop: `again` is the next round.
unfoldable pub follow : (Interp → ℕ → Run) → ReasonType → Out → Run
follow again continue o = again o.interp o.pc
follow again halt o = ended (record o { pc = 0 })
follow again panic o = ended (record o { pc = 0 })
follow again _ o = ended o

-- The loop of `SingleStepInvoke`, with `fuel` rounds at most.
unfoldable pub single_step_invoke : ℕ → Interp → ℕ → Run
unfolding follow
single_step_invoke zero s pc = unfinished
single_step_invoke (suc fuel) s pc = elim (single_step_state_transition s pc) [
  | none ↦ crashed
  | some o ↦ follow (λ s' pc'. single_step_invoke fuel s' pc') (reason_type o.reason) o
]
