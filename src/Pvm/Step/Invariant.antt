-- ===== src/Pvm/Step/Invariant.antt =====
-- What one step of the machine keeps.
use jam_protocol.Base.{
  ℕ, zero, suc, ◌≡◌, ◌⊎◌, refl, ap, ◌∙◌, inl, inr, Option, none, some, List, [], ◌∷◌, arith, leb,
  ◌==◌, if◌then◌else◌, false, Bool-cases,
}
use jam_protocol.Base.Int.{ℤ, pos, negsuc, ◌+ℤ◌, ltb_ℤ}
use jam_protocol.Pvm.State.{
  Go, done, error, crash, Interp, Out, Handler, out, exit_panic, exit_oog, IsMachine,
}
use jam_protocol.Pvm.Control.{is_opcode, skip}
use jam_protocol.Pvm.Instr.Table.{
  find_handler, or_else, exec_instructions, control_rows, access_rows, two_register_rows,
  immediate_rows, three_register_rows,
}
use jam_protocol.Pvm.Machine.{Steps}
use jam_protocol.Pvm.Machine.Operands.{Keeps, Kept, no_rows, ◌◂◌}
use jam_protocol.Pvm.Machine.Accesses.{access_rows-Keeps}
use jam_protocol.Pvm.Machine.Registers.{
  two_register_rows-Keeps, immediate_rows-Keeps, three_register_rows-Keeps,
}
use jam_protocol.Pvm.Machine.Jumps.{control_rows-Keeps}
use jam_protocol.Pvm.Step.{charged, settle, execute, single_step_state_transition}

abbrev KeepsIfAny : Option Handler → Type 0
KeepsIfAny none = Unit
KeepsIfAny (some h) = Keeps h

find_handler-Keeps :
    (op : ℕ) (rows : List (ℕ × Handler)) → Kept rows → KeepsIfAny (find_handler op rows)
unfolding find_handler
find_handler-Keeps op [] no_rows = tt
find_handler-Keeps op ((k, h) ∷ rows) (keeps ◂ rest) = elim (Bool-cases (k == op)) [
  | inl here ↦ rw here keeps
  | inr there ↦ rw there (find_handler-Keeps op rows rest)
]

or_else-Keeps : (a b : Option Handler) → KeepsIfAny a → KeepsIfAny b → KeepsIfAny (or_else a b)
unfolding or_else
or_else-Keeps none b p q = q
or_else-Keeps (some h) b p q = p

exec_instructions-Keeps : (op : ℕ) → KeepsIfAny (exec_instructions op)
unfolding exec_instructions
exec_instructions-Keeps op =
    or_else-Keeps _ _ (find_handler-Keeps op control_rows control_rows-Keeps) (
      or_else-Keeps _ _ (find_handler-Keeps op access_rows access_rows-Keeps) (
        or_else-Keeps _ _ (find_handler-Keeps op two_register_rows two_register_rows-Keeps) (
          or_else-Keeps _ _ (find_handler-Keeps op immediate_rows immediate_rows-Keeps)
            (find_handler-Keeps op three_register_rows three_register_rows-Keeps))))

settle-Steps :
    (s : Interp) (pc length : ℕ) (o : Option Out) → Steps s o → Steps s (settle pc length o)
unfolding settle
settle-Steps s pc length none h = tt
settle-Steps s pc length (some o) h = record {
  program = h.program;
  gas = h.gas;
  machine = h.machine;
}

-- A state after a step: the program is the same and the form of the machine is kept. Either one unit
-- of gas is paid, which was there, or nothing happens and the reason is a panic or the gas.
pub data Transition (s : Interp) : Out → Type 0 where
  paid :
      (o : Out) (left : ℕ)
      → s.gas ≡ pos (suc left)
      → o.interp.gas ≡ pos left
      → o.interp.program ≡ s.program
      → IsMachine o.interp
      → Transition s o
  stopped :
      (reason pc : ℕ)
      → (reason ≡ exit_panic) ⊎ (reason ≡ exit_oog)
      → Transition s (record { interp = s; reason = reason; pc = pc })

abbrev pub Transitions : Interp → Option Out → Type 0
Transitions s none = Unit
Transitions s (some o) = Transition s o

enough_gas : (g : ℤ) → ltb_ℤ g (pos 1) ≡ false → (n : ℕ) × (g ≡ pos (suc n))
enough_gas (pos zero) h = ground arith
enough_gas (pos (suc n)) h = (n, refl)
enough_gas (negsuc n) h = ground arith

charged_gas : (n : ℕ) → pos (suc n) +ℤ negsuc 0 ≡ pos n
charged_gas n = ground arith

charged-IsMachine : (s : Interp) → IsMachine s → IsMachine (charged s)
charged-IsMachine s ok = record {
  count = ok.count;
  words = ok.words;
  memory = ok.memory;
  heap = ok.heap;
  code = ok.code;
}

from_step :
    (s : Interp) (n : ℕ) (o : Option Out)
    → s.gas ≡ pos (suc n)
    → Steps (charged s) o
    → Transitions s o
from_step s n none gas h = tt
from_step s n (some o) gas h =
    paid o n gas (h.gas ∙ ap (λ g. g +ℤ negsuc 0) gas ∙ charged_gas n) h.program h.machine

execute-Steps :
    (s : Interp) (pc : ℕ) (h : Option Handler)
    → KeepsIfAny h
    → IsMachine s
    → Steps s (execute s pc h)
unfolding execute
execute-Steps s pc none h ok = record { program = refl; gas = refl; machine = ok }
execute-Steps s pc (some handler) h ok =
    settle-Steps s pc _ _ (h s pc (skip s.program.bitmask pc) ok)

run-Transitions :
    (s : Interp) (pc op : ℕ)
    → IsMachine s
    → Transitions s (
        if ltb_ℤ s.gas (pos 1)
        then out s exit_oog pc
        else execute (charged s) pc (exec_instructions op))
run-Transitions s pc op ok = elim (Bool-cases (ltb_ℤ s.gas (pos 1))) [
  | inl spent ↦ rw spent (stopped exit_oog pc (inr refl))
  | inr enough ↦ rw enough (
      let (n, gas) = enough_gas s.gas enough in
      from_step s n _ gas
        (execute-Steps (charged s) pc _ (exec_instructions-Keeps op) (charged-IsMachine s ok)))
]

-- From a well-formed machine and at any program counter, a step of the machine that ends without a
-- run-time panic either pays exactly one unit of gas, which the machine had, and leaves a well-formed
-- machine with the same program, or leaves the whole state as it was and reports a panic or the end of
-- the gas. It is proved over all 139 entries of the instruction table.
pub single_step-Transitions :
    (s : Interp) (pc : ℕ) → IsMachine s → Transitions s (single_step_state_transition s pc)
unfolding single_step_state_transition
single_step-Transitions s pc ok = elim (Bool-cases (leb s.program.code.len pc)) [
  | inl past ↦ rw past (stopped exit_panic pc (inl refl))
  | inr inside ↦ rw inside (by_opcode (is_opcode s.program.code pc))
]
  where
    by_opcode :
        (g : Go ℕ)
        → Transitions s (elim g [
          | done op ↦
              (if ltb_ℤ s.gas (pos 1)
                then out s exit_oog pc
                else execute (charged s) pc (exec_instructions op))
          | error ↦ none
          | crash ↦ none
        ])
    by_opcode (done op) = run-Transitions s pc op ok
    by_opcode error = tt
    by_opcode crash = tt
