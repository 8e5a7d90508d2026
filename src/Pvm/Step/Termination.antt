-- ===== src/Pvm/Step/Termination.antt =====
-- The loop of the machine ends, within as many rounds as it has gas.
use jam_protocol.Base.{
  ℕ, zero, suc, ◌<◌, ◌≡◌, ◌≢◌, ◌⊎◌, refl, subst, ◌∙◌, inl, inr, Option, none, some, arith,
}
use jam_protocol.Base.Int.{pos, pos_part}
use jam_protocol.Pvm.State.{
  Interp, Out, ReasonType, continue, halt, panic, out_of_gas, page_fault, host_call, unknown,
  reason_type, exit_panic, exit_oog, IsMachine,
}
use jam_protocol.Pvm.Step.{
  single_step_state_transition, single_step_invoke, follow, Run, ended, crashed, unfinished,
}
use jam_protocol.Pvm.Step.Invariant.{
  Transition, paid, stopped, Transitions, single_step-Transitions,
}

-- The gas is the same, or less and not below zero.
abbrev pub LessGas : Interp → Interp → Type 0
LessGas s s' = (s'.gas ≡ s.gas) ⊎ ((left : ℕ) × (s'.gas ≡ pos left) × (left < pos_part s.gas))

-- What a run leaves behind: the same program, a well-formed machine, no more gas than before and not
-- less than nothing once some was there, and a reason other than `continue`.
pub record IsResult (s : Interp) (o : Out) : Type 0 where
  pub program : o.interp.program ≡ s.program
  pub machine : IsMachine o.interp
  pub gas : LessGas s o.interp
  pub stops : reason_type o.reason ≢ continue
  pub resets : (reason_type o.reason ≡ halt) ⊎ (reason_type o.reason ≡ panic) → o.pc ≡ 0

-- The run has ended as `IsResult` says, or with a run-time panic of Go.
abbrev pub Finishes : Interp → Run → Type 0
Finishes s (ended o) = IsResult s o
Finishes s crashed = Unit
Finishes s unfinished = ⊥

-- The gas of the rest of a run counts for the whole run.
from_next :
    (s s' : Interp) (left : ℕ) (r : Run)
    → s.gas ≡ pos (suc left)
    → s'.gas ≡ pos left
    → s'.program ≡ s.program
    → Finishes s' r
    → Finishes s r
from_next s s' left crashed before after program h = tt
from_next s s' left (ended o) before after program h = record {
  program = h.program ∙ program;
  machine = h.machine;
  gas = inr (spent h.gas);
  stops = h.stops;
  resets = h.resets;
}
  where
    spent :
        (o.interp.gas ≡ s'.gas) ⊎ ((l : ℕ) × (o.interp.gas ≡ pos l) × (l < pos_part s'.gas))
        → (l : ℕ) × (o.interp.gas ≡ pos l) × (l < pos_part s.gas)
    spent (inl same) = (left, same ∙ after, rw before (omega arith))
    spent (inr (l, gas, less)) =
        (l, gas, rw before (omega (arith, subst (λ g. l < pos_part g) after less)))
from_next s s' left unfinished before after program h = h

abbrev Loop : ℕ → Type 0
Loop fuel =
    (s : Interp) (pc : ℕ)
    → IsMachine s
    → pos_part s.gas < fuel
    → Finishes s (single_step_invoke fuel s pc)

result-LessGas : (s : Interp) (o : Out) → Transition s o → LessGas s o.interp
result-LessGas s _ (paid o left before after program machine) =
    inr (left, after, rw before (omega arith))
result-LessGas s _ (stopped reason pc why) = inl refl

program-result : (s : Interp) (o : Out) → Transition s o → o.interp.program ≡ s.program
program-result s _ (paid o left before after program machine) = program
program-result s _ (stopped reason pc why) = refl

result-IsMachine : (s : Interp) (o : Out) → IsMachine s → Transition s o → IsMachine o.interp
result-IsMachine s _ ok (paid o left before after program machine) = machine
result-IsMachine s _ ok (stopped reason pc why) = ok

result :
    (s : Interp) (o : Out) (pc : ℕ)
    → IsMachine s
    → Transition s o
    → reason_type o.reason ≢ continue
    → ((reason_type o.reason ≡ halt) ⊎ (reason_type o.reason ≡ panic) → pc ≡ 0)
    → IsResult s (record o { pc = pc })
result s o pc ok t stops resets = record {
  program = program-result s o t;
  machine = result-IsMachine s o ok t;
  gas = result-LessGas s o t;
  stops = stops;
  resets = resets;
}

not_continue : (e : ℕ) → (e ≡ exit_panic) ⊎ (e ≡ exit_oog) → reason_type e ≢ continue
unfolding reason_type
not_continue e (inl why) h = ground (arith, why, h)
not_continue e (inr why) h = ground (arith, why, h)

continues :
    (fuel : ℕ) (s : Interp) (o : Out)
    → reason_type o.reason ≡ continue
    → Transition s o
    → pos_part s.gas < suc fuel
    → Loop fuel
    → Finishes s (single_step_invoke fuel o.interp o.pc)
continues fuel s _ is_continue (paid o left before after program machine) enough loop =
    from_next s o.interp left _ before after program (
      loop o.interp o.pc machine
        (rw after (omega (arith, subst (λ g. pos_part g < suc fuel) before enough))))
continues fuel s _ is_continue (stopped reason pc why) enough loop =
    absurd (not_continue reason why is_continue)

round :
    (fuel : ℕ) (s : Interp) (o : Out) (r : ReasonType)
    → reason_type o.reason ≡ r
    → Transition s o
    → IsMachine s
    → pos_part s.gas < suc fuel
    → Loop fuel
    → Finishes s (follow (λ s' pc'. single_step_invoke fuel s' pc') r o)
unfolding follow
round fuel s o continue is_r t ok enough loop = continues fuel s o is_r t enough loop
round fuel s o halt is_r t ok enough loop = result s o 0 ok t (λ h. cc) (λ _. refl)
round fuel s o panic is_r t ok enough loop = result s o 0 ok t (λ h. cc) (λ _. refl)
round fuel s o out_of_gas is_r t ok enough loop = result s o o.pc ok t (λ h. cc) (ground arith)
round fuel s o page_fault is_r t ok enough loop = result s o o.pc ok t (λ h. cc) (ground arith)
round fuel s o host_call is_r t ok enough loop = result s o o.pc ok t (λ h. cc) (ground arith)
round fuel s o (unknown k) is_r t ok enough loop = result s o o.pc ok t (λ h. cc) (ground arith)

-- The loop of `SingleStepInvoke` ends within one round more than the machine has gas: no instruction is
-- free, so from a well-formed machine no program can keep it busy for longer. It ends with a reason
-- other than `continue`, with the program counter at 0 after a halt or a panic, with a well-formed
-- machine and the same program, and with no more gas than it had and none below zero that was above; or
-- in a run-time panic of Go.
pub single_step_invoke-Finishes :
    (fuel : ℕ) (s : Interp) (pc : ℕ)
    → IsMachine s
    → pos_part s.gas < fuel
    → Finishes s (single_step_invoke fuel s pc)
unfolding single_step_invoke
single_step_invoke-Finishes zero s pc ok enough = absurd (omega arith)
single_step_invoke-Finishes (suc fuel) s pc ok enough =
    by_step (λ s' pc' ok' enough'. single_step_invoke-Finishes fuel s' pc' ok' enough')
      (single_step_state_transition s pc) (single_step-Transitions s pc ok)
  where
    by_step :
        Loop fuel
        → (r : Option Out) → Transitions s r
        → Finishes s (elim r [
          | none ↦ crashed
          | some o ↦ follow (λ s' pc'. single_step_invoke fuel s' pc') (reason_type o.reason) o
        ])
    by_step loop none t = tt
    by_step loop (some o) t = round fuel s o (reason_type o.reason) refl t ok enough loop
