-- ===== src/Pvm/Decoded/Agree.antt =====
-- A decoded instruction does what the direct one does. Here is what that means, and the setting in
-- which it holds; the children go through the handlers.
pub mod Operands
pub mod Filled
pub mod Immediates
pub mod Registers
pub mod Accesses
pub mod Jumps
pub mod Handlers
use jam_protocol.Base.{
  ℕ, All, ◌+◌, ◌≤◌, ◌<◌, ◌≡◌, ◌^◌, ◌-◌, arith, Option, none, some, List, [], ◌∷◌, true,
}
use jam_protocol.Base.Words.{u32, IsByte}
use jam_protocol.Pvm.State.{Go, done, error, crash, Slice, index, slice, Interp, Out, Handler}
use jam_protocol.Pvm.Decode.{
  decode_one_immediate, decode_two_immediates, decode_one_offset,
  decode_one_register_and_one_immediate, decode_one_register_and_two_immediates,
  decode_one_register_one_immediate_and_one_offset, decode_two_registers,
  decode_two_registers_and_one_immediate, decode_two_registers_and_one_offset,
  decode_two_registers_and_two_immediates, decode_three_registers,
}
use jam_protocol.Pvm.Control.{
  Category, invalid, no_arg, one_imm, one_reg_ext_imm, two_imm, one_offset, one_reg_one_imm,
  one_reg_two_imm, one_reg_imm_off, two_reg, two_reg_one_imm, two_reg_one_off, two_reg_two_imm,
  three_reg, category,
}
use jam_protocol.Pvm.Decoded.{InstrMeta, MetaHandler, blank, takes_operands, decode_operands}

-- The instruction is decoded and then run; `none` is a run-time panic in either.
unfoldable pub run_on : MetaHandler → Interp → Go InstrMeta → Option Out
run_on m s (done i) = m s i
run_on m s error = none
run_on m s crash = none

unfoldable pub run_decoded : MetaHandler → Interp → ℕ → ℕ → ℕ → Option Out
unfolding run_on
run_decoded m s pc op skip = run_on m s (decode_operands s.program.code (blank pc op skip))

abbrev pub IsDone {ℓ} : {A : Type ℓ} → Go A → Type ℓ
IsDone {A} g = (a : A) × (g ≡ done a)

-- The operands of a category can be decoded.
abbrev pub Decodes : Category → Slice → ℕ → ℕ → Type 0
Decodes invalid code pc skip = ⊥
Decodes no_arg code pc skip = Unit
Decodes one_imm code pc skip = IsDone (decode_one_immediate code pc skip)
Decodes one_reg_ext_imm code pc skip =
    (pc + 10 ≤ code.len) × IsDone (slice code (u32 (pc + 2)) (u32 (pc + 10)))
Decodes two_imm code pc skip = IsDone (decode_two_immediates code pc skip)
Decodes one_offset code pc skip = IsDone (decode_one_offset code pc skip)
Decodes one_reg_one_imm code pc skip = IsDone (decode_one_register_and_one_immediate code pc skip)
Decodes one_reg_two_imm code pc skip = IsDone (decode_one_register_and_two_immediates code pc skip)
Decodes one_reg_imm_off code pc skip =
    IsDone (decode_one_register_one_immediate_and_one_offset code pc skip)
Decodes two_reg code pc skip = IsDone (decode_two_registers code pc)
Decodes two_reg_one_imm code pc skip = IsDone (decode_two_registers_and_one_immediate code pc skip)
Decodes two_reg_one_off code pc skip = IsDone (decode_two_registers_and_one_offset code pc skip)
Decodes two_reg_two_imm code pc skip = IsDone (decode_two_registers_and_two_immediates code pc skip)
Decodes three_reg code pc skip = IsDone (decode_three_registers code pc)

-- The opcode stands at the program counter, in a code of bytes that is no longer than a program counter
-- reaches; where it takes operands there is a byte behind it, and the operands can be decoded.
pub record IsInstr (s : Interp) (pc op skip : ℕ) : Type 0 where
  pub opcode : index s.program.code pc ≡ done op
  pub bytes : All IsByte s.program.code.full
  pub inside : takes_operands (category op) ≡ true → pc + 1 < s.program.code.len
  pub small : s.program.code.len ≤ 2 ^ 32 - 1
  pub decodes : Decodes (category op) s.program.code pc skip

abbrev pub Agrees : ℕ → Handler → MetaHandler → Type 0
Agrees op h m =
    (s : Interp) (pc skip : ℕ) → IsInstr s pc op skip → run_decoded m s pc op skip ≡ h s pc skip

-- The rows of two tables agree, opcode by opcode.
infixr 4 ◌≈◌
pub data Alike : List (ℕ × Handler) → List (ℕ × MetaHandler) → Type 0 where
  no_more : Alike [] []
  ◌≈◌ :
      {op : ℕ} {h : Handler} {m : MetaHandler} {rows : List (ℕ × Handler)}
      {metas : List (ℕ × MetaHandler)}
      → Agrees op h m
      → Alike rows metas
      → Alike ((op, h) ∷ rows) ((op, m) ∷ metas)
