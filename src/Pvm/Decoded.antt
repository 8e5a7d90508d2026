-- ===== src/Pvm/Decoded.antt =====
-- Instructions decoded before the run: `InstrMeta` and `decodeOperands` of PVM/block_info.go, and
-- what the decoded handlers of PVM/instructions_instrmeta.go share. A register number that was not
-- decoded is 0xff, and using it as an index is a run-time panic of Go.
pub mod Basic
pub mod Access
pub mod TwoReg
pub mod Immediate
pub mod ThreeReg
pub mod Table
pub mod Agree
use jam_protocol.Base.{
  ℕ, ◌+◌, ◌%◌, ◌^◌, Bool, true, false, not, ◌&&◌, Option, none, some, min, ltb, leb, ◌==◌,
  if◌then◌else◌,
}
use jam_protocol.Base.Words.{u32}
use jam_protocol.Pvm.State.{
  Go, done, error, crash, ◌>>=◌, Slice, index, slice, Interp, Out, reg, set_reg, out, exit_continue,
}
use jam_protocol.Pvm.Memory.{get_uint}
use jam_protocol.Pvm.Decode.{
  low_register, decode_one_immediate, decode_two_immediates, decode_one_offset,
  decode_one_register_and_one_immediate, decode_one_register_and_two_immediates,
  decode_one_register_one_immediate_and_one_offset, decode_two_registers,
  decode_two_registers_and_one_immediate, decode_two_registers_and_one_offset,
  decode_two_registers_and_two_immediates, decode_three_registers,
}
use jam_protocol.Pvm.Control.{
  Category, invalid, no_arg, one_imm, one_reg_ext_imm, two_imm, one_offset, one_reg_one_imm,
  one_reg_two_imm, one_reg_imm_off, two_reg, two_reg_one_imm, two_reg_one_off, two_reg_two_imm,
  three_reg, category,
}

-- The handler `Exec` of an instruction is a function of its opcode, and is looked up in the table.
pub record InstrMeta : Type 0 where
  pub pc : ℕ
  pub opcode : ℕ
  pub skip_len : ℕ
  pub dst : ℕ
  pub src_0 : ℕ
  pub src_1 : ℕ
  pub imm_0 : ℕ
  pub imm_1 : ℕ

-- A handler over a decoded instruction; `none` is a run-time panic.
abbrev pub MetaHandler : Type 0
MetaHandler = Interp → InstrMeta → Option Out

-- `interp.Registers[r]` as a value and as a variable.
unfoldable pub with_reg : Interp → ℕ → (ℕ → Option Out) → Option Out
with_reg s r k = if ltb r 13 then k (reg s r) else none

unfoldable pub put_reg : Interp → ℕ → ℕ → (Interp → Option Out) → Option Out
put_reg s r v k = if ltb r 13 then k (set_reg s r v) else none

-- The instruction as it is made, before its operands are decoded.
abbrev pub blank : ℕ → ℕ → ℕ → InstrMeta
blank pc op skip = record {
  pc = pc;
  opcode = op;
  skip_len = skip;
  dst = 0xff;
  src_0 = 0xff;
  src_1 = 0xff;
  imm_0 = 0;
  imm_1 = 0;
}

-- `if …, err := …; err == nil { … }`
unfoldable pub on_ok {ℓ} : {A : Type ℓ} → Go A → InstrMeta → (A → InstrMeta) → Go InstrMeta
on_ok (done a) i f = done (f a)
on_ok error i f = done i
on_ok crash i f = crash

-- The `switch` on the category.
unfoldable pub fill_operands : Category → Slice → InstrMeta → Go InstrMeta
fill_operands invalid code i = done i
fill_operands no_arg code i = done i
fill_operands one_imm code i =
    if ltb i.skip_len 1
    then done i
    else on_ok (decode_one_immediate code i.pc i.skip_len) i (λ x. record i { imm_0 = x })
fill_operands one_reg_ext_imm code i = do
  b ← index code (u32 (i.pc + 1))
  if leb (u32 (i.pc + 10)) code.len
      then (do
        bytes ← slice code (u32 (i.pc + 2)) (u32 (i.pc + 10))
        done (record i { dst = min 12 (b % 16); imm_0 = get_uint bytes }))
      else done (record i { dst = min 12 (b % 16) })
fill_operands two_imm code i =
    on_ok (decode_two_immediates code i.pc i.skip_len) i
      λ (vx, vy). record i { imm_0 = vx; imm_1 = vy }
fill_operands one_offset code i =
    on_ok (decode_one_offset code i.pc i.skip_len) i (λ target. record i { imm_0 = target })
fill_operands one_reg_one_imm code i =
    on_ok (decode_one_register_and_one_immediate code i.pc i.skip_len) i
      λ (ra, vx). record i { dst = ra; src_0 = ra; imm_0 = vx }
fill_operands one_reg_two_imm code i =
    on_ok (decode_one_register_and_two_immediates code i.pc i.skip_len) i
      λ (ra, vx, vy). record i { dst = ra; src_0 = ra; imm_0 = vx; imm_1 = vy }
fill_operands one_reg_imm_off code i =
    on_ok (decode_one_register_one_immediate_and_one_offset code i.pc i.skip_len) i
      λ (ra, vx, target). record i { dst = ra; src_0 = ra; imm_0 = vx; imm_1 = target }
fill_operands two_reg code i =
    on_ok (decode_two_registers code i.pc) i λ (rd, ra). record i { dst = rd; src_0 = ra }
fill_operands two_reg_one_imm code i =
    on_ok (decode_two_registers_and_one_immediate code i.pc i.skip_len) i
      λ (ra, rb, vx). record i { dst = ra; src_0 = rb; imm_0 = vx }
fill_operands two_reg_one_off code i =
    on_ok (decode_two_registers_and_one_offset code i.pc i.skip_len) i
      λ (ra, rb, target). record i { src_0 = ra; src_1 = rb; imm_0 = target }
fill_operands two_reg_two_imm code i =
    on_ok (decode_two_registers_and_two_immediates code i.pc i.skip_len) i
      λ (ra, rb, vx, vy). record i { dst = ra; src_0 = rb; imm_0 = vx; imm_1 = vy }
fill_operands three_reg code i =
    on_ok (decode_three_registers code i.pc) i
      λ (ra, rb, rd). record i { dst = rd; src_0 = ra; src_1 = rb }

unfoldable pub takes_operands : Category → Bool
takes_operands no_arg = false
takes_operands _ = true

-- `decodeOperands`; the sum `int(pc)+1` does not wrap.
unfoldable pub decode_operands : Slice → InstrMeta → Go InstrMeta
unfolding takes_operands
decode_operands code i =
    let j = record i { dst = 0xff; src_0 = 0xff; src_1 = 0xff } in
    if takes_operands (category i.opcode) && leb code.len (i.pc + 1)
    then done j
    else fill_operands (category i.opcode) code j

unfoldable pub meta_two_registers : Interp → InstrMeta → (ℕ → ℕ) → Option Out
unfolding with_reg put_reg
meta_two_registers s i f =
    with_reg s i.src_0 λ a. put_reg s i.dst (f a) λ s'. out s' exit_continue i.pc

unfoldable pub meta_two_registers_one_immediate : Interp → InstrMeta → (ℕ → ℕ → ℕ) → Option Out
unfolding with_reg put_reg
meta_two_registers_one_immediate s i f =
    with_reg s i.src_0 λ b. put_reg s i.dst (f b i.imm_0) λ s'. out s' exit_continue i.pc

unfoldable pub meta_three_registers : Interp → InstrMeta → (ℕ → ℕ → ℕ) → Option Out
unfolding with_reg put_reg
meta_three_registers s i f =
    with_reg s i.src_0
      λ a. with_reg s i.src_1 λ b. put_reg s i.dst (f a b) λ s'. out s' exit_continue i.pc

-- The end of a load into a register, whose value `f` adjusts.
unfoldable pub meta_loaded : Interp → InstrMeta → ℕ → (ℕ → ℕ) → ℕ × ℕ → Option Out
unfolding put_reg
meta_loaded s i r f (v, reason) =
    if reason == exit_continue
    then put_reg s r (f v) (λ s'. out s' exit_continue i.pc)
    else out s reason i.pc
