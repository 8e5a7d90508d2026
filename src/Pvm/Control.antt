-- ===== src/Pvm/Control.antt =====
-- Basic blocks and jumps: the opcode table of PVM/opcode_info.go, `MakeBitMasks`, `skip` and the
-- tests of PVM/program_code.go, and PVM/branch.go.
pub mod Skip
pub mod Targets
use jam_protocol.Base.{
  ℕ, zero, suc, ◌+◌, ◌-◌, ◌*◌, ◌/◌, ◌%◌, ◌^◌, Bool, true, false, not, ◌&&◌, ◌||◌, Option, none,
  some, List, [], ◌∷◌, min, bit_and, bit_or, ltb, leb, ◌==◌, if◌then◌else◌, length, get_or, drop,
}
use jam_protocol.Base.Words.{u32}
use jam_protocol.Pvm.State.{
  Go, done, error, crash, ◌>>=◌, Slice, index, JumpTable, exit_continue, exit_halt, exit_panic, za,
}
use jam_protocol.Pvm.Extend.{read_uint_fixed}
use jam_protocol.Pvm.Decode.{sub32}

-- `InstrCategory`
pub data Category : Type 0 where
  invalid no_arg one_imm one_reg_ext_imm two_imm one_offset one_reg_one_imm one_reg_two_imm
        one_reg_imm_off two_reg two_reg_one_imm two_reg_one_off two_reg_two_imm three_reg :
      Category

-- `opcodeInfoTable` by its rows: each is a range of opcodes with one category.
unfoldable pub category : ℕ → Category
category op =
    if leb op 1
    then no_arg
    else if op == 10
    then one_imm
    else if op == 20
    then one_reg_ext_imm
    else if leb 30 op && leb op 33
    then two_imm
    else if op == 40
    then one_offset
    else if leb 50 op && leb op 62
    then one_reg_one_imm
    else if leb 70 op && leb op 73
    then one_reg_two_imm
    else if leb 80 op && leb op 90
    then one_reg_imm_off
    else if leb 100 op && leb op 111
    then two_reg
    else if leb 120 op && leb op 161
    then two_reg_one_imm
    else if leb 170 op && leb op 175
    then two_reg_one_off
    else if op == 180
    then two_reg_two_imm
    else if leb 190 op && leb op 230
    then three_reg
    else invalid

is_invalid : Category → Bool
is_invalid invalid = true
is_invalid _ = false

unfoldable pub is_valid_opcode : ℕ → Bool
unfolding category is_invalid
is_valid_opcode op = not (is_invalid (category op))

unfoldable pub is_block_terminator : ℕ → Bool
is_block_terminator op =
    leb op 1
    || op == 40
    || op == 50
    || (leb 80 op && leb op 90)
    || (leb 170 op && leb op 175)
    || op == 180

-- `isOpcodeValid` and `isOpcode` index the code, which can end in a run-time panic.
unfoldable pub is_opcode_valid : Slice → ℕ → Go Bool
is_opcode_valid code pc = do op ← index code pc; done (is_valid_opcode op)

unfoldable pub is_opcode : Slice → ℕ → Go ℕ
is_opcode code pc = do op ← index code pc; done (if is_valid_opcode op then op else 0)

unfoldable pub is_start_of_instruction : List ℕ → ℕ → Bool
is_start_of_instruction bitmask a = ltb a (length bitmask) && ltb 0 (get_or bitmask a 0)

unfoldable pub is_start_of_basic_block : List ℕ → ℕ → Bool
is_start_of_basic_block bitmask a = ltb a (length bitmask) && get_or bitmask a 0 == 3

-- The loop of `skip` from `j` on, with `len(bitmask) - pc - j` rounds left.
unfoldable pub skip_loop : ℕ → List ℕ → ℕ → ℕ → ℕ
skip_loop zero bitmask pc j = j
skip_loop (suc rounds) bitmask pc j =
    let next = skip_loop rounds bitmask pc (j + 1) in
    if is_start_of_instruction bitmask (j + pc) then j else next

unfoldable pub skip : List ℕ → ℕ → ℕ
skip bitmask pc = min 24 (skip_loop (length bitmask - (pc + 1)) bitmask pc 1 - 1)

-- The loop of `MakeBitMasks` from index `i` on, over the instruction bytes that are left; `prev` is
-- the opcode of the last instruction start.
unfoldable pub mask_loop : List ℕ → ℕ → ℕ → List ℕ → List ℕ
mask_loop mask_bytes i prev [] = []
mask_loop mask_bytes i prev (op ∷ rest) =
    let marked = ltb 0 (bit_and (get_or mask_bytes (i / 8) 0) (2 ^ (i % 8))) in
    let entry = if i == 0 || is_block_terminator prev then bit_or 1 2 else 1 in
    (if marked then entry else 0) ∷ mask_loop mask_bytes (i + 1) (if marked then op else prev) rest

-- `none` is the exit with a panic when the mask does not fit the code.
unfoldable pub make_bit_masks : List ℕ → List ℕ → Option (List ℕ)
make_bit_masks instruction mask_bytes =
    let n = length instruction in
    let size = if ltb 0 (n % 8) then n / 8 + 1 else n / 8 in
    if length mask_bytes == size
    then some (mask_loop mask_bytes 0 (get_or instruction 0 0) instruction)
    else none

-- `branch`: the exit reason and the next program counter.
unfoldable pub branch : ℕ → ℕ → Bool → List ℕ → Slice → Go (ℕ × ℕ)
branch pc b false bitmask code = done (exit_continue, pc)
branch pc b true bitmask code =
    if is_start_of_basic_block bitmask b then done (exit_continue, b) else do
      valid ← is_opcode_valid code b
      done (if valid then (exit_panic, pc) else (exit_continue, b))

unfoldable pub jump_entry : JumpTable → ℕ → Go ℕ
jump_entry table i =
    let start = u32 (i * table.width) in
    if ltb (length table.entries) start
    then crash
    else elim (read_uint_fixed (drop start table.entries) table.width) [
      | done (dest, _) ↦ done (u32 dest)
      | error ↦ crash
      | crash ↦ crash
    ]

unfoldable pub djump : ℕ → ℕ → JumpTable → List ℕ → Go (ℕ × ℕ)
djump pc a table bitmask =
    if a == 0xffff_0000
    then done (exit_halt, pc)
    else if a == 0 || ltb (u32 (table.size * za)) a || ltb 0 (a % za)
    then done (exit_panic, pc)
    else do
      dest ← jump_entry table (sub32 (a / za) 1)
      done
          (if is_start_of_basic_block bitmask dest then (exit_continue, dest) else (exit_panic, pc))
