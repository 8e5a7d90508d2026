-- ===== src/Pvm/Decode.antt =====
-- The operand decoders of PVM/decode.go. A program counter and a skip length are uint32 values, so
-- their sums and differences wrap; `sub32` writes that out.
use jam_protocol.Base.{ℕ, ◌+◌, ◌-◌, ◌/◌, ◌%◌, ◌^◌, min, max, bit_and, leb, if◌then◌else◌, length}
use jam_protocol.Base.Words.{u8, u32}
use jam_protocol.Codec.{deserialize_fixed_length}
use jam_protocol.Base.{Option, none, some}
use jam_protocol.Pvm.State.{Go, done, error, ◌>>=◌, Slice, index, slice}
use jam_protocol.Pvm.Extend.{sign_extend, read_uint_fixed, read_uint_sign_extended}

-- a - b on uint32
abbrev pub sub32 : ℕ → ℕ → ℕ
sub32 a b = u32 (a + 2 ^ 32 - b)

-- The register number of a nibble.
unfoldable pub low_register : ℕ → ℕ
low_register b = min 12 (b % 16)

unfoldable pub high_register : ℕ → ℕ
high_register b = min 12 (b / 2 ^ 4)

-- `getRegModIndex` and `getRegFloorIndex`
unfoldable pub get_reg_mod_index : Slice → ℕ → Go ℕ
get_reg_mod_index code pc = do b ← index code (u32 (pc + 1)); done (low_register b)

unfoldable pub get_reg_floor_index : Slice → ℕ → Go ℕ
get_reg_floor_index code pc = do b ← index code (u32 (pc + 1)); done (high_register b)

-- min(4, max(0, skip - used)); the difference is unsigned, so `max` does nothing.
unfoldable pub immediate_length : ℕ → ℕ → ℕ
immediate_length skip used = min 4 (max 0 (sub32 skip used))

unfoldable pub lift_option : Option ℕ → Go ℕ
lift_option none = error
lift_option (some x) = done x

-- `utils.DeserializeFixedLength` at type U64, and `SignExtend` of its result.
unfoldable pub read_signed : Slice → ℕ → ℕ → Go ℕ
read_signed code from n = do
  bytes ← slice code from (u32 (from + n))
  value ← lift_option (deserialize_fixed_length 64 bytes n)
  sign_extend (u8 n) value

-- `ReadUintSignExtended` of the bytes of a slice, and `ReadIntFixed`, which differs in its type.
unfoldable pub read_extended : Slice → ℕ → ℕ → Go ℕ
read_extended code from n = do
  bytes ← slice code from (u32 (from + n))
  (value, _) ← read_uint_sign_extended bytes (length bytes)
  done value

-- `ReadUintFixed` of the bytes of a slice.
unfoldable pub read_plain : Slice → ℕ → ℕ → Go ℕ
read_plain code from n = do
  bytes ← slice code from (u32 (from + n))
  (value, _) ← read_uint_fixed bytes (length bytes)
  done value

-- A jump target: pc + ProgramCounter(offset).
abbrev pub target_of : ℕ → ℕ → ℕ
target_of pc offset = u32 (pc + u32 offset)

unfoldable pub decode_one_immediate : Slice → ℕ → ℕ → Go ℕ
decode_one_immediate code pc skip = read_extended code (u32 (pc + 1)) (min 4 skip)

unfoldable pub decode_two_immediates : Slice → ℕ → ℕ → Go (ℕ × ℕ)
decode_two_immediates code pc skip = do
  b ← index code (u32 (pc + 1))
  let lx = min 4 b
  vx ← read_signed code (u32 (pc + 2)) lx
  vy ← read_signed code (u32 (pc + 2 + lx)) (immediate_length skip (lx + 1))
  done (vx, vy)

unfoldable pub decode_one_offset : Slice → ℕ → ℕ → Go ℕ
decode_one_offset code pc skip = do
  offset ← read_extended code (u32 (pc + 1)) (min 4 skip)
  done (target_of pc offset)

unfoldable pub decode_one_register_and_one_immediate : Slice → ℕ → ℕ → Go (ℕ × ℕ)
decode_one_register_and_one_immediate code pc skip = do
  b ← index code (u32 (pc + 1))
  vx ← read_extended code (u32 (pc + 2)) (immediate_length skip 1)
  done (low_register b, vx)

unfoldable pub decode_one_register_and_two_immediates : Slice → ℕ → ℕ → Go (ℕ × ℕ × ℕ)
decode_one_register_and_two_immediates code pc skip = do
  b ← index code (u32 (pc + 1))
  let lx = min 4 (b / 2 ^ 4)
  vx ← read_signed code (u32 (pc + 2)) lx
  vy ← read_signed code (u32 (pc + 2 + lx)) (immediate_length skip (lx + 1))
  done (low_register b, vx, vy)

unfoldable pub decode_one_register_one_immediate_and_one_offset : Slice → ℕ → ℕ → Go (ℕ × ℕ × ℕ)
decode_one_register_one_immediate_and_one_offset code pc skip = do
  b ← index code (u32 (pc + 1))
  let lx = min 4 (b / 2 ^ 4 % 8)
  vx ← read_extended code (u32 (pc + 2)) lx
  offset ← read_extended code (u32 (pc + 2 + lx)) (immediate_length skip (lx + 1))
  done (low_register b, vx, target_of pc offset)

-- The result is rD, rA.
unfoldable pub decode_two_registers : Slice → ℕ → Go (ℕ × ℕ)
decode_two_registers code pc =
    if leb code.len (u32 (pc + 1))
    then error
    else do rd ← get_reg_mod_index code pc; ra ← get_reg_floor_index code pc; done (rd, ra)

unfoldable pub decode_two_registers_and_one_immediate : Slice → ℕ → ℕ → Go (ℕ × ℕ × ℕ)
decode_two_registers_and_one_immediate code pc skip = do
  b ← index code (u32 (pc + 1))
  vx ← read_signed code (u32 (pc + 2)) (immediate_length skip 1)
  done (min 12 (bit_and b 15), high_register b, vx)

unfoldable pub decode_two_registers_and_one_offset : Slice → ℕ → ℕ → Go (ℕ × ℕ × ℕ)
decode_two_registers_and_one_offset code pc skip = do
  b ← index code (u32 (pc + 1))
  offset ← read_extended code (u32 (pc + 2)) (immediate_length skip 1)
  done (low_register b, high_register b, target_of pc offset)

unfoldable pub decode_two_registers_and_two_immediates : Slice → ℕ → ℕ → Go (ℕ × ℕ × ℕ × ℕ)
decode_two_registers_and_two_immediates code pc skip = do
  b ← index code (u32 (pc + 1))
  c ← index code (u32 (pc + 2))
  let lx = min 4 (c % 8)
  vx ← read_plain code (u32 (pc + 3)) lx
  vy ← read_plain code (u32 (pc + 3 + lx)) (immediate_length skip (lx + 2))
  done (low_register b, high_register b, vx, vy)

-- The result is rA, rB, rD.
unfoldable pub decode_three_registers : Slice → ℕ → Go (ℕ × ℕ × ℕ)
decode_three_registers code pc = if leb code.len (u32 (pc + 2)) then error else do
  ra ← get_reg_mod_index code pc
  rb ← get_reg_floor_index code pc
  d ← index code (u32 (pc + 2))
  done (ra, rb, min 12 d)
