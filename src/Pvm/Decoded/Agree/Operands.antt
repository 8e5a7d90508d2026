-- ===== src/Pvm/Decoded/Agree/Operands.antt =====
-- The register numbers that the decoders give are below 13, and their jump targets fit 32 bits.
use jam_protocol.Base.{ℕ, ◌^◌, ◌<◌, ◌≡◌, subst, arith, leb}
use jam_protocol.Pvm.State.{Go, done, Slice, index}
use jam_protocol.Pvm.Decode.{
  low_register, high_register, get_reg_mod_index, get_reg_floor_index, read_signed, read_extended,
  read_plain, decode_one_offset, decode_one_register_and_one_immediate,
  decode_one_register_and_two_immediates, decode_one_register_one_immediate_and_one_offset,
  decode_two_registers, decode_two_registers_and_one_immediate, decode_two_registers_and_one_offset,
  decode_two_registers_and_two_immediates, decode_three_registers,
}
use jam_protocol.Pvm.Machine.{Post, Post-bind}
use jam_protocol.Pvm.Machine.Decoded.{Any, Post-Any, Post-if}

-- What holds of whatever a call gives holds of what it gave.
pub of_done {ℓ} : {A : Type ℓ} (P : A → Type 0) (g : Go A) (a : A) → Post P g → g ≡ done a → P a
of_done P g a h e = subst (Post P) e h

low_register-lt : (b : ℕ) → low_register b < 13
unfolding low_register
low_register-lt b = omega arith

high_register-lt : (b : ℕ) → high_register b < 13
unfolding high_register
high_register-lt b = omega arith

abbrev IsReg : ℕ → Type 0
IsReg r = r < 13

abbrev FirstReg : ℕ × ℕ → Type 0
FirstReg p = p.0 < 13

abbrev pub TwoRegs : ℕ × ℕ → Type 0
TwoRegs p = (p.0 < 13) × (p.1 < 13)

abbrev OneOfThree : ℕ × ℕ × ℕ → Type 0
OneOfThree p = p.0 < 13

abbrev RegAndTarget : ℕ × ℕ × ℕ → Type 0
RegAndTarget p = (p.0 < 13) × (p.2 < 2 ^ 32)

abbrev TwoOfThree : ℕ × ℕ × ℕ → Type 0
TwoOfThree p = (p.0 < 13) × (p.1 < 13)

abbrev TwoRegsAndTarget : ℕ × ℕ × ℕ → Type 0
TwoRegsAndTarget p = (p.0 < 13) × (p.1 < 13) × (p.2 < 2 ^ 32)

abbrev ThreeRegs : ℕ × ℕ × ℕ → Type 0
ThreeRegs p = (p.0 < 13) × (p.1 < 13) × (p.2 < 13)

abbrev TwoOfFour : ℕ × ℕ × ℕ × ℕ → Type 0
TwoOfFour p = (p.0 < 13) × (p.1 < 13)

abbrev Fits : ℕ → Type 0
Fits x = x < 2 ^ 32

module _ (code : Slice) (pc : ℕ) where
  mod_index-Post : Post IsReg (get_reg_mod_index code pc)
  unfolding get_reg_mod_index
  mod_index-Post = Post-bind Any IsReg (index code _) _ (Post-Any _) (λ b _. low_register-lt b)

  floor_index-Post : Post IsReg (get_reg_floor_index code pc)
  unfolding get_reg_floor_index
  floor_index-Post = Post-bind Any IsReg (index code _) _ (Post-Any _) (λ b _. high_register-lt b)

  pub two_registers-Regs : Post TwoRegs (decode_two_registers code pc)
  unfolding decode_two_registers
  two_registers-Regs = Post-if TwoRegs (leb code.len _) _ _ tt (
      Post-bind IsReg TwoRegs (get_reg_mod_index code pc) _ mod_index-Post λ rd p.
        Post-bind IsReg TwoRegs (get_reg_floor_index code pc) _ floor_index-Post (λ ra q. (p, q)))

  pub three_registers-Regs : Post ThreeRegs (decode_three_registers code pc)
  unfolding decode_three_registers
  three_registers-Regs = Post-if ThreeRegs (leb code.len _) _ _ tt (
      Post-bind IsReg ThreeRegs (get_reg_mod_index code pc) _ mod_index-Post λ ra p.
        Post-bind IsReg ThreeRegs (get_reg_floor_index code pc) _ floor_index-Post λ rb q.
          Post-bind Any ThreeRegs (index code _) _ (Post-Any _) (λ d _. (p, q, omega arith)))

module _ (code : Slice) (pc skip : ℕ) where
  pub one_offset-Fits : Post Fits (decode_one_offset code pc skip)
  unfolding decode_one_offset
  one_offset-Fits = Post-bind Any Fits (read_extended code _ _) _ (Post-Any _) (λ o _. omega arith)

  pub one_register_and_one_immediate-Reg :
      Post FirstReg (decode_one_register_and_one_immediate code pc skip)
  unfolding decode_one_register_and_one_immediate
  one_register_and_one_immediate-Reg = Post-bind Any FirstReg (index code _) _ (Post-Any _) λ b _.
      Post-bind Any FirstReg (read_extended code _ _) _ (Post-Any _) (λ v _. low_register-lt b)

  pub one_register_and_two_immediates-Reg :
      Post OneOfThree (decode_one_register_and_two_immediates code pc skip)
  unfolding decode_one_register_and_two_immediates
  one_register_and_two_immediates-Reg =
      Post-bind Any OneOfThree (index code _) _ (Post-Any _) λ b _.
        Post-bind Any OneOfThree (read_signed code _ _) _ (Post-Any _) λ vx _.
          Post-bind Any OneOfThree (read_signed code _ _) _ (Post-Any _) (λ v _. low_register-lt b)

  pub one_immediate_and_one_offset-Reg :
      Post RegAndTarget (decode_one_register_one_immediate_and_one_offset code pc skip)
  unfolding decode_one_register_one_immediate_and_one_offset
  one_immediate_and_one_offset-Reg = Post-bind Any RegAndTarget (index code _) _ (Post-Any _) λ b _.
      Post-bind Any RegAndTarget (read_extended code _ _) _ (Post-Any _) λ vx _.
        Post-bind Any RegAndTarget (read_extended code _ _) _ (Post-Any _)
          (λ v _. (low_register-lt b, omega arith))

  pub two_registers_and_one_immediate-Regs :
      Post TwoOfThree (decode_two_registers_and_one_immediate code pc skip)
  unfolding decode_two_registers_and_one_immediate
  two_registers_and_one_immediate-Regs =
      Post-bind Any TwoOfThree (index code _) _ (Post-Any _) λ b _.
        Post-bind Any TwoOfThree (read_signed code _ _) _ (Post-Any _)
          (λ v _. (omega arith, high_register-lt b))

  pub two_registers_and_one_offset-Regs :
      Post TwoRegsAndTarget (decode_two_registers_and_one_offset code pc skip)
  unfolding decode_two_registers_and_one_offset
  two_registers_and_one_offset-Regs =
      Post-bind Any TwoRegsAndTarget (index code _) _ (Post-Any _) λ b _.
        Post-bind Any TwoRegsAndTarget (read_extended code _ _) _ (Post-Any _)
          (λ v _. (low_register-lt b, high_register-lt b, omega arith))

  pub two_registers_and_two_immediates-Regs :
      Post TwoOfFour (decode_two_registers_and_two_immediates code pc skip)
  unfolding decode_two_registers_and_two_immediates
  two_registers_and_two_immediates-Regs =
      Post-bind Any TwoOfFour (index code _) _ (Post-Any _) λ b _.
        Post-bind Any TwoOfFour (index code _) _ (Post-Any _) λ c _.
          Post-bind Any TwoOfFour (read_plain code _ _) _ (Post-Any _) λ vx _.
            Post-bind Any TwoOfFour (read_plain code _ _) _ (Post-Any _)
              (λ v _. (low_register-lt b, high_register-lt b))
