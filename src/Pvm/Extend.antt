-- ===== src/Pvm/Extend.antt =====
-- Bits, bytes and sign extension: PVM/signed_unsigned_transitions.go and the readers at the end of
-- PVM/single_initializer.go.
use jam_protocol.Base.{
  ℕ, zero, suc, ◌+◌, ◌-◌, ◌*◌, ◌/◌, ◌%◌, ◌^◌, ◌≤◌, ◌<◌, ◌≡◌, refl, List, arith, ltb, ◌==◌,
  if◌then◌else◌, length, take, drop, bit_and,
}
use jam_protocol.Base.Bits.{bit_and_mask}
use jam_protocol.Base.Int.{shift_right}
use jam_protocol.Base.Words.{
  u8, u16, u32, shl64, signed8, signed16, signed32, signed64, unsigned64, extend8, extend16,
  extend32,
}
use jam_protocol.Codec.{or_bytes}
use jam_protocol.Pvm.State.{Go, done, error, ◌>>=◌}

-- `SignExtend`
unfoldable pub sign_extend : ℕ → ℕ → Go ℕ
sign_extend n x =
    if n == 0
    then done x
    else if n == 1
    then done (unsigned64 (signed8 (u8 x)))
    else if n == 2
    then done (unsigned64 (signed16 (u16 x)))
    else if n == 3
    then done (unsigned64 (shift_right (signed64 (shl64 (bit_and x 0xff_ffff) 40)) 40))
    else if n == 4
    then done (unsigned64 (signed32 (u32 x)))
    else if n == 8
    then done x
    else error

-- `ReadUintFixed`
unfoldable pub read_uint_fixed : List ℕ → ℕ → Go (ℕ × List ℕ)
read_uint_fixed bytes n =
    if n == 0
    then done (0, bytes)
    else if ltb 8 n
    then error
    else if ltb (length bytes) n
    then error
    else done (or_bytes 64 (take n bytes) 0 0, drop n bytes)

-- `ReadUintSignExtended`
unfoldable pub read_uint_sign_extended : List ℕ → ℕ → Go (ℕ × List ℕ)
read_uint_sign_extended bytes n = do
  (value, rest) ← read_uint_fixed bytes n
  extended ← sign_extend (u8 n) value
  done (extended, rest)

-- `ReadBytes`
unfoldable pub read_bytes : List ℕ → ℕ → Go (List ℕ × List ℕ)
read_bytes bytes n = if ltb (length bytes) n then error else done (take n bytes, drop n bytes)

-- X_n of the Gray Paper: the word with its top bit spread over the upper bytes.
abbrev pub extended : ℕ → ℕ → ℕ
extended n x = x + x / 2 ^ (8 * n - 1) * (2 ^ 64 - 2 ^ (8 * n))

extend24 : (x : ℕ) → x < 2 ^ 24 → unsigned64 (shift_right (signed64 (shl64 x 40)) 40) ≡ extended 3 x
extend24 x h = ground arith

-- For 1 to 4 bytes, `SignExtend` is the Gray Paper's X of the low bytes of the word.
pub sign_extend_lem :
    (n x : ℕ) → 0 < n → n ≤ 4 → sign_extend n x ≡ done (extended n (x % 2 ^ (8 * n)))
unfolding sign_extend
sign_extend_lem zero x p q = absurd (omega arith)
sign_extend_lem (suc zero) x p q = rw (extend8 (x % 2 ^ 8) (omega arith)) refl
sign_extend_lem (suc (suc zero)) x p q = rw (extend16 (x % 2 ^ 16) (omega arith)) refl
sign_extend_lem (suc (suc (suc zero))) x p q =
    rw (bit_and_mask 24 x, extend24 (x % 2 ^ 24) (omega arith)) refl
sign_extend_lem (suc (suc (suc (suc zero)))) x p q = rw (extend32 (x % 2 ^ 32) (omega arith)) refl
sign_extend_lem (suc (suc (suc (suc (suc n))))) x p q = absurd (omega arith)
