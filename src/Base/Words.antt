-- ===== src/Base/Words.antt =====
-- Go's fixed-width unsigned words: conversions, wrapping arithmetic and shifts, and the signed
-- reading of a word. A word of w bits is a number below 2 ^ w.
use Prim.Native.Nat.{ℕ, ◌+◌, ◌-◌, ◌*◌, ◌/◌, ◌%◌, ◌^◌, ◌<◌}
use mathlib.Core.Path.{◌≡◌}
use native.Mathlib.Omega.{arith}
use jam_protocol.Base.Tests.{ltb, if◌then◌else◌}
use jam_protocol.Base.Int.{ℤ, pos, negsuc}

abbrev pub u8 : ℕ → ℕ
u8 x = x % 2 ^ 8

abbrev pub u16 : ℕ → ℕ
u16 x = x % 2 ^ 16

abbrev pub u32 : ℕ → ℕ
u32 x = x % 2 ^ 32

abbrev pub u64 : ℕ → ℕ
u64 x = x % 2 ^ 64

abbrev pub IsByte : ℕ → Type 0
IsByte b = b < 256

abbrev pub IsU64 : ℕ → Type 0
IsU64 x = x < 2 ^ 64

abbrev pub add64 : ℕ → ℕ → ℕ
add64 a b = u64 (a + b)

-- `-` on ℕ stops at 0, so the modulus is added first.
abbrev pub sub64 : ℕ → ℕ → ℕ
sub64 a b = u64 (a + 2 ^ 64 - b)

abbrev pub mul64 : ℕ → ℕ → ℕ
mul64 a b = u64 (a * b)

abbrev pub shl64 : ℕ → ℕ → ℕ
shl64 a k = u64 (a * 2 ^ k)

abbrev pub shr : ℕ → ℕ → ℕ
shr a k = a / 2 ^ k

-- ^x on a uint64
abbrev pub not64 : ℕ → ℕ
not64 x = 2 ^ 64 - 1 - x

-- The integer that a word stands for in two's complement.
abbrev pub signed8 : ℕ → ℤ
signed8 x = if ltb x (2 ^ 7) then pos x else negsuc (2 ^ 8 - x - 1)

abbrev pub signed16 : ℕ → ℤ
signed16 x = if ltb x (2 ^ 15) then pos x else negsuc (2 ^ 16 - x - 1)

abbrev pub signed32 : ℕ → ℤ
signed32 x = if ltb x (2 ^ 31) then pos x else negsuc (2 ^ 32 - x - 1)

abbrev pub signed64 : ℕ → ℤ
signed64 x = if ltb x (2 ^ 63) then pos x else negsuc (2 ^ 64 - x - 1)

-- uint64 of an int64
abbrev pub unsigned64 : ℤ → ℕ
unsigned64 (pos n) = u64 n
unsigned64 (negsuc n) = 2 ^ 64 - 1 - u64 n

pub unsigned64-signed64 : (x : ℕ) → x < 2 ^ 64 → unsigned64 (signed64 x) ≡ x
unsigned64-signed64 x h = ground arith

pub unsigned64-lt : (z : ℤ) → unsigned64 z < 2 ^ 64
unsigned64-lt (pos n) = omega arith
unsigned64-lt (negsuc n) = omega arith

-- A sign-extended word in plain arithmetic.
pub extend8 : (x : ℕ) → x < 2 ^ 8 → unsigned64 (signed8 x) ≡ x + x / 2 ^ 7 * (2 ^ 64 - 2 ^ 8)
extend8 x h = ground arith

pub extend16 : (x : ℕ) → x < 2 ^ 16 → unsigned64 (signed16 x) ≡ x + x / 2 ^ 15 * (2 ^ 64 - 2 ^ 16)
extend16 x h = ground arith

pub extend32 : (x : ℕ) → x < 2 ^ 32 → unsigned64 (signed32 x) ≡ x + x / 2 ^ 31 * (2 ^ 64 - 2 ^ 32)
extend32 x h = ground arith
