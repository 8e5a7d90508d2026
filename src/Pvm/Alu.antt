-- ===== src/Pvm/Alu.antt =====
-- The values that the register instructions of PVM/instructions.go compute, on 64-bit words, and
-- the functions of Go's math/bits that they call.
pub mod Product
pub mod Rotation
use jam_protocol.Base.{
  ℕ, zero, suc, ◌+◌, ◌-◌, ◌*◌, ◌/◌, ◌%◌, ◌^◌, Bool, ◌&&◌, List, [], ◌∷◌, ◌++◌, ltb, ◌==◌,
  if◌then◌else◌,
}
use jam_protocol.Base.Int.{
  ℤ, pos, negsuc, quot_ℤ, rem_ℤ, ◌==ℤ◌, ltb_ℤ, magnitude, is_neg, shift_right,
}
use jam_protocol.Base.Words.{u32, sub64, signed32, signed64, unsigned64}
use jam_protocol.Base.{◌≡◌, refl}
use jam_protocol.Pvm.State.{done}
use jam_protocol.Pvm.Extend.{sign_extend}
use jam_protocol.Pvm.Memory.{put_uint, get_uint}

-- bits.OnesCount on the low `w` bits
unfoldable pub ones_count : ℕ → ℕ → ℕ
ones_count zero x = 0
ones_count (suc w) x = x % 2 + ones_count w (x / 2)

-- bits.Len of a number of at most `w` bits
unfoldable pub bit_length : ℕ → ℕ → ℕ
bit_length zero x = 0
bit_length (suc w) x = let rest = bit_length w (x / 2) in if x == 0 then 0 else suc rest

unfoldable pub leading_zeros : ℕ → ℕ → ℕ
leading_zeros w x = w - bit_length w x

-- bits.TrailingZeros at width `w`; it is `w` at 0
unfoldable pub trailing_zeros : ℕ → ℕ → ℕ
trailing_zeros zero x = 0
trailing_zeros (suc w) x = let rest = trailing_zeros w (x / 2) in if x % 2 == 1 then 0 else suc rest

unfoldable pub reversed : List ℕ → List ℕ
reversed [] = []
reversed (b ∷ rest) = reversed rest ++ b ∷ []

-- bits.ReverseBytes64
unfoldable pub reverse_bytes64 : ℕ → ℕ
reverse_bytes64 x = get_uint (reversed (put_uint 8 x))

-- bits.RotateLeft at width `w` by k below w: the two shifted parts share no bit.
unfoldable pub rotate_left : ℕ → ℕ → ℕ → ℕ
rotate_left w x k = x * 2 ^ k % 2 ^ w + x / 2 ^ (w - k)

-- RotateLeft takes its count modulo the width; a negative count turns right.
unfoldable pub rotate_left64 : ℕ → ℕ → ℕ
rotate_left64 x k = rotate_left 64 x (k % 64)

unfoldable pub rotate_right64 : ℕ → ℕ → ℕ
rotate_right64 x k = rotate_left 64 x ((64 - k % 64) % 64)

unfoldable pub rotate_left32 : ℕ → ℕ → ℕ
rotate_left32 x k = rotate_left 32 x (k % 32)

unfoldable pub rotate_right32 : ℕ → ℕ → ℕ
rotate_right32 x k = rotate_left 32 x ((32 - k % 32) % 32)

-- The value of `SignExtend(4, x)`, which has no error at 4.
unfoldable pub sign_extend_4 : ℕ → ℕ
sign_extend_4 x = unsigned64 (signed32 (u32 x))

pub sign_extend_4_lem : (x : ℕ) → sign_extend 4 x ≡ done (sign_extend_4 x)
unfolding sign_extend sign_extend_4
sign_extend_4_lem x = refl

abbrev pub minus_one : ℕ
minus_one = 2 ^ 64 - 1

abbrev flag : Bool → ℕ
flag b = if b then 1 else 0

unfoldable pub smod : ℤ → ℤ → ℤ
smod a b = if b ==ℤ pos 0 then a else rem_ℤ a b

unfoldable pub div_u_32 : ℕ → ℕ → ℕ
unfolding sign_extend_4
div_u_32 a b = if u32 b == 0 then minus_one else sign_extend_4 (u32 a / u32 b)

unfoldable pub div_s_32 : ℕ → ℕ → ℕ
div_s_32 a b =
    let x = signed32 (u32 a) in
    let y = signed32 (u32 b) in
    if y ==ℤ pos 0
    then minus_one
    else if x ==ℤ negsuc (2 ^ 31 - 1) && y ==ℤ negsuc 0
    then unsigned64 x
    else unsigned64 (quot_ℤ x y)

unfoldable pub rem_u_32 : ℕ → ℕ → ℕ
unfolding sign_extend_4
rem_u_32 a b = if u32 b == 0 then sign_extend_4 (u32 a) else sign_extend_4 (u32 a % u32 b)

unfoldable pub rem_s_32 : ℕ → ℕ → ℕ
rem_s_32 a b =
    let x = signed32 (u32 a) in
    let y = signed32 (u32 b) in
    if x ==ℤ negsuc (2 ^ 31 - 1) && y ==ℤ negsuc 0 then 0 else unsigned64 (smod x y)

unfoldable pub shar_r_32 : ℕ → ℕ → ℕ
shar_r_32 a k = unsigned64 (shift_right (signed32 (u32 a)) k)

unfoldable pub div_u_64 : ℕ → ℕ → ℕ
div_u_64 a b = if b == 0 then minus_one else a / b

unfoldable pub div_s_64 : ℕ → ℕ → ℕ
div_s_64 a b =
    if b == 0
    then minus_one
    else if signed64 a ==ℤ negsuc (2 ^ 63 - 1) && signed64 b ==ℤ negsuc 0
    then a
    else unsigned64 (quot_ℤ (signed64 a) (signed64 b))

unfoldable pub rem_u_64 : ℕ → ℕ → ℕ
rem_u_64 a b = if b == 0 then a else a % b

unfoldable pub rem_s_64 : ℕ → ℕ → ℕ
rem_s_64 a b =
    if signed64 a ==ℤ negsuc (2 ^ 63 - 1) && signed64 b ==ℤ negsuc 0
    then 0
    else unsigned64 (smod (signed64 a) (signed64 b))

unfoldable pub shar_r_64 : ℕ → ℕ → ℕ
shar_r_64 a k = unsigned64 (shift_right (signed64 a) k)

-- The high word of |a| * |b|, negated if the signs differ.
unfoldable pub mul_upper_s_s : ℕ → ℕ → ℕ
mul_upper_s_s a b =
    let hi = magnitude (signed64 a) * magnitude (signed64 b) / 2 ^ 64 in
    if is_neg (signed64 a)
    then (if is_neg (signed64 b) then hi else sub64 0 hi)
    else if is_neg (signed64 b)
    then sub64 0 hi
    else hi

unfoldable pub mul_upper_u_u : ℕ → ℕ → ℕ
mul_upper_u_u a b = a * b / 2 ^ 64

unfoldable pub mul_upper_s_u : ℕ → ℕ → ℕ
mul_upper_s_u a b =
    let hi = magnitude (signed64 a) * b / 2 ^ 64 in
    let lo = magnitude (signed64 a) * b % 2 ^ 64 in
    if is_neg (signed64 a) then (if lo == 0 then sub64 0 hi else sub64 (sub64 0 hi) 1) else hi

unfoldable pub set_lt_u : ℕ → ℕ → ℕ
set_lt_u a b = flag (ltb a b)

unfoldable pub set_lt_s : ℕ → ℕ → ℕ
set_lt_s a b = flag (ltb_ℤ (signed64 a) (signed64 b))

unfoldable pub max_s : ℕ → ℕ → ℕ
max_s a b = if ltb_ℤ (signed64 a) (signed64 b) then b else a

unfoldable pub max_u : ℕ → ℕ → ℕ
max_u a b = if ltb b a then a else b

unfoldable pub min_s : ℕ → ℕ → ℕ
min_s a b = if ltb_ℤ (signed64 b) (signed64 a) then b else a

unfoldable pub min_u : ℕ → ℕ → ℕ
min_u a b = if ltb a b then a else b
