-- ===== src/Pvm/Machine/Words.antt =====
-- Every value that a register instruction computes is a 64-bit word.
use jam_protocol.Base.{
  ℕ, zero, suc, ◌*◌, ◌/◌, ◌^◌, ◌≤◌, ◌<◌, ◌≡◌, refl, List, [], ◌∷◌, arith, Bool, true, false,
  if◌then◌else◌, All, length, length-append, All-append,
}
use jam_protocol.Base.Int.{magnitude}
use jam_protocol.Base.Words.{IsByte, IsU64, unsigned64-lt, signed64, sub64}
use jam_protocol.Pvm.Memory.{put_uint}
use jam_protocol.Pvm.Memory.Copy.{length-put_uint, put_uint-IsByte, get_uint-lt}
use jam_protocol.Pvm.Alu.{
  ones_count, leading_zeros, trailing_zeros, reversed, reverse_bytes64, sign_extend_4, minus_one,
  div_u_32, div_s_32, rem_u_32, rem_s_32, shar_r_32, div_u_64, div_s_64, rem_u_64, rem_s_64,
  shar_r_64, mul_upper_s_s, mul_upper_u_u, mul_upper_s_u, set_lt_u, set_lt_s, max_s, max_u, min_s,
  min_u,
}

pub ones_count-le : (w x : ℕ) → ones_count w x ≤ w
unfolding ones_count
ones_count-le zero x = omega arith
ones_count-le (suc w) x = omega (arith, ones_count-le w (x / 2))

pub leading_zeros-le : (w x : ℕ) → leading_zeros w x ≤ w
unfolding leading_zeros
leading_zeros-le w x = omega arith

pub trailing_zeros-le : (w x : ℕ) → trailing_zeros w x ≤ w
unfolding trailing_zeros
trailing_zeros-le zero x = omega arith
trailing_zeros-le (suc w) x = ground (arith, trailing_zeros-le w (x / 2))

length-reversed : (bytes : List ℕ) → length (reversed bytes) ≡ length bytes
unfolding reversed
length-reversed [] = refl
length-reversed (b ∷ rest) =
    omega (arith, length-append (reversed rest) (b ∷ []), length-reversed rest)

reversed-IsByte : (bytes : List ℕ) → All IsByte bytes → All IsByte (reversed bytes)
unfolding reversed
reversed-IsByte [] h = tt
reversed-IsByte (b ∷ rest) h =
    All-append IsByte (reversed rest) (b ∷ []) (reversed-IsByte rest h.1) (h.0, tt)

pub reverse_bytes64-IsU64 : (x : ℕ) → IsU64 (reverse_bytes64 x)
unfolding reverse_bytes64
reverse_bytes64-IsU64 x = ground (
  arith,
  get_uint-lt (reversed (put_uint 8 x)) (reversed-IsByte (put_uint 8 x) (put_uint-IsByte 8 x)),
  length-reversed (put_uint 8 x),
  length-put_uint 8 x,
)

pub div_u_64-IsU64 : (a b : ℕ) → IsU64 a → IsU64 (div_u_64 a b)
unfolding div_u_64
div_u_64-IsU64 a b h = ground arith

pub rem_u_64-IsU64 : (a b : ℕ) → IsU64 a → IsU64 (rem_u_64 a b)
unfolding rem_u_64
rem_u_64-IsU64 a b h = ground arith

if-IsU64 : (c : Bool) (a b : ℕ) → IsU64 a → IsU64 b → IsU64 (if c then a else b)
if-IsU64 true a b p q = p
if-IsU64 false a b p q = q

pub sign_extend_4-IsU64 : (x : ℕ) → IsU64 (sign_extend_4 x)
unfolding sign_extend_4
sign_extend_4-IsU64 x = unsigned64-lt _

minus_one-IsU64 : IsU64 minus_one
minus_one-IsU64 = omega arith

zero-IsU64 : IsU64 0
zero-IsU64 = omega arith

one-IsU64 : IsU64 1
one-IsU64 = omega arith

sub64-IsU64 : (a b : ℕ) → IsU64 (sub64 a b)
sub64-IsU64 a b = omega arith

ruleset word_rules = (if-IsU64, unsigned64-lt, minus_one-IsU64, zero-IsU64, one-IsU64, sub64-IsU64)

pub div_u_32-IsU64 : (a b : ℕ) → IsU64 (div_u_32 a b)
unfolding div_u_32
div_u_32-IsU64 a b = search word_rules

pub rem_u_32-IsU64 : (a b : ℕ) → IsU64 (rem_u_32 a b)
unfolding rem_u_32
rem_u_32-IsU64 a b = search word_rules

pub div_s_32-IsU64 : (a b : ℕ) → IsU64 (div_s_32 a b)
unfolding div_s_32
div_s_32-IsU64 a b = search word_rules

pub rem_s_32-IsU64 : (a b : ℕ) → IsU64 (rem_s_32 a b)
unfolding rem_s_32
rem_s_32-IsU64 a b = search word_rules

pub div_s_64-IsU64 : (a b : ℕ) → IsU64 a → IsU64 (div_s_64 a b)
unfolding div_s_64
div_s_64-IsU64 a b h = search word_rules

pub rem_s_64-IsU64 : (a b : ℕ) → IsU64 (rem_s_64 a b)
unfolding rem_s_64
rem_s_64-IsU64 a b = search word_rules

pub shar_r_32-IsU64 : (a k : ℕ) → IsU64 (shar_r_32 a k)
unfolding shar_r_32
shar_r_32-IsU64 a k = unsigned64-lt _

pub shar_r_64-IsU64 : (a k : ℕ) → IsU64 (shar_r_64 a k)
unfolding shar_r_64
shar_r_64-IsU64 a k = unsigned64-lt _

product-high : (a b : ℕ) → IsU64 a → IsU64 b → a * b / 2 ^ 64 < 2 ^ 64
product-high a b p q = grind arith

magnitude-lt : (a : ℕ) → IsU64 a → IsU64 (magnitude (signed64 a))
magnitude-lt a h = ground arith

pub mul_upper_u_u-IsU64 : (a b : ℕ) → IsU64 a → IsU64 b → IsU64 (mul_upper_u_u a b)
unfolding mul_upper_u_u
mul_upper_u_u-IsU64 a b p q = product-high a b p q

pub mul_upper_s_s-IsU64 : (a b : ℕ) → IsU64 a → IsU64 b → IsU64 (mul_upper_s_s a b)
unfolding mul_upper_s_s
mul_upper_s_s-IsU64 a b p q =
    let hi = product-high _ _ (magnitude-lt a p) (magnitude-lt b q) in search (word_rules, hi)

pub mul_upper_s_u-IsU64 : (a b : ℕ) → IsU64 a → IsU64 b → IsU64 (mul_upper_s_u a b)
unfolding mul_upper_s_u
mul_upper_s_u-IsU64 a b p q =
    let hi = product-high _ _ (magnitude-lt a p) q in search (word_rules, hi)

pub set_lt_u-IsU64 : (a b : ℕ) → IsU64 (set_lt_u a b)
unfolding set_lt_u
set_lt_u-IsU64 a b = search word_rules

pub set_lt_s-IsU64 : (a b : ℕ) → IsU64 (set_lt_s a b)
unfolding set_lt_s
set_lt_s-IsU64 a b = search word_rules

pub max_s-IsU64 : (a b : ℕ) → IsU64 a → IsU64 b → IsU64 (max_s a b)
unfolding max_s
max_s-IsU64 a b p q = if-IsU64 _ _ _ q p

pub max_u-IsU64 : (a b : ℕ) → IsU64 a → IsU64 b → IsU64 (max_u a b)
unfolding max_u
max_u-IsU64 a b p q = if-IsU64 _ _ _ p q

pub min_s-IsU64 : (a b : ℕ) → IsU64 a → IsU64 b → IsU64 (min_s a b)
unfolding min_s
min_s-IsU64 a b p q = if-IsU64 _ _ _ q p

pub min_u-IsU64 : (a b : ℕ) → IsU64 a → IsU64 b → IsU64 (min_u a b)
unfolding min_u
min_u-IsU64 a b p q = if-IsU64 _ _ _ p q
