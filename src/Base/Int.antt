-- ===== src/Base/Int.antt =====
-- Go's signed values as integers over the native numbers.
use Prim.Native.Nat.{ℕ, suc, ◌+◌, ◌-◌, ◌*◌, ◌/◌, ◌%◌, ◌^◌}
use mathlib.Core.Bool.{Bool}
use jam_protocol.Base.Tests.{ltb, leb, ◌==◌, if◌then◌else◌}

-- `negsuc n` is -(n + 1).
pub data ℤ : Type 0 where
  pos : ℕ → ℤ
  negsuc : ℕ → ℤ

abbrev pub pos_part : ℤ → ℕ
pos_part (pos n) = n
pos_part (negsuc n) = 0

abbrev pub neg_part : ℤ → ℕ
neg_part (pos n) = 0
neg_part (negsuc n) = suc n

-- a - b, as an integer.
abbrev pub sub_ℕ : ℕ → ℕ → ℤ
sub_ℕ a b = if leb b a then pos (a - b) else negsuc (b - a - 1)

infixl 65 ◌+ℤ◌
infixl 70 ◌*ℤ◌
abbrev pub ◌+ℤ◌ : ℤ → ℤ → ℤ
a +ℤ b = sub_ℕ (pos_part a + pos_part b) (neg_part a + neg_part b)

abbrev pub ◌*ℤ◌ : ℤ → ℤ → ℤ
a *ℤ b =
    sub_ℕ (pos_part a * pos_part b + neg_part a * neg_part b)
      (pos_part a * neg_part b + neg_part a * pos_part b)

abbrev pub neg_ℤ : ℤ → ℤ
neg_ℤ a = sub_ℕ (neg_part a) (pos_part a)

abbrev pub ltb_ℤ : ℤ → ℤ → Bool
ltb_ℤ a b = ltb (pos_part a + neg_part b) (pos_part b + neg_part a)

-- |a|
abbrev pub magnitude : ℤ → ℕ
magnitude a = pos_part a + neg_part a

abbrev pub is_neg : ℤ → Bool
is_neg a = ltb 0 (neg_part a)

-- `>>` of a signed value rounds towards minus infinity.
abbrev pub shift_right : ℤ → ℕ → ℤ
shift_right (pos n) k = pos (n / 2 ^ k)
shift_right (negsuc n) k = negsuc (n / 2 ^ k)

infix 50 ◌==ℤ◌
abbrev pub ◌==ℤ◌ : ℤ → ℤ → Bool
a ==ℤ b = pos_part a + neg_part b == pos_part b + neg_part a

-- Go's `/` and `%` on signed values round towards zero.
unfoldable pub quot_ℤ : ℤ → ℤ → ℤ
quot_ℤ a b =
    let q = magnitude a / magnitude b in
    if is_neg a
    then (if is_neg b then pos q else neg_ℤ (pos q))
    else if is_neg b
    then neg_ℤ (pos q)
    else pos q

unfoldable pub rem_ℤ : ℤ → ℤ → ℤ
rem_ℤ a b = let r = magnitude a % magnitude b in if is_neg a then neg_ℤ (pos r) else pos r
