-- ===== src/Base/Bits.antt =====
-- `|` of a low field and a shifted one, `&` with a mask, and bounds, at every width.
use Prim.Native.Nat.{
  ℕ, zero, suc, ◌+◌, ◌-◌, ◌*◌, ◌/◌, ◌%◌, ◌^◌, ◌≤◌, ◌<◌, min, max, bit_and, bit_or, bit_xor, digits,
  differ, bitwise, bit_and-bitwise, bit_or-bitwise, bit_xor-bitwise,
}
use mathlib.Core.Path.{◌≡◌, refl, ap, ◌∙◌}
use mathlib.Core.WellFounded
use native.Mathlib.Nat.{pow-suc, one-le-pow, add-mul-mod_self_right, mod-add-div', mod-eq_of_lt}
use native.Mathlib.Omega.{arith}
use jam_protocol.Base.Order.{lt_wf}

-- What holds at zero, and at a number if it holds at its half, holds everywhere.
by_halves {ℓ} : (P : ℕ → Type ℓ) → P 0 → ((n : ℕ) → P (suc n / 2) → P (suc n)) → (x : ℕ) → P x
by_halves P base step x = WellFounded.induction lt_wf {C = P} x go
  where
    go : (n : ℕ) → ((m : ℕ) → m < n → P m) → P n
    go zero below = base
    go (suc n) below = step n (below (suc n / 2) (omega arith))

-- The native operators are recursions on binary digits: what is left of the digits when the first
-- number is used up is `tail`, and rounds beyond the first number's digits change nothing.
module _ (tail : ℕ → ℕ) (op : ℕ → ℕ → ℕ) where
  at_zero : (rounds y : ℕ) → digits tail op rounds 0 y ≡ tail y
  at_zero zero y = refl
  at_zero (suc rounds) y = refl

  spare_rounds : (x y i j : ℕ) → x ≤ j → x ≤ i → digits tail op i x y ≡ digits tail op j x y
  spare_rounds zero y i j at_j at_i = rw (at_zero i y, at_zero j y) refl
  spare_rounds (suc x) y zero j at_j at_i = absurd (omega arith)
  spare_rounds (suc x) y (suc i) zero at_j at_i = absurd (omega arith)
  spare_rounds (suc x) y (suc i) (suc j) at_j at_i =
      let shorter = spare_rounds (suc x / 2) (y / 2) i j (omega arith) (omega arith) in
      rw shorter refl

  split_digit :
      (y x : ℕ)
      → op (suc x % 2) (y % 2) + 2 * bitwise tail op (suc x / 2) (y / 2) ≡ bitwise tail op (suc x) y
  split_digit y x =
      let half = suc x / 2 in
      omega (arith, spare_rounds half (y / 2) x half (omega arith) (omega arith))

pub bit_or_digit : (x y : ℕ) → max (x % 2) (y % 2) + 2 * bit_or (x / 2) (y / 2) ≡ bit_or x y
bit_or_digit zero y = simp bit_or-bitwise (omega arith)
bit_or_digit (suc x) y = simp bit_or-bitwise (split_digit (λ d. d) max y x)

pub bit_and_digit : (x y : ℕ) → min (x % 2) (y % 2) + 2 * bit_and (x / 2) (y / 2) ≡ bit_and x y
bit_and_digit zero y = simp bit_and-bitwise (omega arith)
bit_and_digit (suc x) y = simp bit_and-bitwise (split_digit (λ d. 0) min y x)

bit_xor_digit : (x y : ℕ) → differ (x % 2) (y % 2) + 2 * bit_xor (x / 2) (y / 2) ≡ bit_xor x y
bit_xor_digit zero y = simp bit_xor-bitwise (omega arith)
bit_xor_digit (suc x) y = simp bit_xor-bitwise (split_digit (λ d. d) differ y x)

pow_row : (k q : ℕ) → 2 * (2 ^ k * q) ≡ 2 ^ suc k * q
pow_row k q = rw (pow-suc 2 k) (omega arith)

zero-bit_or : (y : ℕ) → bit_or 0 y ≡ y
zero-bit_or y = bit_or-bitwise 0 y

bit_or-zero : (x : ℕ) → bit_or x 0 ≡ x
bit_or-zero =
    by_halves (λ n. bit_or n 0 ≡ n) refl (λ n half. omega (arith, bit_or_digit (suc n) 0, half))

bit_or_small : (a b : ℕ) → a < 1 → bit_or a b ≡ b
bit_or_small zero b h = zero-bit_or b
bit_or_small (suc a) b h = absurd (omega arith)

-- `r | q << k` is a sum when `r` fits in `k` bits.
pub bit_or_shifted : (k q r : ℕ) → r < 2 ^ k → bit_or r (q * 2 ^ k) ≡ r + q * 2 ^ k
bit_or_shifted zero q r h = ground (arith, bit_or_small r (q * 1))
bit_or_shifted (suc k) q r h =
    ground
      (arith, bit_or_digit r (q * 2 ^ suc k), pow_row k q, pow-suc 2 k, bit_or_shifted k q (r / 2))

halves : (k a : ℕ) → a < 2 ^ suc k → a / 2 < 2 ^ k
halves k a h = omega (arith, pow-suc 2 k)

-- An `|` of two words of `k` bits has `k` bits.
pub bit_or-lt : (k a b : ℕ) → a < 2 ^ k → b < 2 ^ k → bit_or a b < 2 ^ k
bit_or-lt zero a b p q = ground (arith, bit_or_small a b)
bit_or-lt (suc k) a b p q = omega (
  arith,
  bit_or_digit a b,
  pow-suc 2 k,
  bit_or-lt k (a / 2) (b / 2) (halves k a p) (halves k b q),
)

-- An `&` is at most either argument.
pub bit_and-le : (a b : ℕ) → (bit_and a b ≤ a) × (bit_and a b ≤ b)
bit_and-le x =
    by_halves (λ n. (c : ℕ) → (bit_and n c ≤ n) × (bit_and n c ≤ c))
      (λ c. omega (arith, bit_and-bitwise 0 c))
      (λ n half c. omega (arith, bit_and_digit (suc n) c, half (c / 2))) x

mod_twice : (a p : ℕ) → 0 < p → a % (2 * p) ≡ a % 2 + 2 * (a / 2 % p)
mod_twice a p h =
    ap (λ (t : ℕ). t % (2 * p)) (parts (mod-add-div' (a / 2) p))
    ∙ add-mul-mod_self_right (a % 2 + 2 * (a / 2 % p)) (a / 2 / p) (2 * p)
    ∙ mod-eq_of_lt (omega arith)
  where
    parts : a / 2 % p + a / 2 / p * p ≡ a / 2 → a ≡ a % 2 + 2 * (a / 2 % p) + a / 2 / p * (2 * p)
    parts e = omega (arith, e)

-- A mask of `k` low bits is the remainder by `2 ^ k`.
pub bit_and_mask : (k a : ℕ) → bit_and a (2 ^ k - 1) ≡ a % 2 ^ k
bit_and_mask zero a = omega (arith, bit_and-le a 0)
bit_and_mask (suc k) a = ground (
  arith,
  pow-suc 2 k,
  one-le-pow k 2,
  bit_and_digit a (2 ^ suc k - 1),
  bit_and_mask k (a / 2),
  mod_twice a (2 ^ k),
)

differ-lt : (x y : ℕ) → x < 2 → y < 2 → differ x y < 2
differ-lt zero y p q = q
differ-lt (suc x) zero p q = p
differ-lt (suc zero) (suc y) p q = omega arith
differ-lt (suc (suc x)) (suc y) p q = absurd (omega arith)

bit_xor_small : (a b : ℕ) → a < 1 → bit_xor a b ≡ b
bit_xor_small zero b h = bit_xor-bitwise 0 b
bit_xor_small (suc a) b h = absurd (omega arith)

-- An `^` of two words of `k` bits has `k` bits.
pub bit_xor-lt : (k a b : ℕ) → a < 2 ^ k → b < 2 ^ k → bit_xor a b < 2 ^ k
bit_xor-lt zero a b p q = ground (arith, bit_xor_small a b)
bit_xor-lt (suc k) a b p q = omega (
  arith,
  bit_xor_digit a b,
  differ-lt (a % 2) (b % 2) (omega arith) (omega arith),
  pow-suc 2 k,
  bit_xor-lt k (a / 2) (b / 2) (halves k a p) (halves k b q),
)

pub pow-add : (m n : ℕ) → 2 ^ (m + n) ≡ 2 ^ m * 2 ^ n
pow-add zero n = ground arith
pow-add (suc m) n =
    ground
      (arith, pow-suc 2 (m + n), pow-suc 2 m, pow-add m n, ap (λ (t : ℕ). t * 2 ^ n) (pow-suc 2 m))

pub pow_mono : (m n : ℕ) → m ≤ n → 2 ^ m ≤ 2 ^ n
pow_mono m n h =
    grind (arith, pow-add m (n - m), ap (λ (t : ℕ). 2 ^ t) (sub_split m n h), one-le-pow (n - m) 2)
  where
    sub_split : (a b : ℕ) → a ≤ b → a + (b - a) ≡ b
    sub_split a b p = omega arith

pub bit_or_comm : (a b : ℕ) → bit_or a b ≡ bit_or b a
bit_or_comm =
    by_halves (λ n. (c : ℕ) → bit_or n c ≡ bit_or c n)
      (λ c. omega (arith, zero-bit_or c, bit_or-zero c))
      (λ n half c. omega (arith, bit_or_digit (suc n) c, bit_or_digit c (suc n), half (c / 2)))
