-- ===== src/Pvm/Alu/Rotation.antt =====
-- Rotations of words: their bounds, and that a turn to the right undoes one to the left.
use jam_protocol.Base.{
  ℕ, zero, suc, ◌+◌, ◌-◌, ◌*◌, ◌/◌, ◌%◌, ◌^◌, ◌≤◌, ◌<◌, ◌≡◌, sym, subst, ap, ◌∙◌, arith,
}
use jam_protocol.Base.Bits.{pow-add}
use jam_protocol.Base.Words.{IsU64}
use jam_protocol.Pvm.Alu.{rotate_left, rotate_left64, rotate_right64}
use native.Mathlib.Nat.{one-le-pow, add-mul-mod_self_right, mod-eq_of_lt, mod-add-div'}

div-lt : (x p q : ℕ) → 0 < q → x < p * q → x / q < p
div-lt x p q hq h = grind arith

row_fits : (r p q : ℕ) → r < q → r * p + p ≤ p * q
row_fits r p q h = grind arith

-- The low part of a word times `p`, modulo `p * q`.
shifted_low : (r d p q : ℕ) → 0 < p → r < q → (r + d * q) * p % (p * q) ≡ r * p
shifted_low r d p q hp h =
    ap (λ (t : ℕ). t % (p * q)) (expand r d p q)
    ∙ add-mul-mod_self_right (r * p) d (p * q)
    ∙ mod-eq_of_lt (omega (arith, row_fits r p q h))
  where
    expand : (r d p q : ℕ) → (r + d * q) * p ≡ r * p + d * (p * q)
    expand r d p q = omega arith

-- A left shift keeps the low part of the word, above as many zero bits as it shifts by.
shifted_word : (x p q : ℕ) → 0 < p → 0 < q → x < p * q → x * p % (p * q) + x / q < p * q
shifted_word x p q hp hq h = omega (
  arith,
  ap (λ (t : ℕ). t * p % (p * q)) (mod-add-div' x q),
  shifted_low (x % q) (x / q) p q hp (omega arith),
  row_fits (x % q) p q (omega arith),
  div-lt x p q hq h,
)

rotate_left-IsU64 : (x n : ℕ) → n < 64 → IsU64 x → IsU64 (rotate_left 64 x n)
unfolding rotate_left
rotate_left-IsU64 x n p h = ground (
  arith,
  pow-add n (64 - n),
  ap (λ (t : ℕ). 2 ^ t) (whole n p),
  shifted_word x (2 ^ n) (2 ^ (64 - n)),
  one-le-pow n 2,
  one-le-pow (64 - n) 2,
)
  where
    whole : (n : ℕ) → n < 64 → n + (64 - n) ≡ 64
    whole n p = omega arith

pub rotate_left64-IsU64 : (x k : ℕ) → IsU64 x → IsU64 (rotate_left64 x k)
unfolding rotate_left64
rotate_left64-IsU64 x k h = rotate_left-IsU64 x (k % 64) (omega arith) h

pub rotate_right64-IsU64 : (x k : ℕ) → IsU64 x → IsU64 (rotate_right64 x k)
unfolding rotate_right64
rotate_right64-IsU64 x k h = rotate_left-IsU64 x ((64 - k % 64) % 64) (omega arith) h

-- The left part and the right part of a turned word.
turned : (x p q : ℕ) → 0 < p → 0 < q → x < p * q → x * p % (p * q) + x / q ≡ x / q + x % q * p
turned x p q hp hq h = omega (
  arith,
  ap (λ (t : ℕ). t * p % (p * q)) (mod-add-div' x q),
  shifted_low (x % q) (x / q) p q hp (omega arith),
)

div_part : (h l p : ℕ) → h < p → (h + l * p) / p ≡ l
div_part h l p lt = grind arith

-- Turning by `p` and then by `q`, where `p * q` is the whole word, gives the word back.
turned_back :
    (x p q : ℕ)
    → 0 < p
    → 0 < q
    → x < p * q
    → (x / q + x % q * p) * q % (q * p) + (x / q + x % q * p) / p ≡ x
turned_back x p q hp hq h = omega (
  arith,
  shifted_low (x / q) (x % q) q p hq (div-lt x p q hq h),
  div_part (x / q) (x % q) p (div-lt x p q hq h),
  mod-add-div' x q,
)

whole_turn :
    (x p q : ℕ)
    → 0 < p
    → 0 < q
    → x < p * q
    → (x * p % (p * q) + x / q) * q % (p * q) + (x * p % (p * q) + x / q) / p ≡ x
whole_turn x p q hp hq h = rw (turned x p q hp hq h) (
    subst (λ (t : ℕ). (x / q + x % q * p) * q % t + (x / q + x % q * p) / p ≡ x) (swap p q)
      (turned_back x p q hp hq h))
  where
    swap : (p q : ℕ) → q * p ≡ p * q
    swap p q = omega arith

-- A left turn by `n` bits and one by the `m` bits that are left of the word.
turn_both :
    (n m : ℕ)
    → n + m ≡ 64
    → (x : ℕ) → IsU64 x
    → (m' n' : ℕ) → m' ≡ m
    → n' ≡ n
    → (x * 2 ^ n % 2 ^ 64 + x / 2 ^ m) * 2 ^ m' % 2 ^ 64 + (x * 2 ^ n % 2 ^ 64 + x / 2 ^ m) / 2 ^ n'
      ≡ x
turn_both n m whole x h m' n' same_m same_n =
    rw (same_m, same_n, split_word)
      (whole_turn x (2 ^ n) (2 ^ m) (one-le-pow n 2 (omega arith)) (one-le-pow m 2 (omega arith))
        (subst (λ (t : ℕ). x < t) split_word h))
  where
    split_word : 2 ^ 64 ≡ 2 ^ n * 2 ^ m
    split_word = ap (λ (t : ℕ). 2 ^ t) (sym whole) ∙ pow-add n m

-- A right turn by as many bits as a left turn gives the word back, at any count.
pub rotate_right64-rotate_left64 : (x k : ℕ) → IsU64 x → rotate_right64 (rotate_left64 x k) k ≡ x
unfolding rotate_right64 rotate_left64 rotate_left
rotate_right64-rotate_left64 x k h = back (k % 64) (omega arith) x h
  where
    back :
        (n : ℕ)
        → n < 64
        → (x : ℕ) → IsU64 x
        → rotate_left 64 (rotate_left 64 x n) ((64 - n) % 64) ≡ x
    back zero lt x h = omega arith
    back (suc n) lt x h =
        turn_both (suc n) (64 - suc n) (omega arith) x h ((64 - suc n) % 64)
          (64 - (64 - suc n) % 64) (omega arith) (omega arith)
