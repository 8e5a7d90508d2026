-- ===== src/Pvm/Alu/Product.antt =====
-- The high words of products, against the products of integers.
use jam_protocol.Base.{
  ℕ, ◌+◌, ◌*◌, ◌/◌, ◌%◌, ◌^◌, ◌<◌, ◌≤◌, ◌≡◌, ◌≢◌, ◌⊎◌, sym, Bool, true, false, Bool-cases, inl, inr,
  arith, ◌==◌, if◌then◌else◌,
}
use jam_protocol.Base.Int.{ℤ, pos, negsuc, ◌*ℤ◌, shift_right, magnitude, is_neg, sub_ℕ}
use jam_protocol.Base.Words.{IsU64, signed64, unsigned64, sub64}
use jam_protocol.Pvm.Alu.{mul_upper_s_u, mul_upper_s_s}

-- The upper 64 bits of an integer, as a word in two's complement.
abbrev pub upper : ℤ → ℕ
upper n = unsigned64 (shift_right n 64)

product_below : (a b : ℕ) → a ≤ 2 ^ 64 → b < 2 ^ 64 → a * b / 2 ^ 64 < 2 ^ 64
product_below a b h k = grind arith

-- The upper word of -m, for the magnitude `m` of a product.
upper_of_negated :
    (m : ℕ)
    → m / 2 ^ 64 < 2 ^ 64
    → upper (sub_ℕ 0 m)
      ≡ (if m % 2 ^ 64 == 0 then sub64 0 (m / 2 ^ 64) else sub64 (sub64 0 (m / 2 ^ 64)) 1)
upper_of_negated m h = ground arith

-- A product of integers by its magnitude and signs.
signed_product : (a b : ℤ) → ℤ
signed_product a b =
    if is_neg a
    then (if is_neg b then pos (magnitude a * magnitude b) else sub_ℕ 0 (magnitude a * magnitude b))
    else if is_neg b
    then sub_ℕ 0 (magnitude a * magnitude b)
    else pos (magnitude a * magnitude b)

product_lem : (a b : ℤ) → a *ℤ b ≡ signed_product a b
unfolding signed_product
product_lem (pos m) (pos n) = ground arith
product_lem (pos m) (negsuc n) = ground arith
product_lem (negsuc m) (pos n) = ground arith
product_lem (negsuc m) (negsuc n) = ground arith

magnitude-le : (a : ℕ) → IsU64 a → magnitude (signed64 a) ≤ 2 ^ 64
magnitude-le a h = ground arith

upper_of_product : (m : ℕ) → m / 2 ^ 64 < 2 ^ 64 → upper (pos m) ≡ m / 2 ^ 64
upper_of_product m h = omega arith

plus_zero : (b : ℕ) → b + 0 ≡ b
plus_zero b = omega arith

-- Without a low word there is no borrow.
exact_negated :
    (m : ℕ) → m / 2 ^ 64 < 2 ^ 64 → m % 2 ^ 64 ≡ 0 → upper (sub_ℕ 0 m) ≡ sub64 0 (m / 2 ^ 64)
exact_negated m h exact = ground arith

-- With one, the high word without the borrow is one too large, modulo 2 ^ 64.
missing_borrow :
    (m : ℕ)
    → m / 2 ^ 64 < 2 ^ 64
    → m % 2 ^ 64 ≢ 0
    → sub64 0 (m / 2 ^ 64) ≡ (upper (sub_ℕ 0 m) + 1) % 2 ^ 64
missing_borrow m h low = ground arith

opposite : {P : Type 0} (a b : Bool) → a ≡ true → b ≡ false → (a ≡ b) ⊎ P → P
opposite a b p q (inl e) = absurd cc
opposite a b p q (inr h) = h

module _ (x : ℤ) (small : magnitude x ≤ 2 ^ 64) where
  signed_by_unsigned :
      (b : ℕ)
      → IsU64 b
      → (if is_neg x
          then (if magnitude x * b % 2 ^ 64 == 0
              then sub64 0 (magnitude x * b / 2 ^ 64)
              else sub64 (sub64 0 (magnitude x * b / 2 ^ 64)) 1)
          else magnitude x * b / 2 ^ 64)
        ≡ upper (x *ℤ pos b)
  unfolding signed_product
  signed_by_unsigned b q = elim (Bool-cases (is_neg x)) [
    | inl minus ↦
        rw (product_lem x (pos b), minus, plus_zero b)
          (sym (upper_of_negated (magnitude x * b) (product_below (magnitude x) b small q)))
    | inr plus ↦
        rw (product_lem x (pos b), plus, plus_zero b)
          (sym (upper_of_product (magnitude x * b) (product_below (magnitude x) b small q)))
  ]

  signed_by_signed :
      (y : ℤ)
      → magnitude y < 2 ^ 64
      → (is_neg x ≡ is_neg y) ⊎ (magnitude x * magnitude y % 2 ^ 64 ≡ 0)
      → (if is_neg x
          then (if is_neg y
              then magnitude x * magnitude y / 2 ^ 64
              else sub64 0 (magnitude x * magnitude y / 2 ^ 64))
          else if is_neg y
          then sub64 0 (magnitude x * magnitude y / 2 ^ 64)
          else magnitude x * magnitude y / 2 ^ 64)
        ≡ upper (x *ℤ y)
  unfolding signed_product
  signed_by_signed y q exact =
      let hi = product_below (magnitude x) (magnitude y) small q in
      let m = magnitude x * magnitude y in
      elim (Bool-cases (is_neg x)) [
        | inl minus ↦ (elim (Bool-cases (is_neg y)) [
          | inl minus' ↦ rw (product_lem x y, minus, minus') (sym (upper_of_product m hi))
          | inr plus' ↦
              rw (product_lem x y, minus, plus')
                (sym (exact_negated m hi (opposite _ _ minus plus' exact)))
        ])
        | inr plus ↦ (elim (Bool-cases (is_neg y)) [
          | inl minus' ↦
              rw (product_lem x y, plus, minus')
                (sym (exact_negated m hi (opposite _ _ minus' plus (swapped exact))))
          | inr plus' ↦ rw (product_lem x y, plus, plus') (sym (upper_of_product m hi))
        ])
      ]
    where
      swapped : {P : Type 0} → (is_neg x ≡ is_neg y) ⊎ P → (is_neg y ≡ is_neg x) ⊎ P
      swapped (inl e) = inl (sym e)
      swapped (inr h) = inr h

-- The high word of a signed by an unsigned word is the upper half of the product of the integers they
-- stand for, with the borrow where the product is negative.
pub mul_upper_s_u_lem :
    (a b : ℕ) → IsU64 a → IsU64 b → mul_upper_s_u a b ≡ upper (signed64 a *ℤ pos b)
unfolding mul_upper_s_u signed_product
mul_upper_s_u_lem a b p q = signed_by_unsigned (signed64 a) (magnitude-le a p) b q

magnitude-lt : (a : ℕ) → IsU64 a → magnitude (signed64 a) < 2 ^ 64
magnitude-lt a h = ground arith

-- The high word of a signed by a signed word is the upper half of the product of the integers they
-- stand for, where their signs agree or the low word of the product is zero.
pub mul_upper_s_s-exact :
    (a b : ℕ)
    → IsU64 a
    → IsU64 b
    → (is_neg (signed64 a) ≡ is_neg (signed64 b))
      ⊎ (magnitude (signed64 a) * magnitude (signed64 b) % 2 ^ 64 ≡ 0)
    → mul_upper_s_s a b ≡ upper (signed64 a *ℤ signed64 b)
unfolding mul_upper_s_s
mul_upper_s_s-exact a b p q exact =
    signed_by_signed (signed64 a) (magnitude-le a p) (signed64 b) (magnitude-lt b q) exact

-- Where a first factor below zero and a second one not below meet and the low word of their product is
-- not zero, the high word lacks the borrow: it is one more than the upper half of the product, modulo
-- 2 ^ 64.
pub mul_upper_s_s-missing_borrow :
    (a b : ℕ)
    → IsU64 a
    → IsU64 b
    → is_neg (signed64 a) ≡ true
    → is_neg (signed64 b) ≡ false
    → magnitude (signed64 a) * magnitude (signed64 b) % 2 ^ 64 ≢ 0
    → mul_upper_s_s a b ≡ (upper (signed64 a *ℤ signed64 b) + 1) % 2 ^ 64
unfolding mul_upper_s_s signed_product
mul_upper_s_s-missing_borrow a b p q minus plus low =
    rw (product_lem (signed64 a) (signed64 b), minus, plus)
      (missing_borrow (magnitude (signed64 a) * magnitude (signed64 b))
        (product_below _ _ (magnitude-le a p) (magnitude-lt b q)) low)
