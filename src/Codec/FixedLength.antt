-- ===== src/Codec/FixedLength.antt =====
-- `SerializeFixedLength` and its inverse against the little-endian value of a byte sequence.
use jam_protocol.Base.{
  ℕ, zero, suc, ◌+◌, ◌*◌, ◌/◌, ◌%◌, ◌^◌, ◌≤◌, ◌<◌, ◌≡◌, refl, ap, some, List, [], ◌∷◌, arith,
  length, All, bit_or,
}
use jam_protocol.Base.Bits.{bit_and_mask, bit_or_shifted, pow-add, pow_mono}
use jam_protocol.Base.Words.{IsByte}
use jam_protocol.Codec.{serialize_fixed_length, or_bytes, deserialize_fixed_length}
use native.Mathlib.Nat.{one-le-pow, mod-eq_of_lt}

-- The number that bytes stand for, lowest byte first.
unfoldable pub little_endian : List ℕ → ℕ
little_endian [] = 0
little_endian (b ∷ rest) = b + 256 * little_endian rest

pub length-serialize_fixed_length : (x l : ℕ) → length (serialize_fixed_length x l) ≡ l
unfolding serialize_fixed_length
length-serialize_fixed_length x zero = refl
length-serialize_fixed_length x (suc l) = ap suc (length-serialize_fixed_length (x / 2 ^ 8) l)

pub serialize_fixed_length-IsByte : (x l : ℕ) → All IsByte (serialize_fixed_length x l)
unfolding serialize_fixed_length
serialize_fixed_length-IsByte x zero = tt
serialize_fixed_length-IsByte x (suc l) = (omega arith, serialize_fixed_length-IsByte (x / 2 ^ 8) l)

pub byte_shift : (i : ℕ) → 2 ^ (8 * (i + 1)) ≡ 256 * 2 ^ (8 * i)
byte_shift i = ground (arith, pow-add 8 (8 * i))

byte_shift_suc : (i : ℕ) → 2 ^ (8 * suc i) ≡ 256 * 2 ^ (8 * i)
byte_shift_suc i = ground (arith, pow-add 8 (8 * i))

pub little_endian-serialize :
    (x l : ℕ) → x < 2 ^ (8 * l) → little_endian (serialize_fixed_length x l) ≡ x
unfolding little_endian serialize_fixed_length
little_endian-serialize x zero h = omega arith
little_endian-serialize x (suc l) h = omega (
  arith,
  byte_shift_suc l,
  bit_and_mask 8 x,
  little_endian-serialize (x / 2 ^ 8) l (omega (arith, byte_shift_suc l)),
)

pub little_endian-lt :
    (bytes : List ℕ) → All IsByte bytes → little_endian bytes < 2 ^ (8 * length bytes)
unfolding little_endian
little_endian-lt [] h = omega arith
little_endian-lt (b ∷ rest) h =
    omega (arith, byte_shift_suc (length rest), little_endian-lt rest h.1)

byte_product : (b p : ℕ) → b < 256 → b * p ≤ 255 * p
byte_product b p h = grind arith

shifted_byte-lt : (w b i : ℕ) → b < 256 → 8 * (i + 1) ≤ w → b * 2 ^ (8 * i) < 2 ^ w
shifted_byte-lt w b i h fits = omega (
  arith,
  byte_product b (2 ^ (8 * i)) h,
  byte_shift i,
  pow_mono (8 * (i + 1)) w fits,
  one-le-pow (8 * i) 2,
)

-- One round of the loop: the byte lands above what is there already.
or_byte :
    (w b i r : ℕ)
    → r < 2 ^ (8 * i)
    → b < 256
    → 8 * (i + 1) ≤ w
    → bit_or r (b * 2 ^ (8 * i) % 2 ^ w) ≡ r + b * 2 ^ (8 * i)
or_byte w b i r low h fits =
    ground (arith, mod-eq_of_lt (shifted_byte-lt w b i h fits), bit_or_shifted (8 * i) b r low)

pub or_bytes-little_endian :
    (w : ℕ) (bytes : List ℕ) (i r : ℕ)
    → r < 2 ^ (8 * i)
    → All IsByte bytes
    → 8 * (i + length bytes) ≤ w
    → or_bytes w bytes i r ≡ r + little_endian bytes * 2 ^ (8 * i)
unfolding or_bytes little_endian
or_bytes-little_endian w [] i r low h fits = omega arith
or_bytes-little_endian w (b ∷ rest) i r low h fits = rw (or_byte w b i r low h.0 (omega arith)) (
    omega (
      arith,
      byte_shift i,
      ap (λ (t : ℕ). little_endian rest * t) (byte_shift i),
      or_bytes-little_endian w rest (i + 1) (r + b * 2 ^ (8 * i))
          (omega (arith, byte_product b (2 ^ (8 * i)) h.0, byte_shift i)) h.1 (omega arith),
    ))

-- On a list of at most eight bytes, the loop computes the little-endian value.
pub or_bytes_lem :
    (bytes : List ℕ)
    → All IsByte bytes
    → length bytes ≤ 8
    → or_bytes 64 bytes 0 0 ≡ little_endian bytes
or_bytes_lem bytes h fits =
    omega (arith, or_bytes-little_endian 64 bytes 0 0 (omega arith) h (omega arith))

-- Decoding gives back a number that was encoded in `l` bytes, if it fits them and `l` is at most 8.
pub deserialize-serialize_fixed_length :
    (x l : ℕ)
    → x < 2 ^ (8 * l)
    → l ≤ 8
    → deserialize_fixed_length 64 (serialize_fixed_length x l) l ≡ some x
unfolding deserialize_fixed_length
deserialize-serialize_fixed_length x zero h fits = ground arith
deserialize-serialize_fixed_length x (suc l) h fits = ground (
  arith,
  length-serialize_fixed_length x (suc l),
  or_bytes_lem (serialize_fixed_length x (suc l)) (serialize_fixed_length-IsByte x (suc l)),
  little_endian-serialize x (suc l) h,
)
