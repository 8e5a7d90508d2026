-- ===== src/Codec/General.antt =====
-- `SerializeU64` and `DeserializeU64`: the variable-length encoding and its inverse.
use jam_protocol.Base.{
  ℕ, zero, suc, ◌+◌, ◌-◌, ◌*◌, ◌/◌, ◌%◌, ◌^◌, ◌≤◌, ◌<◌, ◌≡◌, refl, ap, ap₂, subst, ◌∙◌, false, some,
  List, ◌∷◌, ◌++◌, ◌⊎◌, inl, inr, arith, length, take, All, length-append, length-take, All-take,
  All-append, take-append_left,
}
use native.Mathlib.Decide.{dec_lt}
use native.Mathlib.Nat.{one-le-pow, mod-lt}
use jam_protocol.Base.Bits.{pow_mono}
use jam_protocol.Base.Words.{IsByte, IsU64}
use jam_protocol.Codec.{
  serialize_fixed_length, or_bytes, fits_length, octets_of_length, serialize_lengths, serialize_u64,
  read_length, deserialize_lengths, deserialize_u64,
}
use jam_protocol.Codec.FixedLength.{
  length-serialize_fixed_length, serialize_fixed_length-IsByte, little_endian-serialize,
  little_endian-lt, or_bytes_lem,
}

-- What holds at each numeral up to 7 holds of every length up to 7.
upto_seven {ℓ} :
    (P : ℕ → Type ℓ) → P 0 → P 1 → P 2 → P 3 → P 4 → P 5 → P 6 → P 7 → (l : ℕ) → l ≤ 7 → P l
upto_seven P a b c d e f g h zero le = a
upto_seven P a b c d e f g h (suc zero) le = b
upto_seven P a b c d e f g h (suc (suc zero)) le = c
upto_seven P a b c d e f g h (suc (suc (suc zero))) le = d
upto_seven P a b c d e f g h (suc (suc (suc (suc zero)))) le = e
upto_seven P a b c d e f g h (suc (suc (suc (suc (suc zero))))) le = f
upto_seven P a b c d e f g h (suc (suc (suc (suc (suc (suc zero)))))) le = g
upto_seven P a b c d e f g h (suc (suc (suc (suc (suc (suc (suc zero))))))) le = h
upto_seven P a b c d e f g h (suc (suc (suc (suc (suc (suc (suc (suc l)))))))) le =
    absurd (omega arith)

abbrev InLength : ℕ → ℕ → Type 0
InLength l x = (2 ^ (7 * l) ≤ x) × (x < 2 ^ (7 * (l + 1)))

-- The prefix octet of a number of length `l`.
abbrev prefix_of : ℕ → ℕ → ℕ
prefix_of l x = 256 - 2 ^ (8 - l) + x / 2 ^ (8 * l)

octets_of_length_lem :
    (x l : ℕ)
    → l ≤ 7
    → InLength l x
    → octets_of_length l x ≡ prefix_of l x ∷ serialize_fixed_length (x % 2 ^ (8 * l)) l
unfolding octets_of_length
octets_of_length_lem x =
    upto_seven
      (λ l.
        InLength l x
        → octets_of_length l x ≡ prefix_of l x ∷ serialize_fixed_length (x % 2 ^ (8 * l)) l)
      (λ h. ground arith) (λ h. ground arith) (λ h. ground arith) (λ h. ground arith)
      (λ h. ground arith) (λ h. ground arith) (λ h. ground arith) (λ h. ground arith)

serialize_u64-of_length : (x l : ℕ) → l ≤ 7 → InLength l x → serialize_u64 x ≡ octets_of_length l x
unfolding serialize_u64 serialize_lengths fits_length
serialize_u64-of_length x =
    upto_seven (λ l. InLength l x → serialize_u64 x ≡ octets_of_length l x) (λ h. ground arith)
      (λ h. ground arith) (λ h. ground arith) (λ h. ground arith) (λ h. ground arith)
      (λ h. ground arith) (λ h. ground arith) (λ h. ground arith)

-- The bytes that a candidate length reads stay below its weight.
remainder-lt :
    (l : ℕ) (bytes : List ℕ)
    → l ≤ 8
    → All IsByte bytes
    → or_bytes 64 (take l bytes) 0 0 < 2 ^ (8 * l)
remainder-lt l bytes le h = omega (
  arith,
  length-take l bytes,
  or_bytes_lem (take l bytes) (All-take IsByte l bytes h) (omega (arith, length-take l bytes)),
  little_endian-lt (take l bytes) (All-take IsByte l bytes h),
  pow_mono (8 * length (take l bytes)) (8 * l) (omega (arith, length-take l bytes)),
)

-- A length below the right one reads a number that is too large for it.
skips_length :
    (rounds l prefix : ℕ) (bytes : List ℕ)
    → l ≤ 6
    → 256 - 2 ^ (7 - l) ≤ prefix
    → prefix < 256
    → All IsByte bytes
    → deserialize_lengths (suc rounds) l prefix bytes
      ≡ deserialize_lengths rounds (l + 1) prefix bytes
unfolding deserialize_lengths fits_length read_length
skips_length rounds l prefix bytes le p q h =
    upto_seven
      (λ l.
        l ≤ 6
        → 256 - 2 ^ (7 - l) ≤ prefix
        → or_bytes 64 (take l bytes) 0 0 < 2 ^ (8 * l)
        → deserialize_lengths (suc rounds) l prefix bytes
          ≡ deserialize_lengths rounds (l + 1) prefix bytes)
      (λ a b c. ground arith) (λ a b c. ground arith) (λ a b c. ground arith)
      (λ a b c. ground arith) (λ a b c. ground arith) (λ a b c. ground arith)
      (λ a b c. ground arith) (λ a b c. absurd (omega arith)) l (omega arith) le p
      (remainder-lt l bytes (omega arith) h)

-- All lengths below the right one are passed over.
skips_to :
    (gap rounds n l t prefix : ℕ) (bytes : List ℕ)
    → l ≤ 7
    → t + gap ≡ l
    → n ≡ gap + rounds
    → 256 - 2 ^ (8 - l) ≤ prefix
    → prefix < 256
    → All IsByte bytes
    → deserialize_lengths n t prefix bytes ≡ deserialize_lengths rounds l prefix bytes
skips_to zero rounds n l t prefix bytes le e f p q h =
    ap₂ (λ (a b : ℕ). deserialize_lengths a b prefix bytes) (omega arith) (omega arith)
skips_to (suc gap) rounds zero l t prefix bytes le e f p q h = absurd (omega arith)
skips_to (suc gap) rounds (suc n) l t prefix bytes le e f p q h =
    skips_length n t prefix bytes (omega arith)
      (omega (arith, pow_mono (8 - l) (7 - t) (omega arith))) q h
    ∙ skips_to gap rounds n l (t + 1) prefix bytes le (omega arith) (omega arith) p q h

remainder_of_length :
    (x l : ℕ) (rest : List ℕ)
    → l ≤ 7
    → or_bytes 64 (take l (serialize_fixed_length (x % 2 ^ (8 * l)) l ++ rest)) 0 0
      ≡ x % 2 ^ (8 * l)
remainder_of_length x l rest le =
    let low = serialize_fixed_length (x % 2 ^ (8 * l)) l in
    let size = length-serialize_fixed_length (x % 2 ^ (8 * l)) l in
    ap (λ t. or_bytes 64 t 0 0)
      (subst (λ n. take n (low ++ rest) ≡ low) size (take-append_left low rest))
    ∙ or_bytes_lem low (serialize_fixed_length-IsByte (x % 2 ^ (8 * l)) l) (omega arith)
    ∙ little_endian-serialize (x % 2 ^ (8 * l)) l (mod-lt _ (one-le-pow (8 * l) 2 (omega arith)))

-- At its own length the number is read and accepted.
accepts_length :
    (x rounds : ℕ) (bytes : List ℕ) (l : ℕ)
    → l ≤ 7
    → InLength l x
    → l ≤ length bytes
    → or_bytes 64 (take l bytes) 0 0 ≡ x % 2 ^ (8 * l)
    → deserialize_lengths (suc rounds) l (prefix_of l x) bytes ≡ some x
unfolding deserialize_lengths fits_length read_length
accepts_length x rounds bytes =
    upto_seven
      (λ l.
        InLength l x
        → l ≤ length bytes
        → or_bytes 64 (take l bytes) 0 0 ≡ x % 2 ^ (8 * l)
        → deserialize_lengths (suc rounds) l (prefix_of l x) bytes ≡ some x)
      (λ a b c. ground arith) (λ a b c. ground arith) (λ a b c. ground arith)
      (λ a b c. ground arith) (λ a b c. ground arith) (λ a b c. ground arith)
      (λ a b c. ground arith) (λ a b c. ground arith)

prefix_bounds :
    (x l : ℕ)
    → l ≤ 7
    → InLength l x
    → (0 < prefix_of l x) × (prefix_of l x < 255) × (256 - 2 ^ (8 - l) ≤ prefix_of l x)
prefix_bounds x =
    upto_seven
      (λ l.
        InLength l x
        → (0 < prefix_of l x) × (prefix_of l x < 255) × (256 - 2 ^ (8 - l) ≤ prefix_of l x))
      (λ h. omega arith) (λ h. omega arith) (λ h. omega arith) (λ h. omega arith) (λ h. omega arith)
      (λ h. omega arith) (λ h. omega arith) (λ h. omega arith)

find_length :
    (x rounds l : ℕ)
    → l + rounds ≡ 8
    → 2 ^ (7 * l) ≤ x
    → ((k : ℕ) × (k ≤ 7) × InLength k x) ⊎ (2 ^ 56 ≤ x)
find_length x zero l e h = inr (omega (arith, pow_mono 56 (7 * l) (omega arith)))
find_length x (suc rounds) l e h = elim (dec_lt x (2 ^ (7 * (l + 1)))) [
  | yes p ↦ inl (l, omega arith, (h, p))
  | no p ↦ find_length x rounds (l + 1) (omega arith) (omega arith)
]

-- A number of more than 56 bits fits no length.
fits_none : (x l : ℕ) → l ≤ 7 → 2 ^ 56 ≤ x → fits_length l x ≡ false
unfolding fits_length
fits_none x =
    upto_seven (λ l. 2 ^ 56 ≤ x → fits_length l x ≡ false) (λ h. ground arith) (λ h. ground arith)
      (λ h. ground arith) (λ h. ground arith) (λ h. ground arith) (λ h. ground arith)
      (λ h. ground arith) (λ h. ground arith)

tries_all :
    (x rounds l : ℕ)
    → l + rounds ≤ 8
    → 2 ^ 56 ≤ x
    → serialize_lengths rounds l x ≡ 0xff ∷ serialize_fixed_length x 8
unfolding serialize_lengths
tries_all x zero l le h = refl
tries_all x (suc rounds) l le h =
    rw (fits_none x l (omega arith) h) (tries_all x rounds (l + 1) (omega arith) h)

long_form : (x : ℕ) → 2 ^ 56 ≤ x → serialize_u64 x ≡ 0xff ∷ serialize_fixed_length x 8
unfolding serialize_u64
long_form x h = ground (arith, tries_all x 8 0)

decode_long :
    (x : ℕ) (rest : List ℕ)
    → IsU64 x
    → deserialize_u64 (0xff ∷ (serialize_fixed_length x 8 ++ rest)) ≡ some x
unfolding deserialize_u64
decode_long x rest k = ground (
  arith,
  length-append (serialize_fixed_length x 8) rest,
  length-serialize_fixed_length x 8,
  eight_bytes,
)
  where
    low : List ℕ
    low = serialize_fixed_length x 8

    eight_bytes : or_bytes 64 (take 8 (low ++ rest)) 0 0 ≡ x
    eight_bytes =
        ap (λ t. or_bytes 64 t 0 0)
          (subst (λ n. take n (low ++ rest) ≡ low) (length-serialize_fixed_length x 8)
            (take-append_left low rest))
        ∙ or_bytes_lem low (serialize_fixed_length-IsByte x 8)
            (omega (arith, length-serialize_fixed_length x 8))
        ∙ little_endian-serialize x 8 (omega arith)

past_prefix :
    (prefix : ℕ) (bytes : List ℕ)
    → 0 < prefix
    → prefix < 255
    → deserialize_u64 (prefix ∷ bytes) ≡ deserialize_lengths 8 0 prefix bytes
unfolding deserialize_u64
past_prefix prefix bytes p q = ground arith

decode_short :
    (x l : ℕ) (rest : List ℕ)
    → l ≤ 7
    → InLength l x
    → All IsByte rest
    → deserialize_u64 (prefix_of l x ∷ (serialize_fixed_length (x % 2 ^ (8 * l)) l ++ rest))
      ≡ some x
decode_short x l rest le h bytes =
    past_prefix (prefix_of l x) (low ++ rest) bounds.0 bounds.1
    ∙ skips_to l (suc (7 - l)) 8 l 0 (prefix_of l x) (low ++ rest) le (omega arith) (omega arith)
        bounds.2 (omega (arith, bounds.1)) low_bytes
    ∙ accepts_length x (7 - l) (low ++ rest) l le h long_enough (remainder_of_length x l rest le)
  where
    low : List ℕ
    low = serialize_fixed_length (x % 2 ^ (8 * l)) l

    bounds : (0 < prefix_of l x) × (prefix_of l x < 255) × (256 - 2 ^ (8 - l) ≤ prefix_of l x)
    bounds = prefix_bounds x l le h

    low_bytes : All IsByte (low ++ rest)
    low_bytes = All-append IsByte low rest (serialize_fixed_length-IsByte (x % 2 ^ (8 * l)) l) bytes

    long_enough : l ≤ length (low ++ rest)
    long_enough =
        omega (arith, length-append low rest, length-serialize_fixed_length (x % 2 ^ (8 * l)) l)

-- Decoding the general encoding of a 64-bit number gives the number back, whatever bytes follow.
pub deserialize-serialize_u64 :
    (x : ℕ) (rest : List ℕ)
    → IsU64 x
    → All IsByte rest
    → deserialize_u64 (serialize_u64 x ++ rest) ≡ some x
deserialize-serialize_u64 zero rest k bytes = unfold serialize_u64 deserialize_u64 in refl
deserialize-serialize_u64 (suc n) rest k bytes = elim (find_length (suc n) 8 0 refl (omega arith)) [
  | inl (l, le, h) ↦
      rw (serialize_u64-of_length (suc n) l le h, octets_of_length_lem (suc n) l le h)
        (decode_short (suc n) l rest le h bytes)
  | inr h ↦ rw (long_form (suc n) h) (decode_long (suc n) rest k)
]
