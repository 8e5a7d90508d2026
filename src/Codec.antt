-- ===== src/Codec.antt =====
-- The integer codec of internal/utilities/serialization.go and internal/utilities/deserialization.go.
-- A byte slice is a list of numbers; `none` is the error that a decoder returns.
pub mod FixedLength
pub mod General
pub mod Examples
use jam_protocol.Base.{
  ℕ, zero, suc, ◌+◌, ◌-◌, ◌*◌, ◌/◌, ◌%◌, ◌^◌, Bool, ◌&&◌, Option, none, some, List, [], ◌∷◌,
  bit_and, bit_or, ltb, leb, ◌==◌, if◌then◌else◌, length, take,
}
use jam_protocol.Base.Words.{u8, u64, sub64, shl64, shr}

-- The loop leaves the low byte and shifts; `l` is the count of rounds left.
unfoldable pub serialize_fixed_length : ℕ → ℕ → List ℕ
serialize_fixed_length x zero = []
serialize_fixed_length x (suc l) = u8 (bit_and x 0xff) ∷ serialize_fixed_length (shr x 8) l

-- `result |= T(data[i]) << (8 * i)` over the bytes from `i` on, at a type of `w` bits.
unfoldable pub or_bytes : ℕ → List ℕ → ℕ → ℕ → ℕ
or_bytes w [] i result = result
or_bytes w (b ∷ rest) i result = or_bytes w rest (i + 1) (bit_or result (b * 2 ^ (8 * i) % 2 ^ w))

unfoldable pub deserialize_fixed_length : ℕ → List ℕ → ℕ → Option ℕ
unfolding or_bytes
deserialize_fixed_length w bytes l =
    if l == 0 then some 0 else if length bytes == l then some (or_bytes w bytes 0 0) else none

-- One length tried by `SerializeU64`: the octets if 2^(7l) ≤ x < 2^(7(l+1)).
unfoldable pub fits_length : ℕ → ℕ → Bool
fits_length l x = leb (shl64 1 (7 * l)) x && ltb x (shl64 1 (7 * (l + 1)))

unfoldable pub octets_of_length : ℕ → ℕ → List ℕ
unfolding serialize_fixed_length
octets_of_length l x =
    let power8l = shl64 1 (8 * l) in
    u8 (u64 (sub64 256 (shl64 1 (8 - l)) + x / power8l)) ∷ serialize_fixed_length (x % power8l) l

unfoldable pub serialize_lengths : ℕ → ℕ → ℕ → List ℕ
serialize_lengths zero l x = 0xff ∷ serialize_fixed_length x 8
serialize_lengths (suc rounds) l x =
    let next = serialize_lengths rounds (l + 1) x in
    if fits_length l x then octets_of_length l x else next

unfoldable pub serialize_u64 : ℕ → List ℕ
serialize_u64 x = if x == 0 then 0 ∷ [] else serialize_lengths 8 0 x

-- What `DeserializeU64` reads if the remainder has `l` bytes.
unfoldable pub read_length : ℕ → ℕ → List ℕ → ℕ
unfolding or_bytes
read_length l prefix bytes =
    u64 ((prefix - (256 - 2 ^ (8 - l))) * shl64 1 (8 * l) + or_bytes 64 (take l bytes) 0 0)

unfoldable pub deserialize_lengths : ℕ → ℕ → ℕ → List ℕ → Option ℕ
deserialize_lengths zero l prefix bytes = none
deserialize_lengths (suc rounds) l prefix bytes =
    let next = deserialize_lengths rounds (l + 1) prefix bytes in
    if leb (256 - 2 ^ (8 - l)) prefix
      && leb l (length bytes)
      && fits_length l (read_length l prefix bytes)
    then some (read_length l prefix bytes)
    else next

unfoldable pub deserialize_u64 : List ℕ → Option ℕ
deserialize_u64 [] = none
deserialize_u64 (prefix ∷ rest) =
    if prefix == 0
    then some 0
    else if prefix == 0xff
    then (if ltb (length rest) 8 then none else some (or_bytes 64 (take 8 rest) 0 0))
    else deserialize_lengths 8 0 prefix rest

-- The wrappers for the narrower types refuse what does not fit.
unfoldable pub deserialize_below : ℕ → List ℕ → Option ℕ
deserialize_below limit bytes = elim (deserialize_u64 bytes) [
  | none ↦ none
  | some x ↦ if ltb limit x then none else some x
]

unfoldable pub deserialize_u8_wrapper : List ℕ → Option ℕ
unfolding deserialize_below
deserialize_u8_wrapper = deserialize_below 0xff

unfoldable pub deserialize_u16_wrapper : List ℕ → Option ℕ
unfolding deserialize_below
deserialize_u16_wrapper = deserialize_below 0xffff

unfoldable pub deserialize_u32_wrapper : List ℕ → Option ℕ
unfolding deserialize_below
deserialize_u32_wrapper = deserialize_below 0xffff_ffff
