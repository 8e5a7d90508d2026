-- ===== src/Chain/Shuffle.antt =====
-- The shuffle of internal/utilities/shuffle/shuffle.go. The hash function is a parameter.
pub mod Permutation
use jam_protocol.Base.{
  ℕ, zero, suc, ◌+◌, ◌*◌, ◌/◌, ◌%◌, ◌^◌, Option, none, some, List, [], ◌∷◌, ◌++◌, length, get_or,
  set, take, drop, bit_or, bit_and, ◌==◌,
}
use jam_protocol.Base.Words.{u8, u32, u64, shl64, shr}

-- `SerializeFixedLength` of this file; the loop leaves the low byte and shifts.
unfoldable pub serialize : ℕ → ℕ → List ℕ
serialize x zero = []
serialize x (suc l) = u8 (bit_and x 0xff) ∷ serialize (shr x 8) l

-- `DeserializeFixedLength` of this file; the loop starts at the last byte.
unfoldable pub deserialize : List ℕ → ℕ
deserialize [] = 0
deserialize (b ∷ rest) = bit_or (shl64 (deserialize rest) 8) b

-- The number at index `i`.
unfoldable pub numeric_value : (List ℕ → List ℕ) → List ℕ → ℕ → ℕ
unfolding serialize deserialize
numeric_value blake2b_hash hash i =
    u32
      (deserialize (take 4 (drop (u32 (4 * i) % 32) (blake2b_hash (hash ++ serialize (i / 8) 4)))))

-- The loop from index `i` on, with `rounds` rounds left.
unfoldable pub numeric_loop : (List ℕ → List ℕ) → List ℕ → ℕ → ℕ → List ℕ
unfolding numeric_value
numeric_loop blake2b_hash hash zero i = []
numeric_loop blake2b_hash hash (suc rounds) i =
    numeric_value blake2b_hash hash i ∷ numeric_loop blake2b_hash hash rounds (i + 1)

unfoldable pub numeric_sequence_from_hash : (List ℕ → List ℕ) → List ℕ → ℕ → List ℕ
unfolding numeric_loop
numeric_sequence_from_hash blake2b_hash hash length = numeric_loop blake2b_hash hash length 0

-- `s[index], s[l-1] = s[l-1], s[index]`
unfoldable pub swap_last : List ℕ → ℕ → ℕ → List ℕ
swap_last s index last = set (set s index (get_or s last 0)) last (get_or s index 0)

-- `append([]types.U32{selected}, shuffledRest...)`, and the end of the slice, which the next call does
-- not have.
unfoldable pub put_selected : ℕ → List ℕ → Option (List ℕ × List ℕ) → Option (List ℕ × List ℕ)
put_selected selected end none = none
put_selected selected end (some (rest, left)) = some (selected ∷ rest, left ++ end)

-- `FisherYatesShuffle` on a slice of length `l`: the result, and what the slice holds afterwards, as
-- the swaps are made in place. `none` is the panic where the random numbers run out.
unfoldable pub fisher_yates_shuffle : ℕ → List ℕ → List ℕ → Option (List ℕ × List ℕ)
unfolding swap_last put_selected
fisher_yates_shuffle zero s r = some ([], s)
fisher_yates_shuffle (suc l) s [] = none
fisher_yates_shuffle (suc l) s (x ∷ r) =
    let index = x % u32 (suc l) in
    let swapped = swap_last s index l in
    put_selected (get_or s index 0) (drop l swapped) (fisher_yates_shuffle l (take l swapped) r)

-- `Shuffle`: the result, and what the slice holds afterwards.
unfoldable pub shuffle : (List ℕ → List ℕ) → List ℕ → List ℕ → Option (List ℕ × List ℕ)
unfolding numeric_sequence_from_hash fisher_yates_shuffle
shuffle blake2b_hash s hash =
    fisher_yates_shuffle (length s) s
      (numeric_sequence_from_hash blake2b_hash hash (u32 (length s)))
