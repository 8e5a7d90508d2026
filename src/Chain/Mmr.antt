-- ===== src/Chain/Mmr.antt =====
-- Merkle mountain ranges: internal/utilities/mmr/mmr.go. The hash functions are parameters.
pub mod Range
use jam_protocol.Base.{
  ℕ, zero, suc, ◌+◌, ◌-◌, Option, none, some, List, [], ◌∷◌, ◌++◌, length, set, get_elem?,
  replicate,
}
use mathlib.Core.List.{reverse}

abbrev pub Hash : Type 0
Hash = List ℕ

-- `HashFunction`
abbrev pub HashFunction : Type 0
HashFunction = List ℕ → Hash

-- A peak is a pointer: `none` is nil.
abbrev pub Peaks : Type 0
Peaks = List (Option Hash)

unfoldable pub concatenate_and_hash : HashFunction → Hash → Hash → Hash
concatenate_and_hash hash_fn left right = hash_fn (left ++ right)

-- An index out of range replaces nothing.
unfoldable pub replace : Peaks → ℕ → Option Hash → Peaks
replace sequence index value = set sequence index value

-- `P` at the index `n`, with the count `len(peaks) - n` of the peaks from there on: `n >= len(peaks)`
-- says that none is left.
unfoldable pub p_left : ℕ → HashFunction → Peaks → Hash → ℕ → Peaks
unfolding replace concatenate_and_hash
p_left zero hash_fn peaks l n = peaks ++ some l ∷ []
p_left (suc left) hash_fn peaks l n = elim (get_elem? peaks n) [
  | none ↦ peaks ++ some l ∷ []
  | some none ↦ replace peaks n (some l)
  | some (some current) ↦
      p_left left hash_fn (replace peaks n none) (concatenate_and_hash hash_fn current l) (n + 1)
]

unfoldable pub p : HashFunction → Peaks → Hash → ℕ → Peaks
unfolding p_left
p hash_fn peaks l n = p_left (length peaks - n) hash_fn peaks l n

-- The new peaks; a hash has 32 bytes, so that the data is only missing where it is nil.
unfoldable pub append_one : HashFunction → Peaks → Option Hash → Peaks
unfolding p
append_one hash_fn peaks none = peaks
append_one hash_fn peaks (some data_) = p hash_fn peaks data_ 0

-- The loop of `SuperPeak` that leaves out nil.
unfoldable pub present : Peaks → List Hash
present [] = []
present (none ∷ peaks) = present peaks
present (some h ∷ peaks) = h ∷ present peaks

-- The `switch` of `SuperPeak`, on the peaks from the last to the first; the next call leaves out
-- nothing.
unfoldable pub from_last : HashFunction → List Hash → Hash
from_last keccak_hash [] = replicate 32 0
from_last keccak_hash (h ∷ []) = h
from_last keccak_hash (h ∷ k ∷ rest) =
    keccak_hash ((112 ∷ 101 ∷ 97 ∷ 107 ∷ []) ++ from_last keccak_hash (k ∷ rest) ++ h)

unfoldable pub super_peak : HashFunction → Peaks → Hash
unfolding present from_last
super_peak keccak_hash peaks = from_last keccak_hash (reverse (present peaks))
