-- ===== src/Chain/Shuffle/Permutation.antt =====
-- The shuffle gives a permutation, and leaves its argument behind in the reverse order.
use jam_protocol.Base.{
  ℕ, zero, suc, ◌+◌, ◌%◌, ◌^◌, ◌≤◌, ◌<◌, ◌≡◌, refl, sym, ap, subst, ◌∙◌, arith, Option, some, List,
  [], ◌∷◌, length, get_or, set, take, drop, length-set, length-take,
}
use jam_protocol.Base.Words.{u32}
use mathlib.Core.List.{Permᴰ, reverse, reverse-cons}
use mathlib.Core.List.Permᴰ
use native.Mathlib.Nat.{mod-lt}
use jam_protocol.Chain.Shuffle.{
  numeric_loop, numeric_sequence_from_hash, swap_last, put_selected, fisher_yates_shuffle, shuffle,
}

length-numeric_loop :
    (blake2b_hash : List ℕ → List ℕ) (hash : List ℕ) (rounds i : ℕ)
    → length (numeric_loop blake2b_hash hash rounds i) ≡ rounds
unfolding numeric_loop
length-numeric_loop blake2b_hash hash zero i = refl
length-numeric_loop blake2b_hash hash (suc rounds) i =
    ap suc (length-numeric_loop blake2b_hash hash rounds (i + 1))

take-set : (xs : List ℕ) (k v : ℕ) → take k (set xs k v) ≡ take k xs
take-set xs zero v = refl
take-set [] (suc k) v = refl
take-set (x ∷ xs) (suc k) v = ap (λ t. x ∷ t) (take-set xs k v)

drop-set : (xs : List ℕ) (k v : ℕ) → length xs ≡ suc k → drop k (set xs k v) ≡ v ∷ []
drop-set [] k v h = absurd (omega arith)
drop-set (x ∷ []) zero v h = refl
drop-set (x ∷ y ∷ xs) zero v h = absurd (omega arith)
drop-set (x ∷ xs) (suc k) v h = drop-set xs k v (omega arith)

last-Permᴰ : (k : ℕ) (xs : List ℕ) → length xs ≡ suc k → Permᴰ (get_or xs k 0 ∷ take k xs) xs
last-Permᴰ k [] h = absurd (omega arith)
last-Permᴰ zero (x ∷ []) h = Permᴰ.refl (x ∷ [])
last-Permᴰ zero (x ∷ y ∷ xs) h = absurd (omega arith)
last-Permᴰ (suc k) (x ∷ xs) h =
    Permᴰ.trans (Permᴰ.swap refl refl) (Permᴰ.cons refl (last-Permᴰ k xs (omega arith)))

-- The element selected and the elements that stay in front are all of them.
swap_last-Permᴰ :
    (k i : ℕ) (xs : List ℕ)
    → length xs ≡ suc k
    → i ≤ k
    → Permᴰ (get_or xs i 0 ∷ take k (swap_last xs i k)) xs
unfolding swap_last
swap_last-Permᴰ k i [] h le = absurd (omega arith)
swap_last-Permᴰ zero zero (x ∷ xs) h le = last-Permᴰ zero (x ∷ xs) h
swap_last-Permᴰ zero (suc i) (x ∷ xs) h le = absurd (omega arith)
swap_last-Permᴰ (suc k) zero (x ∷ xs) h le = Permᴰ.cons refl (
    subst (λ t. Permᴰ (get_or xs k 0 ∷ t) xs) (sym (take-set xs k x))
      (last-Permᴰ k xs (omega arith)))
swap_last-Permᴰ (suc k) (suc i) (x ∷ xs) h le =
    Permᴰ.trans (Permᴰ.swap refl refl)
      (Permᴰ.cons refl (swap_last-Permᴰ k i xs (omega arith) (omega arith)))

-- The result is a permutation of the argument, which is left in the reverse order of the result.
abbrev pub IsShuffle : List ℕ → Option (List ℕ × List ℕ) → Type 0
IsShuffle s o = (result : List ℕ) × (o ≡ some (result, reverse result)) × Permᴰ result s

put_selected-IsShuffle :
    (s : List ℕ) (selected : ℕ) (front : List ℕ) (o : Option (List ℕ × List ℕ))
    → Permᴰ (selected ∷ front) s
    → IsShuffle front o
    → IsShuffle s (put_selected selected (selected ∷ []) o)
unfolding put_selected
put_selected-IsShuffle s selected front o perm (result, is_o, same) = (
  selected ∷ result,
  rw is_o (ap (λ t. some (selected ∷ result, t)) (sym (reverse-cons selected result))),
  Permᴰ.trans (Permᴰ.cons refl same) perm,
)

drop-swap_last :
    (s : List ℕ) (i k : ℕ) → length s ≡ suc k → drop k (swap_last s i k) ≡ get_or s i 0 ∷ []
unfolding swap_last
drop-swap_last s i k size = drop-set _ k _ (length-set s i _ ∙ size)

take-swap_last : (s : List ℕ) (i k : ℕ) → length s ≡ suc k → length (take k (swap_last s i k)) ≡ k
unfolding swap_last
take-swap_last s i k size = omega (
  arith,
  length-take k (set (set s i (get_or s k 0)) k (get_or s i 0)),
  length-set (set s i (get_or s k 0)) k (get_or s i 0),
  length-set s i (get_or s k 0),
)

fisher_yates_shuffle-IsShuffle :
    (l : ℕ) (s r : List ℕ)
    → length s ≡ l
    → l ≤ length r
    → l < 2 ^ 32
    → IsShuffle s (fisher_yates_shuffle l s r)
unfolding fisher_yates_shuffle
fisher_yates_shuffle-IsShuffle zero [] r size enough fits = ([], refl, Permᴰ.nil)
fisher_yates_shuffle-IsShuffle zero (x ∷ s) r size enough fits = absurd (omega arith)
fisher_yates_shuffle-IsShuffle (suc l) s [] size enough fits = absurd (omega arith)
fisher_yates_shuffle-IsShuffle (suc l) s (x ∷ r) size enough fits =
    let i = x % u32 (suc l) in
    let front = take l (swap_last s i l) in
    subst (λ e. IsShuffle s (put_selected (get_or s i 0) e (fisher_yates_shuffle l front r)))
      (sym (drop-swap_last s i l size))
      (put_selected-IsShuffle s (get_or s i 0) front _
        (swap_last-Permᴰ l i s size (index_le x l fits))
        (fisher_yates_shuffle-IsShuffle l front r (take-swap_last s i l size) (omega arith)
          (omega arith)))
  where
    index_le : (x l : ℕ) → suc l < 2 ^ 32 → x % u32 (suc l) ≤ l
    index_le x l h = omega (arith, mod-lt x {m = u32 (suc l)} (omega arith))

-- On a slice of fewer than 2 ^ 32 elements, the shuffle ends without a panic, with a permutation of the
-- slice, and leaves the slice itself in the reverse order of the result.
pub shuffle-IsShuffle :
    (blake2b_hash : List ℕ → List ℕ) (s hash : List ℕ)
    → length s < 2 ^ 32
    → IsShuffle s (shuffle blake2b_hash s hash)
unfolding shuffle numeric_sequence_from_hash
shuffle-IsShuffle blake2b_hash s hash fits =
    fisher_yates_shuffle-IsShuffle (length s) s _ refl
      (omega (arith, length-numeric_loop blake2b_hash hash (u32 (length s)) 0)) fits
