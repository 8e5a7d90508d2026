-- ===== src/Chain/Mmr/Range.antt =====
-- A mountain range stands for the sequence of its leaves, and appending adds one at the end.
use jam_protocol.Base.{
  ℕ, suc, ◌+◌, ◌≡◌, refl, sym, ap, subst, ◌∙◌, none, some, List, [], ◌∷◌, ◌++◌, length, set,
  get_elem?, get_elem?-append, set-append, append_end, length-append, arith,
}
use mathlib.Core.List.{append-nil, append_assoc}
use jam_protocol.Chain.Mmr.{
  Hash, HashFunction, Peaks, concatenate_and_hash, replace, p_left, p, append_one,
}

-- The root of a perfect tree of a height, over its leaves.
pub data Mountain (hash_fn : HashFunction) : ℕ → Hash → List Hash → Type 0 where
  leaf : {h : Hash} → Mountain hash_fn 0 h (h ∷ [])
  node :
      {n : ℕ} {a b : Hash} {xs ys : List Hash}
      → Mountain hash_fn n a xs
      → Mountain hash_fn n b ys
      → Mountain hash_fn (suc n) (concatenate_and_hash hash_fn a b) (xs ++ ys)

-- The peaks from the height `n` on hold these leaves: the higher ones come first.
pub data Range (hash_fn : HashFunction) : ℕ → Peaks → List Hash → Type 0 where
  flat : {n : ℕ} → Range hash_fn n [] []
  gap :
      {n : ℕ} {peaks : Peaks} {xs : List Hash}
      → Range hash_fn (suc n) peaks xs
      → Range hash_fn n (none ∷ peaks) xs
  peak :
      {n : ℕ} {h : Hash} {peaks : Peaks} {xs ys : List Hash}
      → Range hash_fn (suc n) peaks xs
      → Mountain hash_fn n h ys
      → Range hash_fn n (some h ∷ peaks) (xs ++ ys)

-- What `P` does to the peaks from an index on.
carry : HashFunction → Peaks → Hash → Peaks
carry hash_fn [] l = some l ∷ []
carry hash_fn (none ∷ peaks) l = some l ∷ peaks
carry hash_fn (some current ∷ peaks) l =
    none ∷ carry hash_fn peaks (concatenate_and_hash hash_fn current l)

carry-Range :
    (hash_fn : HashFunction) {n : ℕ} {peaks : Peaks} {xs : List Hash} (l : Hash) (ys : List Hash)
    → Range hash_fn n peaks xs
    → Mountain hash_fn n l ys
    → Range hash_fn n (carry hash_fn peaks l) (xs ++ ys)
unfolding carry
carry-Range hash_fn l ys flat m = peak flat m
carry-Range hash_fn l ys (gap r) m = peak r m
carry-Range hash_fn l ys (peak {n} {h} {peaks} {xs} {ys = zs} r k) m =
    subst
      (λ leaves.
        Range hash_fn n (none ∷ carry hash_fn peaks (concatenate_and_hash hash_fn h l)) leaves)
      (sym (append_assoc xs zs ys)) (gap (carry-Range hash_fn _ _ r (node k m)))

p_left-end :
    (hash_fn : HashFunction) (peaks : Peaks) (l : Hash) (n : ℕ)
    → p_left 0 hash_fn peaks l n ≡ peaks ++ some l ∷ []
unfolding p_left
p_left-end hash_fn peaks l n = refl

p_left-gap :
    (left : ℕ) (hash_fn : HashFunction) (peaks : Peaks) (l : Hash) (n : ℕ)
    → get_elem? peaks n ≡ some none
    → p_left (suc left) hash_fn peaks l n ≡ set peaks n (some l)
unfolding p_left replace
p_left-gap left hash_fn peaks l n e = rw (p_left, e) refl

p_left-peak :
    (left : ℕ) (hash_fn : HashFunction) (peaks : Peaks) (l current : Hash) (n : ℕ)
    → get_elem? peaks n ≡ some (some current)
    → p_left (suc left) hash_fn peaks l n
      ≡ p_left left hash_fn (set peaks n none) (concatenate_and_hash hash_fn current l) (n + 1)
unfolding p_left replace
p_left-peak left hash_fn peaks l current n e = rw (p_left, e) refl

p_left-carry :
    (hash_fn : HashFunction) (low high : Peaks) (l : Hash)
    → p_left (length high) hash_fn (low ++ high) l (length low) ≡ low ++ carry hash_fn high l
unfolding carry
p_left-carry hash_fn low [] l =
    p_left-end hash_fn (low ++ []) l _ ∙ ap (λ t. t ++ some l ∷ []) (append-nil low)
p_left-carry hash_fn low (none ∷ high) l =
    p_left-gap _ hash_fn _ l _ (get_elem?-append low high none) ∙ set-append low high none (some l)
p_left-carry hash_fn low (some current ∷ high) l =
    let next = concatenate_and_hash hash_fn current l in
    p_left-peak _ hash_fn _ l current _ (get_elem?-append low high (some current))
    ∙ ap (λ t. p_left (length high) hash_fn t next (length low + 1))
        (set-append low high (some current) none ∙ append_end low high none)
    ∙ ap (p_left (length high) hash_fn ((low ++ none ∷ []) ++ high) next)
        (sym (length-append low (none ∷ [])))
    ∙ p_left-carry hash_fn (low ++ none ∷ []) high next
    ∙ sym (append_end low _ none)

-- Appending a leaf to a mountain range over some leaves gives a mountain range over the leaves with the new one behind
-- them, whatever the hash function.
pub append_one-Range :
    (hash_fn : HashFunction) (peaks : Peaks) (leaves : List Hash) (data_ : Hash)
    → Range hash_fn 0 peaks leaves
    → Range hash_fn 0 (append_one hash_fn peaks (some data_)) (leaves ++ data_ ∷ [])
unfolding append_one p
append_one-Range hash_fn peaks leaves data_ r =
    subst (λ q. Range hash_fn 0 q (leaves ++ data_ ∷ []))
      (sym (
        ap (λ left. p_left left hash_fn peaks data_ 0) (omega arith)
        ∙ p_left-carry hash_fn [] peaks data_))
      (carry-Range hash_fn data_ _ r leaf)
