-- ===== src/Chain/Guarantors/Even.antt =====
-- Where the number of cores divides that of the validators, every core has as many validators.
use jam_protocol.Base.{
  ℕ, zero, suc, ◌+◌, ◌*◌, ◌/◌, ◌%◌, ◌^◌, ◌≤◌, ◌<◌, ◌≡◌, refl, sym, ap, ap₂, true, ◌∙◌, arith, some,
  List, [], ◌∷◌, map, leb, ltb, ◌&&◌, ◌==◌, if◌then◌else◌,
}
use mathlib.Core.List.{Permᴰ}
use native.Mathlib.Nat.{
  mod-eq_of_lt, add-mod_right, mul-add, mul-one, div-eq_of_lt-le, mul-div-mul_left,
}
use jam_protocol.Chain.Guarantors.{Shape, permute}
use jam_protocol.Chain.Guarantors.Assigned.{planned, counting, permute-IsAssigned}

-- How often `c` is in a list.
abbrev pub count : ℕ → List ℕ → ℕ
count c [] = 0
count c (x ∷ xs) = (if x == c then 1 else 0) + count c xs

add_left_comm : (a b n : ℕ) → a + (b + n) ≡ b + (a + n)
add_left_comm a b n = omega arith

count-Permᴰ : (c : ℕ) {xs ys : List ℕ} → Permᴰ xs ys → count c xs ≡ count c ys
count-Permᴰ c Permᴰ.nil = refl
count-Permᴰ c (Permᴰ.cons e p) = ap₂ (λ a n. (if a == c then 1 else 0) + n) e (count-Permᴰ c p)
count-Permᴰ c (Permᴰ.swap {a' = a'} {b' = b'} {l = l} e f) =
    ap₂ (λ x y. (if x == c then 1 else 0) + ((if y == c then 1 else 0) + count c l)) e f
    ∙ add_left_comm (if b' == c then 1 else 0) (if a' == c then 1 else 0) (count c l)
count-Permᴰ c (Permᴰ.trans p q) = count-Permᴰ c p ∙ count-Permᴰ c q

-- For how many of the numbers from `s` on, `r` of them, `f` is `c`.
abbrev tally : ℕ → (ℕ → ℕ) → ℕ → ℕ → ℕ
tally c f zero s = 0
tally c f (suc r) s = (if f s == c then 1 else 0) + tally c f r (s + 1)

count-map : (c : ℕ) (f : ℕ → ℕ) (r s : ℕ) → count c (map f (counting r s)) ≡ tally c f r s
count-map c f zero s = refl
count-map c f (suc r) s = ap (λ n. (if f s == c then 1 else 0) + n) (count-map c f r (s + 1))

tally-add :
    (c : ℕ) (f : ℕ → ℕ) (a b s : ℕ) → tally c f (a + b) s ≡ tally c f a s + tally c f b (s + a)
tally-add c f zero b s =
    let start : (s ≡ s + 0) = omega arith in
    let none_first : (0 + b ≡ b) = omega arith in
    ap (λ n. tally c f n s) none_first ∙ ap (λ t. tally c f b t) start ∙ omega arith
tally-add c f (suc a) b s =
    let more : (suc a + b ≡ suc (a + b)) = omega arith in
    let start : (s + 1 + a ≡ s + suc a) = omega arith in
    let rest = tally-add c f a b (s + 1) in
    ap (λ n. tally c f n s) more
    ∙ ap (λ n. (if f s == c then 1 else 0) + n)
        (rest ∙ ap (λ t. tally c f a (s + 1) + tally c f b t) start)
    ∙ omega arith

tally-ext : (c : ℕ) (f g : ℕ → ℕ) (r s : ℕ) → ((i : ℕ) → f i ≡ g i) → tally c f r s ≡ tally c g r s
tally-ext c f g zero s same = refl
tally-ext c f g (suc r) s same =
    ap₂ (λ a n. (if a == c then 1 else 0) + n) (same s) (tally-ext c f g r (s + 1) same)

-- In a block of `k` numbers the quotient by `k` stays.
tally-block :
    (c : ℕ) (g : ℕ → ℕ) (k j r s : ℕ)
    → j * k ≤ s
    → s + r ≤ (j + 1) * k
    → tally c (λ i. g (i / k)) r s ≡ r * (if g j == c then 1 else 0)
tally-block c g k j zero s h l = omega arith
tally-block c g k j (suc r) s h l =
    let same = div-eq_of_lt-le k h (omega (arith, l)) in
    let rest = tally-block c g k j r (s + 1) (omega arith) (omega arith) in
    ap₂ (λ q n. (if g q == c then 1 else 0) + n) same rest ∙ omega arith

tally-blocks :
    (c : ℕ) (g : ℕ → ℕ) (k m j : ℕ) → tally c (λ i. g (i / k)) (m * k) (j * k) ≡ k * tally c g m j
tally-blocks c g k zero j =
    let empty : (0 * k ≡ 0) = omega arith in
    ap (λ n. tally c (λ i. g (i / k)) n (j * k)) empty ∙ omega arith
tally-blocks c g k (suc m) j =
    let size : (suc m * k ≡ k + m * k) = omega arith in
    let next : (j * k + k ≡ (j + 1) * k) = omega arith in
    let first = tally-block c g k j k (j * k) (omega arith) (omega arith) in
    let rest = ap (λ t. tally c (λ i. g (i / k)) (m * k) t) next ∙ tally-blocks c g k m (j + 1) in
    ap (λ n. tally c (λ i. g (i / k)) n (j * k)) size
    ∙ tally-add c (λ i. g (i / k)) k (m * k) (j * k)
    ∙ ap₂ (λ a b. a + b) first rest
    ∙ sym (mul-add k (if g j == c then 1 else 0) (tally c g m (j + 1)))

-- A residue is found once among as many numbers as the modulus.
tally-below :
    (c n r s : ℕ)
    → c < n
    → s + r ≤ n
    → tally c (λ x. x % n) r s ≡ (if leb s c && ltb c (s + r) then 1 else 0)
tally-below c n zero s h l = ground arith
tally-below c n (suc r) s h l =
    let same : (s % n ≡ s) = mod-eq_of_lt (omega (arith, l)) in
    let rest = tally-below c n r (s + 1) h (omega arith) in
    ap₂ (λ x t. (if x == c then 1 else 0) + t) same rest ∙ ground arith

tally-window : (c n s : ℕ) → tally c (λ x. x % n) n (s + 1) ≡ tally c (λ x. x % n) n s
tally-window c zero s = refl
tally-window c (suc m) s =
    let more : (suc m ≡ m + 1) = omega arith in
    let last : (s + 1 + m ≡ s + suc m) = omega arith in
    let same = ap (λ x. x % suc m) last ∙ add-mod_right s (suc m) in
    ap (λ n. tally c (λ x. x % suc m) n (s + 1)) more
    ∙ tally-add c (λ x. x % suc m) m 1 (s + 1)
    ∙ ap (λ x. tally c (λ x. x % suc m) m (s + 1) + ((if x == c then 1 else 0) + 0)) same
    ∙ omega arith

tally-residues : (c n s : ℕ) → c < n → tally c (λ x. x % n) n s ≡ 1
tally-residues c n zero h =
    let bounds : (leb 0 c && ltb c (0 + n) ≡ true) = ground arith in
    tally-below c n n 0 h (omega arith) ∙ ap (λ b. if b then 1 else 0) bounds
tally-residues c n (suc s) h =
    let step : (suc s ≡ s + 1) = omega arith in
    ap (λ t. tally c (λ x. x % n) n t) step ∙ tally-window c n s ∙ tally-residues c n s h

tally-shift : (c n k r s : ℕ) → tally c (λ x. (x + k) % n) r s ≡ tally c (λ x. x % n) r (s + k)
tally-shift c n k zero s = refl
tally-shift c n k (suc r) s =
    let start : (s + 1 + k ≡ s + k + 1) = omega arith in
    ap (λ t. (if (s + k) % n == c then 1 else 0) + t)
      (tally-shift c n k r (s + 1) ∙ ap (λ t. tally c (λ x. x % n) r t) start)

-- Each core has `k` of the validators planned, where there are `k` times as many as cores.
count-planned :
    (shape : Shape) (slot k c : ℕ)
    → shape.validators_count ≡ shape.cores_count * k
    → c < shape.cores_count
    → count c (map (planned shape slot) (counting shape.validators_count 0)) ≡ k
count-planned shape slot k c even inside =
    let n = slot % shape.epoch_length / shape.rotation_period in
    let quotient : ((i : ℕ) → planned shape slot i ≡ (i / k + n) % shape.cores_count) = λ i.
      ap (λ v. (shape.cores_count * i / v + n) % shape.cores_count) even
      ∙ ap (λ q. (q + n) % shape.cores_count) (mul-div-mul_left i k (omega (arith, inside))) in
    let start : (0 ≡ 0 * k) = omega arith in
    count-map c (planned shape slot) shape.validators_count 0
    ∙ tally-ext c (planned shape slot) (λ i. (i / k + n) % shape.cores_count) shape.validators_count
        0 quotient
    ∙ ap (λ v. tally c (λ i. (i / k + n) % shape.cores_count) v 0) even
    ∙ ap (tally c (λ i. (i / k + n) % shape.cores_count) (shape.cores_count * k)) start
    ∙ tally-blocks c (λ j. (j + n) % shape.cores_count) k shape.cores_count 0
    ∙ ap (λ t. k * t)
        (tally-shift c shape.cores_count n shape.cores_count 0
          ∙ tally-residues c shape.cores_count (0 + n) inside)
    ∙ mul-one k

-- With epochs of at least one and fewer than 2 ^ 31 slots, rotation periods of at least one slot, fewer
-- than 2 ^ 32 validators, at least one and fewer than 2 ^ 16 cores, and `k` times as many validators as
-- cores, the assignment is made without a run-time panic and gives each core exactly `k` validators.
pub permute-count :
    (blake2b_hash : List ℕ → List ℕ) (shape : Shape) (entropy : List ℕ) (slot k : ℕ)
    → 0 < shape.epoch_length
    → shape.epoch_length < 2 ^ 31
    → 0 < shape.rotation_period
    → shape.validators_count < 2 ^ 32
    → 0 < shape.cores_count
    → shape.cores_count < 2 ^ 16
    → shape.validators_count ≡ shape.cores_count * k
    → (cores : List ℕ) × (permute blake2b_hash shape entropy slot ≡ some cores)
      × ((c : ℕ) → c < shape.cores_count → count c cores ≡ k)
permute-count blake2b_hash shape entropy slot k e short r fits h l even =
    let (cores, found, assigned) =
      permute-IsAssigned blake2b_hash shape entropy slot e short r fits h l in
    (
      cores,
      found,
      λ c inside. count-Permᴰ c assigned.perm ∙ count-planned shape slot k c even inside,
    )
