-- ===== src/Chain/Guarantors/Assigned.antt =====
-- Which cores the validators are assigned to, apart from their order.
use jam_protocol.Base.{
  ◌≤◌, ◌*◌, subst, ℕ, zero, suc, ◌+◌, ◌/◌, ◌%◌, ◌^◌, ◌<◌, ◌≡◌, refl, ap, ap₂, ◌∙◌, arith, Option,
  none, some, List, [], ◌∷◌, map, All, length, ◌==◌, ne→==, ◌||◌, if◌then◌else◌,
}
use mathlib.Core.List.{Permᴰ}
use mathlib.Core.List.Permᴰ
use native.Mathlib.Nat.{mod-lt, div-lt_iff_lt-mul, div-le_self, mul-lt-mul_of_pos_left}
use jam_protocol.Base.Words.{u16, u32}
use jam_protocol.Chain.Shuffle.Permutation.{shuffle-IsShuffle}
use jam_protocol.Chain.Guarantors.{
  Shape, rotated, rotate_cores, base_loop, to_core_indices, permute,
}

length-base_loop : (shape : Shape) (rounds i : ℕ) → length (base_loop shape rounds i) ≡ rounds
unfolding base_loop
length-base_loop shape zero i = refl
length-base_loop shape (suc rounds) i = ap suc (length-base_loop shape rounds (i + 1))

-- The core of the validator at index `i` before the shuffle, in numbers that do not wrap.
abbrev pub planned : Shape → ℕ → ℕ → ℕ
planned shape slot i =
    (shape.cores_count * i / shape.validators_count
      + slot % shape.epoch_length / shape.rotation_period)
    % shape.cores_count

-- As many numbers as `rounds`, from `i` on.
abbrev pub counting : ℕ → ℕ → List ℕ
counting zero i = []
counting (suc rounds) i = i ∷ counting rounds (i + 1)

-- The cores are the planned ones in some order, and each is a core of the protocol.
pub record IsAssigned (shape : Shape) (slot : ℕ) (cores : List ℕ) : Type 0 where
  pub perm : Permᴰ cores (map (planned shape slot) (counting shape.validators_count 0))
  pub inside : All (λ c. c < shape.cores_count) cores

quotient-lt : (c v i : ℕ) → i < v → 0 < c → c * i / v < c
quotient-lt c v i h k = (div-lt_iff_lt-mul (omega (arith, h))).1 (mul-lt-mul_of_pos_left h k)

rotated-planned :
    (shape : Shape) (slot i : ℕ)
    → shape.epoch_length < 2 ^ 31
    → 0 < shape.epoch_length
    → 0 < shape.cores_count
    → shape.cores_count < 2 ^ 16
    → i < shape.validators_count
    → rotated shape
        (u32 (slot % shape.epoch_length / shape.rotation_period))
        (u32 (shape.cores_count * i / shape.validators_count))
      ≡ planned shape slot i
unfolding rotated
rotated-planned shape slot i short e h k inside =
    let first = quotient-lt shape.cores_count shape.validators_count i inside h in
    let second : (slot % shape.epoch_length / shape.rotation_period < 2 ^ 31) =
      omega (arith, div-le_self (slot % shape.epoch_length) shape.rotation_period, mod-lt slot e) in
    no_wrap (shape.cores_count * i / shape.validators_count)
      (slot % shape.epoch_length / shape.rotation_period) shape.cores_count first k second
  where
    no_wrap :
        (x n c : ℕ) → x < c → c < 2 ^ 16 → n < 2 ^ 31 → u32 (u32 x + u32 n) % u32 c ≡ (x + n) % c
    no_wrap x n c h k l =
        let sum : (u32 (u32 x + u32 n) ≡ x + n) = omega (arith, h, k, l) in
        let same : (u32 c ≡ c) = omega (arith, k) in ap₂ (λ a b. a % b) sum same

rotate_cores-planned :
    (shape : Shape) (slot rounds i : ℕ)
    → shape.epoch_length < 2 ^ 31
    → 0 < shape.epoch_length
    → 0 < shape.cores_count
    → shape.cores_count < 2 ^ 16
    → i + rounds ≤ shape.validators_count
    → rotate_cores shape
        (base_loop shape rounds i)
        (u32 (slot % shape.epoch_length / shape.rotation_period))
      ≡ map (planned shape slot) (counting rounds i)
unfolding rotate_cores base_loop
rotate_cores-planned shape slot zero i short e h k inside = refl
rotate_cores-planned shape slot (suc rounds) i short e h k inside =
    ap₂ (λ c cs. c ∷ cs) (rotated-planned shape slot i short e h k (omega arith))
      (rotate_cores-planned shape slot rounds (i + 1) short e h k (omega arith))

rotate_cores-Permᴰ :
    (shape : Shape) (n : ℕ) {xs ys : List ℕ}
    → Permᴰ xs ys
    → Permᴰ (rotate_cores shape xs n) (rotate_cores shape ys n)
unfolding rotate_cores
rotate_cores-Permᴰ shape n p = Permᴰ.map (rotated shape n) p

-- A core index fits 16 bits.
rotated-lt :
    (shape : Shape) (n x : ℕ)
    → 0 < shape.cores_count
    → shape.cores_count < 2 ^ 16
    → rotated shape n x < shape.cores_count
unfolding rotated
rotated-lt shape n x h k =
    let m = mod-lt (u32 (x + n)) {m = u32 shape.cores_count} (omega arith) in omega (arith, m)

u16-rotated :
    (shape : Shape) (n : ℕ) (xs : List ℕ)
    → 0 < shape.cores_count
    → shape.cores_count < 2 ^ 16
    → map u16 (rotate_cores shape xs n) ≡ rotate_cores shape xs n
unfolding rotate_cores
u16-rotated shape n [] h k = refl
u16-rotated shape n (x ∷ xs) h k =
    let m = rotated-lt shape n x h k in
    ap₂ (λ c cs. c ∷ cs) (omega (arith, m)) (u16-rotated shape n xs h k)

rotate_cores-All :
    (shape : Shape) (n : ℕ) (xs : List ℕ)
    → 0 < shape.cores_count
    → shape.cores_count < 2 ^ 16
    → All (λ c. c < shape.cores_count) (rotate_cores shape xs n)
unfolding rotate_cores
rotate_cores-All shape n [] h k = tt
rotate_cores-All shape n (x ∷ xs) h k = (rotated-lt shape n x h k, rotate_cores-All shape n xs h k)

in_periods :
    (e r : ℕ) (o : Option (List ℕ)) → 0 < e → 0 < r → (if e == 0 || r == 0 then none else o) ≡ o
in_periods e r o h k = rw (ne→== e 0 (omega (arith, h)), ne→== r 0 (omega (arith, k))) refl

-- With epochs of at least one and fewer than 2 ^ 31 slots, rotation periods of at least one slot, fewer
-- than 2 ^ 32 validators, and at least one and fewer than 2 ^ 16 cores, the assignment is made without a
-- run-time panic: the cores are, in some order, `(C * i / V + slot % E / R) % C` for each validator `i`,
-- where there are `C` cores, `V` validators, `E` slots of an epoch and `R` of a period, and each is a core
-- of the protocol.
pub permute-IsAssigned :
    (blake2b_hash : List ℕ → List ℕ) (shape : Shape) (entropy : List ℕ) (slot : ℕ)
    → 0 < shape.epoch_length
    → shape.epoch_length < 2 ^ 31
    → 0 < shape.rotation_period
    → shape.validators_count < 2 ^ 32
    → 0 < shape.cores_count
    → shape.cores_count < 2 ^ 16
    → (cores : List ℕ) × (permute blake2b_hash shape entropy slot ≡ some cores)
      × IsAssigned shape slot cores
unfolding permute to_core_indices
permute-IsAssigned blake2b_hash shape entropy slot e short r fits h k =
    let base = base_loop shape shape.validators_count 0 in
    let n = u32 (slot % shape.epoch_length / shape.rotation_period) in
    let (shuffled, is_shuffled, perm) =
      shuffle-IsShuffle blake2b_hash base entropy
        (omega (arith, length-base_loop shape shape.validators_count 0)) in
    (
      rotate_cores shape shuffled n,
      in_periods (shape.epoch_length) shape.rotation_period _ e r
          ∙ ap (to_core_indices shape n) is_shuffled
          ∙ ap some (u16-rotated shape n shuffled h k),
      record {
        perm =
            subst (Permᴰ (rotate_cores shape shuffled n))
              (rotate_cores-planned shape slot shape.validators_count 0 short e h k (omega arith))
              (rotate_cores-Permᴰ shape n perm);
        inside = rotate_cores-All shape n shuffled h k;
      },
    )
