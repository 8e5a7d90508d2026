-- ===== src/Pvm/Memory/Copy.antt =====
-- What `copy` and the little-endian conversions do to a page's bytes.
use jam_protocol.Base.{
  ℕ, zero, suc, ◌+◌, ◌*◌, ◌/◌, ◌^◌, ◌≤◌, ◌<◌, ◌≡◌, refl, ap, ◌⊎◌, inr, List, [], ◌∷◌, arith, length,
  get_or, take, drop, All,
}
use jam_protocol.Base.Words.{IsByte}
use jam_protocol.Base.Bits.{pow-add}
use jam_protocol.Pvm.Memory.{put_uint, get_uint, copy_at}

pub length-put_uint : (n x : ℕ) → length (put_uint n x) ≡ n
unfolding put_uint
length-put_uint zero x = refl
length-put_uint (suc n) x = ap suc (length-put_uint n (x / 2 ^ 8))

pub put_uint-IsByte : (n x : ℕ) → All IsByte (put_uint n x)
unfolding put_uint
put_uint-IsByte zero x = tt
put_uint-IsByte (suc n) x = (omega arith, put_uint-IsByte n (x / 2 ^ 8))

eight_suc : (n : ℕ) → 2 ^ (8 * suc n) ≡ 256 * 2 ^ (8 * n)
eight_suc n = ground (arith, pow-add 8 (8 * n))

pub get_uint-lt : (bytes : List ℕ) → All IsByte bytes → get_uint bytes < 2 ^ (8 * length bytes)
unfolding get_uint
get_uint-lt [] h = omega arith
get_uint-lt (b ∷ rest) h = omega (arith, eight_suc (length rest), get_uint-lt rest h.1)

-- Reading back what was written keeps the low bytes.
pub get_uint-put_uint : (n x : ℕ) → x < 2 ^ (8 * n) → get_uint (put_uint n x) ≡ x
unfolding get_uint put_uint
get_uint-put_uint zero x h = omega arith
get_uint-put_uint (suc n) x h =
    omega (arith, eight_suc n, get_uint-put_uint n (x / 2 ^ 8) (omega (arith, eight_suc n)))

pub length-copy_at : (xs : List ℕ) (i : ℕ) (src : List ℕ) → length (copy_at xs i src) ≡ length xs
unfolding copy_at
length-copy_at [] i src = refl
length-copy_at (x ∷ xs) zero [] = refl
length-copy_at (x ∷ xs) zero (b ∷ src) = ap suc (length-copy_at xs zero src)
length-copy_at (x ∷ xs) (suc i) src = ap suc (length-copy_at xs i src)

pub copy_at-IsByte :
    (xs : List ℕ) (i : ℕ) (src : List ℕ)
    → All IsByte xs
    → All IsByte src
    → All IsByte (copy_at xs i src)
unfolding copy_at
copy_at-IsByte [] i src p q = tt
copy_at-IsByte (x ∷ xs) zero [] p q = p
copy_at-IsByte (x ∷ xs) zero (b ∷ src) p q = (q.0, copy_at-IsByte xs zero src p.1 q.1)
copy_at-IsByte (x ∷ xs) (suc i) src p q = (p.0, copy_at-IsByte xs i src p.1 q)

-- The bytes copied are there, if they fit.
pub take-drop-copy_at :
    (xs : List ℕ) (i : ℕ) (src : List ℕ)
    → i + length src ≤ length xs
    → take (length src) (drop i (copy_at xs i src)) ≡ src
unfolding copy_at
take-drop-copy_at [] i [] h = refl
take-drop-copy_at [] i (b ∷ src) h = absurd (omega arith)
take-drop-copy_at (x ∷ xs) zero [] h = refl
take-drop-copy_at (x ∷ xs) zero (b ∷ src) h =
    ap (◌∷◌ b) (take-drop-copy_at xs zero src (omega arith))
take-drop-copy_at (x ∷ xs) (suc i) src h = take-drop-copy_at xs i src (omega arith)

-- No byte outside the range changes.
pub get_or-copy_at :
    (xs : List ℕ) (i : ℕ) (src : List ℕ) (j : ℕ)
    → (j < i) ⊎ (i + length src ≤ j)
    → get_or (copy_at xs i src) j 0 ≡ get_or xs j 0
unfolding copy_at
get_or-copy_at [] i src j h = refl
get_or-copy_at (x ∷ xs) zero [] j h = refl
get_or-copy_at (x ∷ xs) zero (b ∷ src) zero h = absurd (omega arith)
get_or-copy_at (x ∷ xs) zero (b ∷ src) (suc j) h = get_or-copy_at xs zero src j (inr (omega arith))
get_or-copy_at (x ∷ xs) (suc i) src zero h = refl
get_or-copy_at (x ∷ xs) (suc i) src (suc j) h = get_or-copy_at xs i src j (omega arith)
