-- ===== src/Chain/Pools/Removal.antt =====
-- What is taken from a pool, apart from how the code takes it.
use jam_protocol.Base.{
  not, ℕ, ◌-◌, ◌≡◌, ◌≢◌, refl, ap, arith, Bool, true, false, List, [], ◌∷◌, length, drop, ltb,
  if◌then◌else◌,
}
use mathlib.Core.List.{List-discrete}
use native.Mathlib.Decide.{ℕ_discrete}
use jam_protocol.Chain.Tickets.{bytes_equal}
use jam_protocol.Chain.Tickets.Bytes.{bytes_equal_eq, bytes_equal_ne}
use jam_protocol.Chain.Pools.{remove_left_most_from, remove_left_most_paired_value, trimmed}

-- The pool without the first entry that is the hash, if there is one.
abbrev pub without : List ℕ → List (List ℕ) → List (List ℕ)
without h [] = []
without h (v ∷ rest) =
    let kept = without h rest in
    elim (List-discrete ℕ_discrete v h) [ yes e ↦ rest | no ne ↦ v ∷ kept ]

abbrev pub last_eight : List (List ℕ) → List (List ℕ)
last_eight pool = drop (length pool - 8) pool

remove_left_most_from-removed :
    (h : List ℕ) (pool : List (List ℕ)) → remove_left_most_from true h pool ≡ pool
unfolding remove_left_most_from
remove_left_most_from-removed h [] = refl
remove_left_most_from-removed h (v ∷ rest) = ap (λ p. v ∷ p) (remove_left_most_from-removed h rest)

pub remove_left_most_paired_value-without :
    (h : List ℕ) (pool : List (List ℕ)) → remove_left_most_paired_value h pool ≡ without h pool
unfolding remove_left_most_paired_value remove_left_most_from
remove_left_most_paired_value-without h [] = refl
remove_left_most_paired_value-without h (v ∷ rest) =
    by_head (bytes_equal v h) (bytes_equal_eq v h) (bytes_equal_ne v h)
      (List-discrete ℕ_discrete v h) (remove_left_most_from-removed h rest)
      (remove_left_most_paired_value-without h rest)
  where
    by_head :
        (b : Bool)
        → (b ≡ true → v ≡ h)
        → (b ≡ false → v ≢ h)
        → (d : Dec (v ≡ h)) → remove_left_most_from true h rest ≡ rest
        → remove_left_most_from false h rest ≡ without h rest
        → (if not b
            then v ∷ remove_left_most_from false h rest
            else remove_left_most_from true h rest)
          ≡ elim d [ yes e ↦ rest | no ne ↦ v ∷ without h rest ]
    by_head true same other (yes e) all later = all
    by_head true same other (no ne) all later = absurd (ne (same refl))
    by_head false same other (yes e) all later = absurd (other refl e)
    by_head false same other (no ne) all later = ap (λ p. v ∷ p) later

pub trimmed-last_eight : (pool : List (List ℕ)) → trimmed pool ≡ last_eight pool
unfolding trimmed
trimmed-last_eight pool = by_size (ltb 8 (length pool)) refl
  where
    by_size :
        (b : Bool)
        → ltb 8 (length pool) ≡ b
        → (if b then drop (length pool - 8) pool else pool) ≡ drop (length pool - 8) pool
    by_size true e = refl
    by_size false e =
        let none_over : (0 ≡ length pool - 8) = ground arith in ap (λ n. drop n pool) none_over
