-- ===== src/Chain/Safrole/Rotation.antt =====
-- What a change of epoch does to the validators' keys.
use jam_protocol.Base.{
  sym, ◌≢◌, ◌||◌, ℕ, suc, ◌<◌, ◌≡◌, refl, ap, Bool, true, false, ◌⊎◌, inl, inr, List, [], ◌∷◌,
  length, lt→ltb, if◌then◌else◌,
}
use mathlib.Core.List.{Memᴰ, Forall₂}
use mathlib.Core.List.Memᴰ
use jam_protocol.Chain.Tickets.{bytes_equal}
use jam_protocol.Chain.Tickets.Bytes.{bytes_equal_eq, bytes_equal_ne}
use jam_protocol.Chain.Safrole.{
  contains, Validator, Keys, validator_is_offender, null_validator, replace_offender_keys,
  key_rotate,
}

-- What takes a validator's place: the null key for an offender, and itself for any other.
pub data IsReplaced (offenders : List (List ℕ)) (v : Validator) : Validator → Type 0 where
  cleared : Memᴰ v.ed25519 offenders → IsReplaced offenders v null_validator
  kept : (Memᴰ v.ed25519 offenders → ⊥) → IsReplaced offenders v v

contains-cases :
    (keys : List (List ℕ)) (key : List ℕ)
    → ((contains keys key ≡ true) × Memᴰ key keys)
      ⊎ ((contains keys key ≡ false) × (Memᴰ key keys → ⊥))
unfolding contains
contains-cases [] key = inr (refl, λ m. Memᴰ.not-nil m)
contains-cases (k ∷ rest) key =
    by_head (bytes_equal k key) (bytes_equal_eq k key) (bytes_equal_ne k key)
      (contains-cases rest key)
  where
    by_head :
        (b : Bool)
        → (b ≡ true → k ≡ key)
        → (b ≡ false → k ≢ key)
        → ((contains rest key ≡ true) × Memᴰ key rest)
          ⊎ ((contains rest key ≡ false) × (Memᴰ key rest → ⊥))
        → (((b || contains rest key) ≡ true) × Memᴰ key (k ∷ rest))
          ⊎ (((b || contains rest key) ≡ false) × (Memᴰ key (k ∷ rest) → ⊥))
    by_head true same other later = inl (refl, Memᴰ.head (sym (same refl)))
    by_head false same other (inl (e, m)) = inl (e, Memᴰ.tail m)
    by_head false same other (inr (e, out)) =
        inr (e, λ m. elim m [ Memᴰ.head h ↦ other refl (sym h) | Memᴰ.tail t ↦ out t ])

replace_offender_keys-IsReplaced :
    (offenders : List (List ℕ)) (vs : List Validator)
    → Forall₂ (IsReplaced offenders) vs (replace_offender_keys offenders vs)
unfolding replace_offender_keys validator_is_offender
replace_offender_keys-IsReplaced offenders [] = Forall₂.nil
replace_offender_keys-IsReplaced offenders (v ∷ vs) =
    Forall₂.cons (replaced (contains-cases offenders v.ed25519))
      (replace_offender_keys-IsReplaced offenders vs)
  where
    replaced :
        ((contains offenders v.ed25519 ≡ true) × Memᴰ v.ed25519 offenders)
          ⊎ ((contains offenders v.ed25519 ≡ false) × (Memᴰ v.ed25519 offenders → ⊥))
        → IsReplaced offenders v (if contains offenders v.ed25519 then null_validator else v)
    replaced (inl (e, m)) = rw e (cleared m)
    replaced (inr (e, out)) = rw e (kept out)

-- The keys of a state and of the next one, whose epoch is later.
pub record IsRotated (offenders : List (List ℕ)) (prior : Keys) (result : Keys × Keys)
    : Type 0 where
  pub next : Forall₂ (IsReplaced offenders) prior.iota result.1.gamma_k
  pub present : result.1.kappa ≡ prior.gamma_k
  pub previous : result.1.lambda_ ≡ prior.kappa
  pub queue : Forall₂ (IsReplaced offenders) prior.iota result.0.iota

pub length-replace_offender_keys :
    (offenders : List (List ℕ)) (vs : List Validator)
    → length (replace_offender_keys offenders vs) ≡ length vs
unfolding replace_offender_keys
length-replace_offender_keys offenders [] = refl
length-replace_offender_keys offenders (v ∷ vs) = ap suc (length-replace_offender_keys offenders vs)

-- A change of epoch makes the next validators the present ones, and the present ones the previous. The
-- queued validators become, in the same order, the next ones: in an offender's place, one whose key is
-- among the offenders, is the null key, and any other validator stays. The prior state's queue is left
-- with the offenders replaced as well.
pub key_rotate-IsRotated :
    (offenders : List (List ℕ)) (e e' : ℕ) (prior posterior : Keys)
    → e < e'
    → IsRotated offenders prior (key_rotate offenders e e' prior posterior)
unfolding key_rotate
key_rotate-IsRotated offenders e e' prior posterior h = rw (lt→ltb e e' h) (record {
  next = replace_offender_keys-IsReplaced offenders prior.iota;
  present = refl;
  previous = refl;
  queue = replace_offender_keys-IsReplaced offenders prior.iota;
})
