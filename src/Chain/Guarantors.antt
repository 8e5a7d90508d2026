-- ===== src/Chain/Guarantors.antt =====
-- Which core each validator guarantees: internal/extrinsic/guarantor_assignments.go. The constants
-- are arguments, the entropy and the slot too.
pub mod Assigned
pub mod Even
use jam_protocol.Base.{
  ℕ, zero, suc, ◌+◌, ◌*◌, ◌/◌, ◌%◌, Bool, true, false, ◌||◌, Option, none, some, List, [], ◌∷◌, map,
  ◌==◌, if◌then◌else◌,
}
use jam_protocol.Base.Words.{u16, u32}
use jam_protocol.Chain.Shuffle.{shuffle}
use jam_protocol.Chain.Safrole.{Validator, replace_offender_keys, validator_is_offender}

pub record Shape : Type 0 where
  pub validators_count : ℕ
  pub cores_count : ℕ
  pub epoch_length : ℕ
  pub rotation_period : ℕ

unfoldable pub rotated : Shape → ℕ → ℕ → ℕ
rotated shape n x = u32 (x + n) % u32 shape.cores_count

unfoldable pub rotate_cores : Shape → List ℕ → ℕ → List ℕ
unfolding rotated
rotate_cores shape cores n = map (rotated shape n) cores

-- The loop that fills `base`, from index `i` on, with `rounds` rounds left.
unfoldable pub base_loop : Shape → ℕ → ℕ → List ℕ
base_loop shape zero i = []
base_loop shape (suc rounds) i =
    u32 (shape.cores_count * i / shape.validators_count) ∷ base_loop shape rounds (i + 1)

unfoldable pub to_core_indices : Shape → ℕ → Option (List ℕ × List ℕ) → Option (List ℕ)
unfolding rotate_cores
to_core_indices shape n none = none
to_core_indices shape n (some (shuffled, left)) = some (map u16 (rotate_cores shape shuffled n))

-- `permute`; `none` is a run-time panic, at the latest of the divisions by the epoch's length and the
-- rotation period.
unfoldable pub permute : (List ℕ → List ℕ) → Shape → List ℕ → ℕ → Option (List ℕ)
unfolding base_loop to_core_indices shuffle
permute blake2b_hash shape entropy slot =
    if shape.epoch_length == 0 || shape.rotation_period == 0
    then none
    else to_core_indices shape (u32 (slot % shape.epoch_length / shape.rotation_period))
        (shuffle blake2b_hash (base_loop shape shape.validators_count 0) entropy)

pub record GuranatorAssignments : Type 0 where
  pub core_assignments : List ℕ
  pub public_keys : List Validator

unfoldable pub assigned : List Validator → Option (List ℕ) → Option GuranatorAssignments
assigned keys none = none
assigned keys (some cores) = some (record { core_assignments = cores; public_keys = keys })

-- `NewGuranatorAssignments`; the validators' slice is written to, and copied.
unfoldable pub new_guranator_assignments :
    (List ℕ → List ℕ)
    → Shape
    → List (List ℕ)
    → List ℕ
    → ℕ
    → List Validator
    → Option GuranatorAssignments
unfolding permute assigned replace_offender_keys
new_guranator_assignments blake2b_hash shape offenders entropy slot validators =
    assigned (replace_offender_keys offenders validators) (permute blake2b_hash shape entropy slot)
