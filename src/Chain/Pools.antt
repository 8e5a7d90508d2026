-- ===== src/Chain/Pools.antt =====
-- The authorization pools: internal/authorization/authorization.go, and AuthPool of
-- internal/types/types.go. The pools are written in place; the model gives the pools afterwards.
pub mod Removal
pub mod PerCore
use jam_protocol.Base.{
  ℕ, zero, suc, ◌+◌, ◌-◌, ◌%◌, Bool, true, false, ◌&&◌, ◌||◌, not, Option, none, some, List, [],
  ◌∷◌, ◌++◌, length, get_elem?, set, drop, ltb, leb, ◌==◌, if◌then◌else◌,
}
use jam_protocol.Chain.Tickets.{bytes_equal}

-- A guarantee's core and the authorizer hash of its report.
pub record Guarantee : Type 0 where
  pub core_index : ℕ
  pub authorizer_hash : List ℕ

-- A pool is a slice, which can be nil; both forms have their entries.
abbrev pub Pool : Type 0
Pool = Option (List (List ℕ))

unfoldable pub entries : Pool → List (List ℕ)
entries none = []
entries (some hashes) = hashes

abbrev pub auth_pool_max_size : ℕ
auth_pool_max_size = 8

-- `RemoveLeftMostPairedValue`; the loop goes on after the hash is removed, and keeps the rest.
unfoldable pub remove_left_most_from : Bool → List ℕ → List (List ℕ) → List (List ℕ)
remove_left_most_from removed h [] = []
remove_left_most_from removed h (v ∷ rest) =
    let kept = remove_left_most_from removed h rest in
    let taken = remove_left_most_from true h rest in
    if removed || not (bytes_equal v h) then v ∷ kept else taken

unfoldable pub remove_left_most_paired_value : List ℕ → List (List ℕ) → List (List ℕ)
unfolding remove_left_most_from
remove_left_most_paired_value h pool = remove_left_most_from false h pool

-- The pools, an error, or a run-time panic.
pub data Update : Type 0 where
  pools : List Pool → Update
  failed crashed : Update

-- `updatePoolFromQueue`
unfoldable pub update_pool_from_queue : Guarantee → List Pool → Update
unfolding remove_left_most_paired_value
update_pool_from_queue eg alpha = elim (get_elem? alpha eg.core_index) [
  | none ↦ crashed
  | some none ↦ failed
  | some (some pool) ↦
      pools (set alpha eg.core_index (some (remove_left_most_paired_value eg.authorizer_hash pool)))
]

unfoldable pub then_update : Update → (List Pool → Update) → Update
then_update (pools alpha) next = next alpha
then_update failed next = failed
then_update crashed next = crashed

-- The loop over the guarantees.
unfoldable pub remove_used : List Guarantee → List Pool → Update
unfolding update_pool_from_queue then_update
remove_used [] alpha = pools alpha
remove_used (eg ∷ rest) alpha =
    then_update (update_pool_from_queue eg alpha) (λ alpha'. remove_used rest alpha')

-- The last entries, as many as a pool may have.
unfoldable pub trimmed : List (List ℕ) → List (List ℕ)
trimmed pool =
    if ltb auth_pool_max_size (length pool)
    then drop (length pool - auth_pool_max_size) pool
    else pool

-- The entry of the queue at the slot, and the pool that it is appended to.
unfoldable pub append_to_pool : Option (List ℕ) → Option Pool → ℕ → List Pool → Update
unfolding trimmed entries
append_to_pool none pool core alpha = crashed
append_to_pool (some h) none core alpha = crashed
append_to_pool (some h) (some pool) core alpha =
    pools (set alpha core (some (trimmed (entries pool ++ h ∷ []))))

-- One core; an empty queue is passed over.
unfoldable pub append_from_queue : ℕ → Option (List (List ℕ)) → ℕ → List Pool → Update
unfolding append_to_pool
append_from_queue slot none core alpha = crashed
append_from_queue slot (some []) core alpha = pools alpha
append_from_queue slot (some (h ∷ queue)) core alpha =
    append_to_pool (get_elem? (h ∷ queue) (slot % length (h ∷ queue))) (get_elem? alpha core) core
      alpha

-- The loop over the cores from `core` on, with `rounds` rounds left.
unfoldable pub append_loop : ℕ → List (List (List ℕ)) → ℕ → ℕ → List Pool → Update
unfolding append_from_queue then_update
append_loop slot varphi zero core alpha = pools alpha
append_loop slot varphi (suc rounds) core alpha =
    then_update (append_from_queue slot (get_elem? varphi core) core alpha)
      (λ alpha'. append_loop slot varphi rounds (core + 1) alpha')

-- `AuthPool.Validate` of each pool, and `AuthPools.Validate`.
unfoldable pub validate_pools : List Pool → Bool
unfolding entries
validate_pools [] = true
validate_pools (pool ∷ rest) = leb (length (entries pool)) auth_pool_max_size && validate_pools rest

unfoldable pub validated : ℕ → List Pool → Update
unfolding validate_pools
validated cores_count alpha =
    if (length alpha == cores_count) && validate_pools alpha then pools alpha else failed

unfoldable pub stf_alpha_to_alpha_prime :
    ℕ → ℕ → List Guarantee → List Pool → List (List (List ℕ)) → Update
unfolding remove_used append_loop validated then_update
stf_alpha_to_alpha_prime cores_count slot guarantees alpha varphi =
    then_update (remove_used guarantees alpha) (λ alpha'.
      then_update (append_loop slot varphi cores_count 0 alpha')
        (λ alpha''. validated cores_count alpha''))
